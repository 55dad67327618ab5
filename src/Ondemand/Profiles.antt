-- ===== src/Ondemand/Profiles.antt =====
-- The profiles that a request on demand reads from an answer, HES/src/client.cpp: `parse_*_profile` and
-- `parse_Events_profile`. `data` is the memory from the start byte of the DLMS answer on; `none` is a
-- read behind its end.
pub mod RoundTrip
pub mod Safety
use atlascode.Prelude.{
  ℕ, zero, suc, ◌+◌, ◌*◌, ◌%◌, List, [], ◌∷◌, ◌++◌, Option, none, some, Bytes, leb, ◌==◌,
  if◌then◌else◌, ◌>>=◌, get_elem?, drop, find, insert, number_key,
}
use atlascode.DataType
use atlascode.Parser.{read_be}
use atlascode.Ondemand.Values.{
  DlmsValue, uint8_value, uint16_value, uint32_value, log_dlms_data_type, Clock, extract_dlms_value,
}

-- `std::unordered_map<uint8_t, std::vector<DlmsValue>>`
abbrev pub ProfileData : Type 0
ProfileData = List (ℕ × List DlmsValue)

-- `profile.data[data_index].push_back(value)`
unfoldable pub push_value : ProfileData → ℕ → DlmsValue → ProfileData
push_value m data_index value = elim (find m data_index) [
  | none ↦ insert m data_index (value ∷ [])
  | some values ↦ insert m data_index (values ++ value ∷ [])
]

-- A record: its index, its type, its value and how far the next one is.
pub record Field : Type 0 where
  pub data_index : ℕ
  pub dlms_data_type : ℕ
  pub value : DlmsValue
  pub size : ℕ

-- A value of the type NONE is not kept.
unfoldable pub keep_value : ProfileData → Field → ProfileData
unfolding push_value
keep_value m f = if f.dlms_data_type == DataType.none then m else push_value m f.data_index f.value

module _ {Tm : Type 0} (clock : Clock Tm) where
  -- The record at `data + offset`.
  unfoldable pub read_field : Bytes → Option Field
  unfolding log_dlms_data_type extract_dlms_value
  read_field here = do
    data_index ← get_elem? here 0
    dlms_status ← get_elem? here 1
    dlms_data_type ← get_elem? here 2
    (data_off, field_len) ← log_dlms_data_type dlms_data_type here
    value ← extract_dlms_value clock dlms_data_type (drop data_off here) field_len
    some (record {
      data_index = data_index;
      dlms_data_type = dlms_data_type;
      value = value;
      size = data_off + field_len;
    })

  -- The loop with the records left; `offset` is a `uint8_t`.
  unfoldable pub profile_loop : ℕ → ℕ → Bytes → ℕ → ProfileData → Option ProfileData
  unfolding read_field keep_value
  profile_loop zero offset data' length m = some m
  profile_loop (suc n) offset data' length m = if leb length offset then some m else (do
    f ← read_field (drop offset data')
    profile_loop n ((offset + f.size) % 256) data' length (keep_value m f))

  -- The text of `parse_nameplate_profile`, `parse_instantaneous_profile`, `parse_daily_load_profile`,
  -- `parse_block_load_profile` and `parse_billing_history_profile`, which differ in the profile.
  unfoldable pub parse_profile : Bytes → ℕ → ProfileData → Option ProfileData
  unfolding profile_loop
  parse_profile data' length m = do
    total_records ← get_elem? data' 8
    profile_loop total_records 9 data' length m
