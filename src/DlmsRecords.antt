-- ===== src/DlmsRecords.antt =====
-- `PushData::parseDLMSRecords` and `PushData::parseBlockLoadDLMSRecords` of HES/src/push.cpp. The two
-- loops have one text but for what they do with a record; that is the argument `keep`.
pub mod Safety
pub mod RoundTrip
use atlascode.Prelude.{
  ℕ, zero, suc, ◌+◌, ◌-◌, Bool, true, false, List, [], ◌∷◌, ◌++◌, Option, none, some, Bytes, ltb,
  leb, not, ◌||◌, ◌==◌, if◌then◌else◌, ◌>>=◌, get_elem?, length, insert, number_key,
}
use atlascode.Packet.{pmesh_header_size, dlms_header_size}
use atlascode.Records.{DlmsValueStruct, DlmsRecordMap, fresh}
use atlascode.Parser.{Parsed, parse_by_type}

-- One round of the loop, its test and its `break`s included: the record that it reads, or the end of
-- the loop. `none` is a read out of bounds.
unfoldable pub next_record : Bytes → ℕ → Option (Option (ℕ × Parsed))
next_record buf offset =
    if leb (length buf - 1) offset || ltb (length buf) (offset + 3) then some none else (do
      record_id ← get_elem? buf offset
      delimiter ← get_elem? buf (offset + 1)
      if not (delimiter == 0) then some none else (do
        dtype ← get_elem? buf (offset + 2)
        r ← parse_by_type buf (offset + 3) dtype fresh
        if not r.success then some none else some (some (record_id, r))))

module _ {ℓ} {S : Type ℓ} (keep : S → ℕ → DlmsValueStruct → S) where
  -- The loop, with what it collects and `received_records`. `none` is a read out of bounds, or the end
  -- of the fuel.
  unfoldable pub records_loop : ℕ → Bytes → ℕ → S → ℕ → Option (S × ℕ)
  records_loop zero buf offset s received = none
  records_loop (suc fuel) buf offset s received = do
    round ← next_record buf offset
    elim round [
      | none ↦ some (s, received)
      | some (record_id, r) ↦
          records_loop fuel buf r.offset (keep s record_id r.value) (received + 1)
    ]

  -- SUCCESS is `true`. The fuel is a round for each byte and one more.
  unfoldable pub parse_records : Bytes → ℕ → S → Option (Bool × S)
  parse_records buf number_of_records s =
      if ltb (length buf) (pmesh_header_size + dlms_header_size) then some (false, s) else (do
        r ← records_loop (suc (length buf)) buf (pmesh_header_size + dlms_header_size) s 0
        some (r.1 == number_of_records, r.0))

-- `records.profile_data[record_id] = value`
abbrev pub keep_record : DlmsRecordMap → ℕ → DlmsValueStruct → DlmsRecordMap
keep_record = insert

unfoldable pub parse_dlms_records : Bytes → ℕ → DlmsRecordMap → Option (Bool × DlmsRecordMap)
parse_dlms_records = parse_records keep_record

-- The two collections of a `PacketBufferBlockLoad`.
pub record BlockProfiles : Type 0 where
  pub profiles_data : List DlmsRecordMap
  pub partial_profile : DlmsRecordMap

-- Record 6 completes a block.
unfoldable pub keep_block_record : BlockProfiles → ℕ → DlmsValueStruct → BlockProfiles
keep_block_record s record_id value =
    let partial = insert s.partial_profile record_id value in
    if record_id == 6
    then record { profiles_data = s.profiles_data ++ partial ∷ []; partial_profile = [] }
    else record s { partial_profile = partial }

unfoldable pub parse_block_load_dlms_records :
    Bytes → ℕ → BlockProfiles → Option (Bool × BlockProfiles)
parse_block_load_dlms_records = parse_records keep_block_record
