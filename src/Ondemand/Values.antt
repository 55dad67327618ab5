-- ===== src/Ondemand/Values.antt =====
-- `DLMSValue` of HES/inc/client.h, and how `Client`, HES/src/client.cpp, reads one from a record of an
-- answer: `log_dlms_data_type`, `extract_dlms_value` and `format_timestamp`.
use atlascode.Prelude.{
  ℕ, ◌+◌, ◌-◌, ◌*◌, ◌%◌, ◌^◌, Bool, not, ◌||◌, [], ◌∷◌, Option, none, some, Bytes, leb, ◌==◌,
  if◌then◌else◌, ◌>>=◌, get_elem?, length, take, codes,
}
use atlascode.Prelude.Signed.{ℤ, signed}
use atlascode.DataType
use atlascode.Parser.{read_be}

-- A value under the name of its setter, which also sets its type: the union and the byte string are
-- read by that type only. A float is its bits.
pub data DlmsValue : Type 0 where
  bool_value : Bool → DlmsValue
  int8_value int16_value int32_value : ℤ → DlmsValue
  uint8_value uint16_value uint32_value : ℕ → DlmsValue
  float32_value float64_value : ℕ → DlmsValue
  octet_string_value string_value : Bytes → DlmsValue

-- `data_offset` and `field_length` of a record that starts at `data`; both stay 0 where the function
-- sets neither. Its answer for an unknown type is not looked at.
unfoldable pub log_dlms_data_type : ℕ → Bytes → Option (ℕ × ℕ)
log_dlms_data_type t data' =
    if t == DataType.array
    then some (3, 0)
    else if t == DataType.octet_string || t == DataType.string
    then (do n ← get_elem? data' 3; some (4, n))
    else if t == DataType.boolean || t == DataType.int8 || t == DataType.uint8 || t == DataType.enum
    then some (3, 1)
    else if t == DataType.uint16 || t == DataType.int16
    then some (3, 2)
    else if t == DataType.uint64 || t == DataType.int64
    then some (3, 8)
    else if t == DataType.uint32 || t == DataType.int32 || t == DataType.datetime
    then some (3, 4)
    else some (0, 0)

-- The bytes of a field: `none` where the memory ends before.
unfoldable pub field_bytes : Bytes → ℕ → Option Bytes
field_bytes data' n = if leb n (length data') then some (take n data') else none

-- A `float` and a `double` are copied byte by byte, the lowest first.
unfoldable pub read_le : Bytes → ℕ
read_le [] = 0
read_le (b ∷ bs) = b + 256 * read_le bs

-- The C library: the broken-down local time, and its text of the form "%Y-%m-%d %H:%M:%S", which is
-- empty where the call fails.
pub record Clock (Tm : Type 0) : Type 0 where
  pub localtime : ℕ → Option Tm
  pub strftime : Tm → Bytes

module _ {Tm : Type 0} (clock : Clock Tm) where
  unfoldable pub format_timestamp : ℕ → Bytes
  format_timestamp hex_timestamp = elim (clock.localtime hex_timestamp) [
    | none ↦ codes "1970-01-01 00:00:00"
    | some timeinfo ↦ elim (clock.strftime timeinfo) [
      | [] ↦ codes "Format failed"
      | c ∷ cs ↦ c ∷ cs
    ]
  ]

  -- The moment is shifted by five hours and a half, as a `uint32_t`.
  unfoldable pub shifted_moment : ℕ → DlmsValue
  unfolding format_timestamp
  shifted_moment raw_ts = string_value (format_timestamp ((raw_ts + (2 ^ 32 - 19800)) % 2 ^ 32))

  unfoldable pub extract_dlms_value : ℕ → Bytes → ℕ → Option DlmsValue
  unfolding read_be read_le field_bytes shifted_moment signed
  extract_dlms_value t data' n =
      if t == DataType.boolean
      then (do b ← get_elem? data' 0; some (bool_value (not (b == 0))))
      else if t == DataType.int8
      then (do x ← read_be 1 data' 0 0; some (int8_value (signed (2 ^ 7) x)))
      else if t == DataType.uint8
      then (do x ← read_be 1 data' 0 0; some (uint8_value x))
      else if t == DataType.int16
      then (do x ← read_be 2 data' 0 0; some (int16_value (signed (2 ^ 15) x)))
      else if t == DataType.uint16
      then (do x ← read_be 2 data' 0 0; some (uint16_value x))
      else if t == DataType.int32
      then (do x ← read_be 4 data' 0 0; some (int32_value (signed (2 ^ 31) x)))
      else if t == DataType.uint32
      then (do x ← read_be 4 data' 0 0; some (uint32_value x))
      else if t == DataType.datetime
      then (do x ← read_be 4 data' 0 0; some (shifted_moment x))
      else if t == DataType.float32
      then (do bs ← field_bytes data' 4; some (float32_value (read_le bs)))
      else if t == DataType.float64
      then (do bs ← field_bytes data' 8; some (float64_value (read_le bs)))
      else if t == DataType.string
      then (do bs ← field_bytes data' n; some (string_value bs))
      else (do bs ← field_bytes data' n; some (octet_string_value bs))
