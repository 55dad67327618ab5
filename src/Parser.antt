-- ===== src/Parser.antt =====
-- `DLMSParser::parseByType` of HES/inc/push.h. A read of `data` is checked here: `none` stands for a
-- read out of bounds, which the source does not detect.
pub mod Safety
pub mod Encoding
pub mod RoundTrip
use atlascode.Prelude.{
  ℕ, zero, suc, ◌+◌, ◌*◌, ◌/◌, ◌^◌, Bool, true, false, ◌||◌, List, [], ◌∷◌, Option, none, some,
  Bytes, ltb, leb, ◌==◌, if◌then◌else◌, ◌>>=◌, get_elem?, length,
}
use atlascode.DataType
use atlascode.Records.{DlmsValueStruct}

-- The returned `bool` and the two arguments passed by reference.
pub record Parsed : Type 0 where
  pub success : Bool
  pub offset : ℕ
  pub value : DlmsValueStruct

-- The byte at `offset`, and those behind it, shifted together with the most significant byte first.
unfoldable pub read_be : ℕ → Bytes → ℕ → ℕ → Option ℕ
read_be zero buf offset acc = some acc
read_be (suc n) buf offset acc = do
  b ← get_elem? buf offset
  read_be n buf (suc offset) (acc * 256 + b)

-- The loop that fills `octetString`.
unfoldable pub copy_octets : ℕ → Bytes → ℕ → Option Bytes
copy_octets zero buf offset = some []
copy_octets (suc n) buf offset = do
  b ← get_elem? buf offset
  bs ← copy_octets n buf (suc offset)
  some (b ∷ bs)

-- A member of w bits of the union is written; the other bytes of the union stay.
abbrev pub store : ℕ → ℕ → DlmsValueStruct → DlmsValueStruct
store w x v = record v { bits = v.bits / 2 ^ w * 2 ^ w + x }

abbrev failed : ℕ → DlmsValueStruct → Option Parsed
failed offset v = some (record { success = false; offset = offset; value = v })

abbrev done : ℕ → DlmsValueStruct → Option Parsed
done offset v = some (record { success = true; offset = offset; value = v })

-- A case that reads a number of n bytes.
unfoldable pub parse_word : ℕ → Bytes → ℕ → DlmsValueStruct → Option Parsed
unfolding read_be
parse_word n buf offset v =
    if ltb (length buf) (offset + n)
    then failed offset v
    else (do x ← read_be n buf offset 0; done (offset + n) (store (8 * n) x v))

unfoldable pub parse_boolean : Bytes → ℕ → DlmsValueStruct → Option Parsed
parse_boolean buf offset v =
    if ltb (length buf) (offset + 1)
    then failed offset v
    else (do b ← get_elem? buf offset; done (offset + 1) (store 8 (if b == 0 then 0 else 1) v))

unfoldable pub parse_octets : Bytes → ℕ → DlmsValueStruct → Option Parsed
unfolding copy_octets
parse_octets buf offset v = if ltb (length buf) (offset + 1) then failed offset v else (do
  n ← get_elem? buf offset
  if ltb (length buf) (suc offset + n) then failed (suc offset) v else (do
    bs ← copy_octets n buf (suc offset)
    done (suc offset + n) (record v { octet_string = bs })))

-- The switch.
unfoldable pub parse_switch : Bytes → ℕ → ℕ → DlmsValueStruct → Option Parsed
parse_switch buf offset t v =
    if t == DataType.array
    then done offset v
    else if t == DataType.boolean
    then parse_boolean buf offset v
    else if t == DataType.int32
    then parse_word 4 buf offset v
    else if t == DataType.uint32 || t == DataType.datetime
    then parse_word 4 buf offset v
    else if t == DataType.bit_string
        || t == DataType.octet_string
        || t == DataType.string
        || t == DataType.string_utf8
    then parse_octets buf offset v
    else if t == DataType.int8
    then parse_word 1 buf offset v
    else if t == DataType.int16
    then parse_word 2 buf offset v
    else if t == DataType.uint8
    then parse_word 1 buf offset v
    else if t == DataType.uint16
    then parse_word 2 buf offset v
    else if t == DataType.int64
    then parse_word 8 buf offset v
    else if t == DataType.uint64
    then parse_word 8 buf offset v
    else failed offset v

unfoldable pub parse_by_type : Bytes → ℕ → ℕ → DlmsValueStruct → Option Parsed
parse_by_type buf offset t v =
    if leb (length buf) offset
    then failed offset v
    else parse_switch buf offset t (record v { type = t; type_name = DataType.type_name t })
