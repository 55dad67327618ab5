-- ===== src/Parser/Encoding.antt =====
-- What a DLMS value looks like in a packet, independently of the parser: the payload of each type
-- that `DLMSParser::parseByType` of HES/inc/push.h reads.
use atlascode.Prelude.{
  ℕ, zero, suc, ◌/◌, ◌%◌, ◌^◌, ◌<◌, Bool, true, false, [], ◌∷◌, ◌++◌, Bytes, length,
}
use atlascode.DataType
use atlascode.Records.{DlmsValueStruct, fresh}

-- The types of numbers and of byte strings.
pub data WordType : Type 0 where
  int8 uint8 int16 uint16 int32 uint32 datetime int64 uint64 : WordType

pub data StringType : Type 0 where
  bit_string octet_string string string_utf8 : StringType

-- Of a number its bit pattern is kept.
pub data Payload : Type 0 where
  array : Payload
  boolean : Bool → Payload
  word : WordType → ℕ → Payload
  octets : StringType → Bytes → Payload

abbrev pub width : WordType → ℕ
width int8 = 1
width uint8 = 1
width int16 = 2
width uint16 = 2
width int32 = 4
width uint32 = 4
width datetime = 4
width int64 = 8
width uint64 = 8

abbrev pub word_code : WordType → ℕ
word_code int8 = DataType.int8
word_code uint8 = DataType.uint8
word_code int16 = DataType.int16
word_code uint16 = DataType.uint16
word_code int32 = DataType.int32
word_code uint32 = DataType.uint32
word_code datetime = DataType.datetime
word_code int64 = DataType.int64
word_code uint64 = DataType.uint64

abbrev pub string_code : StringType → ℕ
string_code bit_string = DataType.bit_string
string_code octet_string = DataType.octet_string
string_code string = DataType.string
string_code string_utf8 = DataType.string_utf8

abbrev pub payload_code : Payload → ℕ
payload_code array = DataType.array
payload_code (boolean b) = DataType.boolean
payload_code (word t x) = word_code t
payload_code (octets t bs) = string_code t

-- n bytes, the most significant first.
unfoldable pub encode_be : ℕ → ℕ → Bytes
encode_be zero x = []
encode_be (suc n) x = encode_be n (x / 256) ++ (x % 256) ∷ []

abbrev pub bit : Bool → ℕ
bit true = 1
bit false = 0

unfoldable pub encode_payload : Payload → Bytes
unfolding encode_be
encode_payload array = []
encode_payload (boolean b) = bit b ∷ []
encode_payload (word t x) = encode_be (width t) x
encode_payload (octets t bs) = length bs ∷ bs

-- The number fits its width, and the byte string its length byte.
abbrev pub Fits : Payload → Type 0
Fits array = Unit {0}
Fits (boolean b) = Unit {0}
Fits (word t x) = x < 256 ^ width t
Fits (octets t bs) = length bs < 256

-- The value that stands for a payload.
abbrev pub typed : ℕ → DlmsValueStruct
typed t = record fresh { type = t; type_name = DataType.type_name t }

abbrev pub payload_value : Payload → DlmsValueStruct
payload_value array = typed DataType.array
payload_value (boolean b) = record (typed DataType.boolean) { bits = bit b }
payload_value (word t x) = record (typed (word_code t)) { bits = x }
payload_value (octets t bs) = record (typed (string_code t)) { octet_string = bs }
