-- ===== src/Records.antt =====
-- `DLMSValueStruct`, `DlmsRecordMap` and `DlmsValueExtractor` of HES/inc/helper.h. The union is its
-- eight bytes read as one little-endian number, `bits`: a member of w bits is the low w bits of it.
-- A `double` is a parameter, as this language has none: `cast` is `static_cast<double>`.
pub mod Laws
use atlascode.Prelude.{
  ℕ, ◌-◌, ◌%◌, ◌^◌, Bool, true, false, not, ◌||◌, List, [], Option, none, some, Bytes, ◌==◌,
  if◌then◌else◌, number_key, find, ◌≡◌,
}
use atlascode.Prelude.Signed.{ℤ, pos, negsuc, signed}
use atlascode.DataType
use Prim.Native.String.{String}

pub record DlmsValueStruct : Type 0 where
  pub type : ℕ
  pub type_name : String
  pub bits : ℕ
  pub octet_string : Bytes

-- The constructor.
abbrev pub fresh : DlmsValueStruct
fresh = record { type = DataType.none; type_name = "NONE"; bits = 0; octet_string = [] }

abbrev pub DlmsRecordMap : Type 0
DlmsRecordMap = List (ℕ × DlmsValueStruct)

-- An unsigned and a signed member of the union.
abbrev pub unsigned_member : ℕ → DlmsValueStruct → ℕ
unsigned_member w v = v.bits % 2 ^ w

abbrev pub signed_member : ℕ → DlmsValueStruct → ℤ
signed_member w v = signed (2 ^ (w - 1)) (v.bits % 2 ^ w)

abbrev pub bool_member : DlmsValueStruct → Bool
bool_member v = not (v.bits % 256 == 0)

-- An arithmetic value before it is converted: an integer, or the bits of a float or a double.
pub data Number : Type 0 where
  integer : ℤ → Number
  float32 : ℕ → Number
  float64 : ℕ → Number

-- What the code uses of `double`.
pub record Double (D : Type 0) : Type 0 where
  pub cast : Number → D
  pub zero_double : D
  pub one_double : D
  pub is_zero : D → Bool
  pub cast-zero : cast (integer (pos 0)) ≡ zero_double
  pub cast-one : cast (integer (pos 1)) ≡ one_double
  pub is_zero-zero : is_zero zero_double ≡ true
  pub is_zero-one : is_zero one_double ≡ false

module _ {D : Type 0} (double : Double D) where
  open double use {cast, zero_double, one_double, is_zero}

  -- The switch of `get_numeric`.
  unfoldable pub numeric : DlmsValueStruct → Option D
  unfolding signed
  numeric val =
      let t = val.type in
      if t == DataType.array
      then none
      else if t == DataType.boolean
      then some (if bool_member val then one_double else zero_double)
      else if t == DataType.int8 || t == DataType.delta_int8
      then some (cast (integer (signed_member 8 val)))
      else if t == DataType.uint8 || t == DataType.delta_uint8 || t == DataType.enum
      then some (cast (integer (pos (unsigned_member 8 val))))
      else if t == DataType.int16 || t == DataType.delta_int16
      then some (cast (integer (signed_member 16 val)))
      else if t == DataType.uint16 || t == DataType.delta_uint16
      then some (cast (integer (pos (unsigned_member 16 val))))
      else if t == DataType.int32 || t == DataType.delta_int32
      then some (cast (integer (signed_member 32 val)))
      else if t == DataType.uint32 || t == DataType.delta_uint32 || t == DataType.datetime
      then some (cast (integer (pos (unsigned_member 32 val))))
      else if t == DataType.int64
      then some (cast (integer (signed_member 64 val)))
      else if t == DataType.uint64
      then some (cast (integer (pos (unsigned_member 64 val))))
      else if t == DataType.float32
      then some (cast (float32 (unsigned_member 32 val)))
      else if t == DataType.float64
      then some (cast (float64 (unsigned_member 64 val)))
      else none

  unfoldable pub get_numeric : DlmsRecordMap → ℕ → Option D
  get_numeric records tag = elim (find records tag) [ none ↦ none | some val ↦ numeric val ]

  unfoldable pub get_numeric_or_default : DlmsRecordMap → ℕ → D → D
  unfolding get_numeric
  get_numeric_or_default records tag default = elim (get_numeric records tag) [
    | none ↦ default
    | some x ↦ x
  ]

  unfoldable pub get_bool : DlmsRecordMap → ℕ → Bool → Bool
  unfolding get_numeric
  get_bool records tag default = elim (find records tag) [
    | none ↦ default
    | some val ↦
        if val.type == DataType.boolean
        then bool_member val
        else elim (get_numeric records tag) [ none ↦ default | some x ↦ not (is_zero x) ]
  ]

module _ {ℓ} {B : Type ℓ} (func : Number → B) where
  -- The switch of `apply_to_numeric`.
  unfoldable pub apply_value : DlmsValueStruct → B
  unfolding signed
  apply_value val =
      let t = val.type in
      if t == DataType.array
      then func (integer (pos 0))
      else if t == DataType.boolean
      then func (integer (pos (if bool_member val then 1 else 0)))
      else if t == DataType.int8 || t == DataType.delta_int8
      then func (integer (signed_member 8 val))
      else if t == DataType.uint8 || t == DataType.delta_uint8 || t == DataType.enum
      then func (integer (pos (unsigned_member 8 val)))
      else if t == DataType.int16 || t == DataType.delta_int16
      then func (integer (signed_member 16 val))
      else if t == DataType.uint16 || t == DataType.delta_uint16
      then func (integer (pos (unsigned_member 16 val)))
      else if t == DataType.int32 || t == DataType.delta_int32
      then func (integer (signed_member 32 val))
      else if t == DataType.uint32 || t == DataType.delta_uint32 || t == DataType.datetime
      then func (integer (pos (unsigned_member 32 val)))
      else if t == DataType.int64
      then func (integer (signed_member 64 val))
      else if t == DataType.uint64
      then func (integer (pos (unsigned_member 64 val)))
      else if t == DataType.float32
      then func (float32 (unsigned_member 32 val))
      else if t == DataType.float64
      then func (float64 (unsigned_member 64 val))
      else func (integer (pos 0))

  unfoldable pub apply_to_numeric : DlmsRecordMap → ℕ → B
  unfolding apply_value
  apply_to_numeric records tag = elim (find records tag) [
    | none ↦ func (integer (pos 0))
    | some val ↦ apply_value val
  ]

unfoldable pub get_octet_string : DlmsRecordMap → ℕ → Bytes
get_octet_string records tag = elim (find records tag) [
  | none ↦ []
  | some val ↦
      if val.type == DataType.octet_string
        || val.type == DataType.bit_string
        || val.type == DataType.string
        || val.type == DataType.string_utf8
      then val.octet_string
      else []
]

unfoldable pub get_value : DlmsRecordMap → ℕ → Option DlmsValueStruct
get_value records tag = find records tag

unfoldable pub has_tag : DlmsRecordMap → ℕ → Bool
has_tag records tag = elim (find records tag) [ none ↦ false | some _ ↦ true ]

unfoldable pub get_type_name : DlmsRecordMap → ℕ → String
get_type_name records tag = elim (find records tag) [
  | none ↦ "NOT_FOUND"
  | some val ↦ val.type_name
]
