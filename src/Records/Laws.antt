-- ===== src/Records/Laws.antt =====
-- The readers of a record map agree with one another.
use atlascode.Prelude.{
  ℕ, Bool, true, not, ◌≡◌, refl, none, some, arith, ◌==◌, if◌then◌else◌, find, number_key,
  Option-cases, inl, inr,
}
use atlascode.DataType
use atlascode.Records.{
  DlmsValueStruct, DlmsRecordMap, Double, numeric, get_numeric, get_numeric_or_default, get_bool,
  apply_value, apply_to_numeric, bool_member,
}

module _ {D : Type 0} (double : Double D) where
  open double use {
    cast, zero_double, one_double, is_zero, cast-zero, cast-one, is_zero-zero, is_zero-one,
  }

  apply_value-numeric :
      (val : DlmsValueStruct)
      → apply_value cast val ≡ elim (numeric double val) [ none ↦ zero_double | some x ↦ x ]
  unfolding apply_value numeric
  apply_value-numeric val = ground (arith, cast-zero, cast-one)

  -- Applying the conversion to `double` to the stored value is reading the number with default 0:
  -- the two switches treat every type alike, also a missing tag.
  pub apply_to_numeric-get_numeric :
      (records : DlmsRecordMap) (tag : ℕ)
      → apply_to_numeric cast records tag ≡ get_numeric_or_default double records tag zero_double
  unfolding apply_to_numeric get_numeric_or_default get_numeric
  apply_to_numeric-get_numeric records tag = elim (Option-cases (find records tag)) [
    | inl e ↦ rw (e, apply_to_numeric, get_numeric, get_numeric_or_default) cast-zero
    | inr (val, e) ↦
        rw (e, apply_to_numeric, get_numeric, get_numeric_or_default) (apply_value-numeric val)
  ]

  numeric-boolean :
      (val : DlmsValueStruct)
      → (val.type == DataType.boolean) ≡ true
      → numeric double val ≡ some (if bool_member val then one_double else zero_double)
  unfolding numeric
  numeric-boolean val h = ground arith

  get_numeric_missing :
      (records : DlmsRecordMap) (tag : ℕ)
      → find records tag ≡ none
      → get_numeric double records tag ≡ none
  unfolding get_numeric
  get_numeric_missing records tag e = rw (e, get_numeric) refl

  get_numeric_found :
      (records : DlmsRecordMap) (tag : ℕ) (val : DlmsValueStruct)
      → find records tag ≡ some val
      → get_numeric double records tag ≡ numeric double val
  unfolding get_numeric
  get_numeric_found records tag val e = rw (e, get_numeric) refl

  flag_lem :
      (val : DlmsValueStruct) (default : Bool)
      → (if val.type == DataType.boolean
          then bool_member val
          else elim (numeric double val) [ none ↦ default | some x ↦ not (is_zero x) ])
        ≡ elim (numeric double val) [ none ↦ default | some x ↦ not (is_zero x) ]
  flag_lem val default = ground (arith, numeric-boolean val, is_zero-one, is_zero-zero)

  -- The flag read of a record is whether its number is not 0, and the default without a number.
  pub get_bool-get_numeric :
      (records : DlmsRecordMap) (tag : ℕ) (default : Bool)
      → get_bool double records tag default
        ≡ elim (get_numeric double records tag) [ none ↦ default | some x ↦ not (is_zero x) ]
  unfolding get_bool
  get_bool-get_numeric records tag default = elim (Option-cases (find records tag)) [
    | inl e ↦ rw (e, get_bool, get_numeric) refl
    | inr (val, e) ↦ rw (e, get_bool, get_numeric_found records tag val e) (flag_lem val default)
  ]
