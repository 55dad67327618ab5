-- ===== src/Parser/Safety.antt =====
-- The parser of one value reads inside the packet only.
use atlascode.Prelude.{
  ℕ, zero, suc, ◌+◌, ◌*◌, ◌≤◌, ◌<◌, ◌≡◌, refl, Option, none, some, Bytes, arith, [], ◌∷◌,
  get_elem?_in_bounds, length, ltb, leb, Bool-cases, inl, inr,
}
use atlascode.DataType
use atlascode.Records.{DlmsValueStruct}
use atlascode.Parser.{
  Parsed, read_be, copy_octets, parse_word, parse_boolean, parse_octets, parse_switch,
  parse_by_type,
}

read_be_in_bounds :
    (n : ℕ) (buf : Bytes) (offset acc : ℕ)
    → offset + n ≤ length buf
    → (x : ℕ) × (read_be n buf offset acc ≡ some x)
unfolding read_be
read_be_in_bounds zero buf offset acc h = (acc, refl)
read_be_in_bounds (suc n) buf offset acc h =
    let (b, e) = get_elem?_in_bounds buf offset (omega arith) in
    let (x, f) = read_be_in_bounds n buf (suc offset) (acc * 256 + b) (omega arith) in
    (x, ground arith)

copy_octets_in_bounds :
    (n : ℕ) (buf : Bytes) (offset : ℕ)
    → offset + n ≤ length buf
    → (bs : Bytes) × (copy_octets n buf offset ≡ some bs)
unfolding copy_octets
copy_octets_in_bounds zero buf offset h = ([], refl)
copy_octets_in_bounds (suc n) buf offset h =
    let (b, e) = get_elem?_in_bounds buf offset (omega arith) in
    let (bs, f) = copy_octets_in_bounds n buf (suc offset) (omega arith) in (b ∷ bs, ground arith)

-- A result that is no fault, with an offset that has not moved back and, where the offset was inside
-- the packet, has not left it.
abbrev pub Safe : Bytes → ℕ → Option Parsed → Type 0
Safe buf offset none = ⊥
Safe buf offset (some r) = (offset ≤ r.offset) × (r.offset ≤ length buf)

module _ (buf : Bytes) (offset : ℕ) (v : DlmsValueStruct) (inside : offset < length buf) where
  parse_word-Safe : (n : ℕ) → Safe buf offset (parse_word n buf offset v)
  unfolding parse_word
  parse_word-Safe n = elim (Bool-cases (ltb (length buf) (offset + n))) [
    | inl e ↦ ground arith
    | inr e ↦ let (x, f) = read_be_in_bounds n buf offset 0 (ground arith) in ground arith
  ]

  parse_boolean-Safe : Safe buf offset (parse_boolean buf offset v)
  unfolding parse_boolean
  parse_boolean-Safe = let (b, e) = get_elem?_in_bounds buf offset inside in ground arith

  parse_octets-Safe : Safe buf offset (parse_octets buf offset v)
  unfolding parse_octets
  parse_octets-Safe =
      let (n, e) = get_elem?_in_bounds buf offset inside in
      elim (Bool-cases (ltb (length buf) (suc offset + n))) [
        | inl f ↦ ground arith
        | inr f ↦
            let (bs, g) = copy_octets_in_bounds n buf (suc offset) (ground arith) in ground arith
      ]

  parse_switch-Safe : (t : ℕ) → Safe buf offset (parse_switch buf offset t v)
  unfolding parse_switch
  parse_switch-Safe t = ground (
    arith,
    parse_boolean-Safe,
    parse_octets-Safe,
    parse_word-Safe 1,
    parse_word-Safe 2,
    parse_word-Safe 4,
    parse_word-Safe 8,
  )

-- From every offset up to the packet's length, and for every type, the parser of a value never reads
-- outside the packet, and it goes forward and stays inside, whether it succeeds or not.
pub parse_by_type-Safe :
    (buf : Bytes) (offset t : ℕ) (v : DlmsValueStruct)
    → offset ≤ length buf
    → Safe buf offset (parse_by_type buf offset t v)
unfolding parse_by_type
parse_by_type-Safe buf offset t v h = elim (Bool-cases (leb (length buf) offset)) [
  | inl e ↦ rw (e, parse_by_type) (omega arith)
  | inr e ↦
      rw (e, parse_by_type)
        (parse_switch-Safe buf offset (record v { type = t; type_name = DataType.type_name t })
          (ground arith) t)
]
