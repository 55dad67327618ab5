-- ===== src/Ondemand/Profiles/Safety.antt =====
-- The profile parser of Ondemand.Profiles stays inside the receive buffer.
use atlascode.Prelude.{
  ℕ, zero, suc, ◌+◌, ◌*◌, ◌%◌, ◌≤◌, ◌<◌, ◌≡◌, refl, [], ◌∷◌, Option, some, Bytes, leb, take, Bool,
  true, false, if◌then◌else◌, ◌==◌, ◌||◌, get_elem?, drop, length, arith, length-drop,
  get_elem?_in_bounds, returned-bind, returned-if,
}
use atlascode.DataType
use atlascode.Hex.RoundTrip.{AreBytes}
use atlascode.Parser.{read_be}
use atlascode.Ondemand.Values.{
  DlmsValue, log_dlms_data_type, Clock, extract_dlms_value, field_bytes,
}
use atlascode.Ondemand.Profiles.{
  Field, ProfileData, keep_value, read_field, profile_loop, parse_profile,
}

drop-AreBytes : (n : ℕ) (bs : Bytes) → AreBytes bs → AreBytes (drop n bs)
drop-AreBytes zero bs h = h
drop-AreBytes (suc n) [] h = h
drop-AreBytes (suc n) (b ∷ bs) h = drop-AreBytes n bs h.1

-- A byte that is in bounds, with its bound.
read_byte :
    (bs : Bytes) (i : ℕ)
    → AreBytes bs
    → i < length bs
    → (b : ℕ) × (get_elem? bs i ≡ some b) × (b < 256)
read_byte [] i h k = absurd (omega arith)
read_byte (b ∷ bs) zero h k = (b, refl, h.0)
read_byte (b ∷ bs) (suc i) h k = read_byte bs i h.1 (omega arith)

read_be-returns :
    (n : ℕ) (bs : Bytes) (i acc : ℕ) → i + n ≤ length bs → (x : ℕ) × (read_be n bs i acc ≡ some x)
unfolding read_be
read_be-returns zero bs i acc h = (acc, refl)
read_be-returns (suc n) bs i acc h =
    returned-bind (get_elem? bs i) _ (get_elem?_in_bounds bs i (omega arith))
      (λ b. read_be-returns n bs (suc i) (acc * 256 + b) (omega arith))

field_bytes-returns :
    (bs : Bytes) (n : ℕ) → n ≤ length bs → (x : Bytes) × (field_bytes bs n ≡ some x)
unfolding field_bytes
field_bytes-returns bs n h =
    let e : leb n (length bs) ≡ true = ground arith in (take n bs, rw e refl)

-- The layout of a record: its data starts four bytes behind the record at most, and is a byte's worth
-- long at most.
record IsLayout (o : Option (ℕ × ℕ)) : Type 0 where
  layout : ℕ × ℕ
  found : o ≡ some layout
  near : layout.0 ≤ 4
  short : layout.1 < 256

IsLayout-if :
    (c : Bool) {x y : Option (ℕ × ℕ)} → IsLayout x → IsLayout y → IsLayout (if c then x else y)
IsLayout-if true h k = h
IsLayout-if false h k = k

fixed : (a b : ℕ) → a ≤ 4 → b < 256 → IsLayout (some (a, b))
fixed a b h k = record { layout = (a, b); found = refl; near = h; short = k }

log_dlms_data_type-IsLayout :
    (t : ℕ) (bs : Bytes) → AreBytes bs → 4 ≤ length bs → IsLayout (log_dlms_data_type t bs)
unfolding log_dlms_data_type
log_dlms_data_type-IsLayout t bs h k =
    let (n, e, b) = read_byte bs 3 h (omega arith) in
    IsLayout-if (t == DataType.array) (fixed 3 0 (omega arith) (omega arith)) (
      IsLayout-if (t == DataType.octet_string || t == DataType.string)
        (rw e (fixed 4 n (omega arith) b))
        (IsLayout-if
          (t == DataType.boolean || t == DataType.int8 || t == DataType.uint8 || t == DataType.enum)
          (fixed 3 1 (omega arith) (omega arith))
          (IsLayout-if (t == DataType.uint16 || t == DataType.int16)
            (fixed 3 2 (omega arith) (omega arith))
            (IsLayout-if (t == DataType.uint64 || t == DataType.int64)
              (fixed 3 8 (omega arith) (omega arith))
              (IsLayout-if (t == DataType.uint32 || t == DataType.int32 || t == DataType.datetime)
                (fixed 3 4 (omega arith) (omega arith)) (fixed 0 0 (omega arith) (omega arith)))))))

-- A field that is in memory becomes a value.
extract_dlms_value-returns :
    {Tm : Type 0} (clock : Clock Tm) (t : ℕ) (bs : Bytes) (n : ℕ)
    → n ≤ length bs
    → 8 ≤ length bs
    → (v : DlmsValue) × (extract_dlms_value clock t bs n ≡ some v)
unfolding extract_dlms_value
extract_dlms_value-returns clock t bs n h k =
    returned-if (t == DataType.boolean)
      (returned-bind (get_elem? bs 0) _ (get_elem?_in_bounds bs 0 (omega arith)) (λ x. (_, refl)))
      (returned-if (t == DataType.int8)
        (returned-bind (read_be 1 bs 0 0) _ (read_be-returns 1 bs 0 0 (omega arith))
          (λ x. (_, refl)))
        (returned-if (t == DataType.uint8)
          (returned-bind (read_be 1 bs 0 0) _ (read_be-returns 1 bs 0 0 (omega arith))
            (λ x. (_, refl)))
          (returned-if (t == DataType.int16)
            (returned-bind (read_be 2 bs 0 0) _ (read_be-returns 2 bs 0 0 (omega arith))
              (λ x. (_, refl)))
            (returned-if (t == DataType.uint16)
              (returned-bind (read_be 2 bs 0 0) _ (read_be-returns 2 bs 0 0 (omega arith))
                (λ x. (_, refl)))
              (returned-if (t == DataType.int32)
                (returned-bind (read_be 4 bs 0 0) _ (read_be-returns 4 bs 0 0 (omega arith))
                  (λ x. (_, refl)))
                (returned-if (t == DataType.uint32)
                  (returned-bind (read_be 4 bs 0 0) _ (read_be-returns 4 bs 0 0 (omega arith))
                    (λ x. (_, refl)))
                  (returned-if (t == DataType.datetime)
                    (returned-bind (read_be 4 bs 0 0) _ (read_be-returns 4 bs 0 0 (omega arith))
                      (λ x. (_, refl)))
                    (returned-if (t == DataType.float32)
                      (returned-bind (field_bytes bs 4) _ (field_bytes-returns bs 4 (omega arith))
                        (λ x. (_, refl)))
                      (returned-if (t == DataType.float64)
                        (returned-bind (field_bytes bs 8) _ (field_bytes-returns bs 8 (omega arith))
                          (λ x. (_, refl)))
                        (returned-if (t == DataType.string)
                          (returned-bind (field_bytes bs n) _ (field_bytes-returns bs n h)
                            (λ x. (_, refl)))
                          (returned-bind (field_bytes bs n) _ (field_bytes-returns bs n h)
                            (λ x. (_, refl)))))))))))))

module _ {Tm : Type 0} (clock : Clock Tm) where
  read_field-returns :
      (here : Bytes)
      → AreBytes here
      → 300 ≤ length here
      → (f : Field) × (read_field clock here ≡ some f)
  unfolding read_field
  read_field-returns here h k =
      returned-bind (get_elem? here 0) _ (get_elem?_in_bounds here 0 (omega arith)) (λ i.
        returned-bind (get_elem? here 1) _ (get_elem?_in_bounds here 1 (omega arith)) (λ s.
          returned-bind (get_elem? here 2) _ (get_elem?_in_bounds here 2 (omega arith)) (λ t.
            let l = log_dlms_data_type-IsLayout t here h (omega arith) in
            let a = l.near in
            let b = l.short in
            let left = length-drop l.layout.0 here in
            let (v, e) =
              extract_dlms_value-returns clock t (drop l.layout.0 here) l.layout.1 (omega arith)
                (omega arith) in
            rw (l.found, e) (_, refl))))

  profile_loop-returns :
      (n offset : ℕ) (data' : Bytes) (size : ℕ) (m : ProfileData)
      → AreBytes data'
      → 560 ≤ length data'
      → offset < 256
      → (m' : ProfileData) × (profile_loop clock n offset data' size m ≡ some m')
  unfolding profile_loop
  profile_loop-returns zero offset data' size m h k small = (m, refl)
  profile_loop-returns (suc n) offset data' size m h k small =
      let left = length-drop offset data' in
      returned-if (leb size offset) (m, refl)
        (returned-bind (read_field clock (drop offset data')) _
          (read_field-returns (drop offset data') (drop-AreBytes offset data' h) (omega arith))
          (λ f.
            profile_loop-returns n ((offset + f.size) % 256) data' size (keep_value m f) h k
              (omega arith)))

  -- The parser of a profile never reads behind a memory of 560 bytes from the start of the answer on,
  -- whatever bytes stand there, and whatever length and number of records the answer claims.
  pub parse_profile-returns :
      (data' : Bytes) (size : ℕ) (m : ProfileData)
      → AreBytes data'
      → 560 ≤ length data'
      → (m' : ProfileData) × (parse_profile clock data' size m ≡ some m')
  unfolding parse_profile
  parse_profile-returns data' size m h k =
      returned-bind (get_elem? data' 8) _ (get_elem?_in_bounds data' 8 (omega arith))
        (λ total_records. profile_loop-returns total_records 9 data' size m h k (omega arith))
