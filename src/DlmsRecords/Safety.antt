-- ===== src/DlmsRecords/Safety.antt =====
-- The record loop ends, and never reads outside the packet.
use atlascode.Prelude.{
  ℕ, zero, suc, ◌+◌, ◌-◌, ◌≤◌, ◌<◌, ◌≡◌, refl, Bool, false, Option, none, some, Bytes, arith, ltb,
  leb, ◌==◌, not, ◌||◌, if◌then◌else◌, get_elem?, get_elem?_in_bounds, length, Bool-cases, inl, inr,
}
use atlascode.Records.{DlmsValueStruct, fresh}
use atlascode.Parser.{Parsed, parse_by_type}
use atlascode.Parser.Safety.{Safe, parse_by_type-Safe}
use atlascode.DlmsRecords.{next_record, records_loop, parse_records}

-- The parser's result where it starts inside the packet.
parse_by_type_runs :
    (buf : Bytes) (offset t : ℕ)
    → offset ≤ length buf
    → (r : Parsed) × (parse_by_type buf offset t fresh ≡ some r)
      × (offset ≤ r.offset)
      × (r.offset ≤ length buf)
parse_by_type_runs buf offset t h =
    go (parse_by_type buf offset t fresh) (parse_by_type-Safe buf offset t fresh h)
  where
    go :
        (o : Option Parsed)
        → Safe buf offset o
        → (r : Parsed) × (o ≡ some r) × (offset ≤ r.offset) × (r.offset ≤ length buf)
    go none s = absurd s
    go (some r) s = (r, refl, s.0, s.1)

-- A round that reads a record moves on by three bytes at least, and stays inside the packet.
abbrev pub Advances : Bytes → ℕ → Option (ℕ × Parsed) → Type 0
Advances buf offset none = Unit {0}
Advances buf offset (some (record_id, r)) = (offset + 3 ≤ r.offset) × (r.offset ≤ length buf)

module _ (buf : Bytes) (offset : ℕ) (inside : offset < length buf - 1)
    (room : offset + 3 ≤ length buf) where
  next_record_step :
      (a b c : ℕ) (r : Parsed)
      → get_elem? buf offset ≡ some a
      → get_elem? buf (offset + 1) ≡ some b
      → get_elem? buf (offset + 2) ≡ some c
      → parse_by_type buf (offset + 3) c fresh ≡ some r
      → next_record buf offset
        ≡ some (if not (b == 0) then none else if not r.success then none else some (a, r))
  unfolding next_record
  next_record_step a b c r ea eb ec er = ground arith

  next_record_inside :
      (o : Option (ℕ × Parsed)) × (next_record buf offset ≡ some o) × Advances buf offset o
  next_record_inside =
      let (a, ea) = get_elem?_in_bounds buf offset (omega arith) in
      let (b, eb) = get_elem?_in_bounds buf (offset + 1) (omega arith) in
      let (c, ec) = get_elem?_in_bounds buf (offset + 2) (omega arith) in
      let (r, er, low, high) = parse_by_type_runs buf (offset + 3) c room in
      (_, next_record_step a b c r ea eb ec er, step_Advances a b r low high)
    where
      step_Advances :
          (a b : ℕ) (r : Parsed)
          → offset + 3 ≤ r.offset
          → r.offset ≤ length buf
          → Advances buf offset
              (if not (b == 0) then none else if not r.success then none else some (a, r))
      step_Advances a b r low high = ground arith

next_record_runs :
    (buf : Bytes) (offset : ℕ)
    → (o : Option (ℕ × Parsed)) × (next_record buf offset ≡ some o) × Advances buf offset o
unfolding next_record
next_record_runs buf offset =
    elim (Bool-cases (leb (length buf - 1) offset || ltb (length buf) (offset + 3))) [
      | inl e ↦ (none, rw e refl, tt)
      | inr e ↦ next_record_inside buf offset (ground arith) (ground arith)
    ]

module _ {ℓ} {S : Type ℓ} (keep : S → ℕ → DlmsValueStruct → S) where
  records_loop_total :
      (fuel : ℕ) (buf : Bytes) (offset : ℕ) (s : S) (received : ℕ)
      → length buf < offset + fuel
      → offset ≤ length buf
      → (r : S × ℕ) × (records_loop keep fuel buf offset s received ≡ some r)
  unfolding records_loop
  records_loop_total zero buf offset s received h k = absurd (omega arith)
  records_loop_total (suc fuel) buf offset s received h k =
      let (o, e, moved) = next_record_runs buf offset in
      go o e moved λ record_id r low high.
        records_loop_total fuel buf r.offset (keep s record_id r.value) (received + 1) (omega arith)
          high
    where
      go :
          (o : Option (ℕ × Parsed))
          → next_record buf offset ≡ some o
          → Advances buf offset o
          → ((record_id : ℕ) (r : Parsed)
              → offset + 3 ≤ r.offset
              → r.offset ≤ length buf
              → (out : S × ℕ) × (records_loop keep fuel buf r.offset
                    (keep s record_id r.value)
                    (received + 1)
                  ≡ some out))
          → (out : S × ℕ) × (records_loop keep (suc fuel) buf offset s received ≡ some out)
      go none e m again = ((s, received), rw e refl)
      go (some (record_id, r)) e m again = let (out, f) = again record_id r m.0 m.1 in (out, rw e f)

  -- On every packet and every announced count the record parser ends with a verdict: it does not read
  -- outside the packet, and the fuel of one round for each byte is enough.
  pub parse_records_total :
      (buf : Bytes) (n : ℕ) (s : S) → (r : Bool × S) × (parse_records keep buf n s ≡ some r)
  unfolding parse_records
  parse_records_total buf n s = elim (Bool-cases (ltb (length buf) 26)) [
    | inl e ↦ ((false, s), rw (e, parse_records) refl)
    | inr e ↦
        let (r, er) =
          records_loop_total (suc (length buf)) buf 26 s 0 (omega arith) (ground arith) in
        ((r.1 == n, r.0), rw (e, er, parse_records) refl)
  ]
