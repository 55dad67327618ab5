-- ===== src/DlmsRecords/RoundTrip.antt =====
-- The record loop on a packet that encodes a list of records.
use mathlib.Core.List.{append_assoc}
use atlascode.Prelude.{
  ◌∙◌, drop-append, drop_all, ℕ, zero, suc, ◌+◌, ◌-◌, ◌<◌, ◌≡◌, ◌≢◌, refl, ap, sym, true, false,
  List, [], ◌∷◌, ◌++◌, none, some, Bytes, arith, ltb, leb, ◌==◌, length, drop, length-append,
  length-drop, get_elem?-drop, drop-skip,
}
use atlascode.Records.{DlmsValueStruct}
use atlascode.Parser.Encoding.{Payload, payload_code, payload_value, encode_payload, Fits}
use atlascode.Parser.RoundTrip.{parse_by_type-encode}
use atlascode.DlmsRecords.{next_record, records_loop, parse_records}

-- A record of a packet: its id and its payload.
pub record Entry : Type 0 where
  pub record_id : ℕ
  pub payload : Payload

abbrev pub encode_entry : Entry → Bytes
encode_entry e = e.record_id ∷ 0 ∷ payload_code e.payload ∷ encode_payload e.payload

abbrev pub encode_entries : List Entry → Bytes
encode_entries [] = []
encode_entries (e ∷ es) = encode_entry e ++ encode_entries es

abbrev pub AllFit : List Entry → Type 0
AllFit [] = Unit {0}
AllFit (e ∷ es) = Fits e.payload × AllFit es

module _ {ℓ} {S : Type ℓ} (keep : S → ℕ → DlmsValueStruct → S) where
  -- What the records of a packet make of a collection, one after another.
  abbrev pub keep_all : S → List Entry → S
  keep_all s [] = s
  keep_all s (e ∷ es) = keep_all (keep s e.record_id (payload_value e.payload)) es

pos_of_ne_nil : (s : Bytes) → s ≢ [] → 0 < length s
pos_of_ne_nil [] h = absurd (h refl)
pos_of_ne_nil (c ∷ s) h = omega arith

module _ (buf : Bytes) (offset : ℕ) (e : Entry) (rest : Bytes) (more : rest ≢ [])
    (h : drop offset buf ≡ encode_entry e ++ rest) where
  length-buf : offset + 3 + length (encode_payload e.payload) + length rest ≡ length buf
  length-buf =
      omega
        (arith, length-drop offset buf, ap length h, length-append (encode_payload e.payload) rest)

  next_record-encode :
      Fits e.payload
      → next_record buf offset
        ≡ some (
            some (
              e.record_id,
              record {
                success = true;
                offset = offset + 3 + length (encode_payload e.payload);
                value = payload_value e.payload;
              },
            ))
  unfolding next_record
  next_record-encode fits =
      let tail : Bytes = encode_payload e.payload ++ rest in
      let w1 : drop (offset + 1) buf ≡ 0 ∷ payload_code e.payload ∷ tail =
        drop-skip (e.record_id ∷ []) offset buf _ h in
      let w2 : drop (offset + 2) buf ≡ payload_code e.payload ∷ tail =
        drop-skip (e.record_id ∷ 0 ∷ []) offset buf _ h in
      let w3 : drop (offset + 3) buf ≡ tail =
        drop-skip (e.record_id ∷ 0 ∷ payload_code e.payload ∷ []) offset buf _ h in
      let some_rest : 0 < length rest = pos_of_ne_nil rest more in
      let before_end : leb (length buf - 1) offset ≡ false = ground (arith, length-buf) in
      let room : ltb (length buf) (offset + 3) ≡ false = ground (arith, length-buf) in
      rw
        (
          before_end,
          room,
          get_elem?-drop offset buf _ _ h,
          get_elem?-drop (offset + 1) buf _ _ w1,
          get_elem?-drop (offset + 2) buf _ _ w2,
          parse_by_type-encode buf (offset + 3) rest (omega (arith, length-buf)) e.payload fits w3,
        )
        refl

  after_entry : drop (offset + 3 + length (encode_payload e.payload)) buf ≡ rest
  after_entry =
      let w3 : drop (offset + 3) buf ≡ encode_payload e.payload ++ rest =
        drop-skip (e.record_id ∷ 0 ∷ payload_code e.payload ∷ []) offset buf _ h in
      drop-skip (encode_payload e.payload) (offset + 3) buf rest w3

next_record_end :
    (buf : Bytes) (offset last : ℕ)
    → drop offset buf ≡ last ∷ []
    → next_record buf offset ≡ some none
unfolding next_record
next_record_end buf offset last h =
    let at_end : leb (length buf - 1) offset ≡ true =
      ground (arith, length-drop offset buf, ap length h) in
    rw at_end refl

append-ne-nil : (bs : Bytes) (last : ℕ) → bs ++ last ∷ [] ≢ []
append-ne-nil [] last h = ground arith
append-ne-nil (b ∷ bs) last h = ground arith

module _ {ℓ} {S : Type ℓ} (keep : S → ℕ → DlmsValueStruct → S) where
  records_loop-encode :
      (es : List Entry) (fuel : ℕ) (buf : Bytes) (offset : ℕ) (s : S) (received last : ℕ)
      → AllFit es
      → length buf < offset + fuel
      → drop offset buf ≡ encode_entries es ++ last ∷ []
      → records_loop keep fuel buf offset s received
        ≡ some (keep_all keep s es, received + length es)
  unfolding records_loop
  records_loop-encode es zero buf offset s received last fits f h =
      absurd (append-ne-nil (encode_entries es) last (sym h ∙ drop_all offset buf (omega arith)))
  records_loop-encode [] (suc fuel) buf offset s received last fits f h =
      rw (next_record_end buf offset last h) (ground arith)
  records_loop-encode (e ∷ es) (suc fuel) buf offset s received last fits f h =
      let rest : Bytes = encode_entries es ++ last ∷ [] in
      let h' : drop offset buf ≡ encode_entry e ++ rest =
        h ∙ append_assoc (encode_entry e) (encode_entries es) (last ∷ []) in
      let more : rest ≢ [] = append-ne-nil (encode_entries es) last in
      rw
        (
          next_record-encode buf offset e rest more h' fits.0,
          records_loop-encode es fuel buf (offset + 3 + length (encode_payload e.payload))
              (keep s e.record_id (payload_value e.payload)) (received + 1) last fits.1
              (omega arith) (after_entry buf offset e rest more h'),
        )
        (ground arith)

  -- A packet of a header of 26 bytes, encoded records that fit their widths and a checksum byte is
  -- parsed to just these records, kept one after another, and the verdict is SUCCESS exactly when
  -- the announced count is theirs.
  pub parse_records-encode :
      (header : Bytes) (es : List Entry) (checksum n : ℕ) (s : S)
      → length header ≡ 26
      → AllFit es
      → parse_records keep (header ++ (encode_entries es ++ checksum ∷ [])) n s
        ≡ some (length es == n, keep_all keep s es)
  unfolding parse_records
  parse_records-encode header es checksum n s h fits =
      let buf : Bytes = header ++ (encode_entries es ++ checksum ∷ []) in
      let long : ltb (length buf) 26 ≡ false =
        ground (arith, length-append header (encode_entries es ++ checksum ∷ [])) in
      let zero_more : 0 + length es ≡ length es = omega arith in
      rw
        (
          long,
          records_loop-encode es (suc (length buf)) buf 26 s 0 checksum fits (omega arith)
              (drop-append 26 header (encode_entries es ++ checksum ∷ []) h),
          zero_more,
        )
        refl
