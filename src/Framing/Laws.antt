-- ===== src/Framing/Laws.antt =====
-- Packets that follow one another are found again.
use mathlib.Core.List.{append_assoc}
use atlascode.Prelude.{
  ℕ, zero, suc, ◌+◌, ◌≤◌, ◌≡◌, refl, ◌∙◌, true, false, List, [], ◌∷◌, ◌++◌, some, Bytes, ltb,
  get_elem?, length, length-append, get_elem?-drop, drop-suc, drop-skip, drop, take, take-append,
  arith,
}
use atlascode.Framing.{max_client_rx_buffer, packet_loop, packets, client_received_data}

-- A packet names its length less 1 in its second byte.
pub data IsPacket : Bytes → Type 0 where
  packet : (start : ℕ) (body : Bytes) → IsPacket (start ∷ suc (length body) ∷ body)

abbrev pub ArePackets : List Bytes → Type 0
ArePackets [] = Unit {0}
ArePackets (p ∷ ps) = IsPacket p × ArePackets ps

abbrev pub block : List Bytes → Bytes
block [] = []
block (p ∷ ps) = p ++ block ps

abbrev pub count : List Bytes → ℕ
count [] = 0
count (p ∷ ps) = suc (count ps)

-- Where the packets of a block stand.
abbrev pub places : ℕ → List Bytes → List (ℕ × ℕ)
places offset [] = []
places offset (p ∷ ps) = (offset, length p) ∷ places (offset + length p) ps

-- The bytes at these places.
abbrev pub slices : Bytes → List (ℕ × ℕ) → List Bytes
slices buffer [] = []
slices buffer ((offset, n) ∷ calls) = take n (drop offset buffer) ∷ slices buffer calls

after :
    (p : Bytes) (ps : List Bytes) (offset : ℕ) (buffer rest : Bytes)
    → drop offset buffer ≡ block (p ∷ ps) ++ rest
    → drop (offset + length p) buffer ≡ block ps ++ rest
after p ps offset buffer rest h =
    drop-skip p offset buffer (block ps ++ rest) (h ∙ append_assoc p (block ps) rest)

slices-places :
    (ps : List Bytes) (offset : ℕ) (buffer rest : Bytes)
    → drop offset buffer ≡ block ps ++ rest
    → slices buffer (places offset ps) ≡ ps
slices-places [] offset buffer rest h = refl
slices-places (p ∷ ps) offset buffer rest h =
    let whole = h ∙ append_assoc p (block ps) rest in
    rw
      (
        whole,
        take-append (length p) p (block ps ++ rest) refl,
        slices-places ps (offset + length p) buffer rest (after p ps offset buffer rest h),
      )
      refl

packet_loop-places :
    (ps : List Bytes) (rounds offset n : ℕ) (buffer rest : Bytes)
    → ArePackets ps
    → count ps ≤ rounds
    → drop offset buffer ≡ block ps ++ rest
    → n ≡ offset + length (block ps)
    → packet_loop rounds buffer n offset ≡ some (places offset ps)
unfolding packet_loop
packet_loop-places [] zero offset n buffer rest ok few h e = refl
packet_loop-places [] (suc rounds) offset n buffer rest ok few h e = ground arith
packet_loop-places (p ∷ ps) zero offset n buffer rest ok few h e = absurd (omega arith)
packet_loop-places (_ ∷ ps) (suc rounds) offset n buffer rest (packet start body, ok) few h e =
    let p : Bytes = start ∷ suc (length body) ∷ body in
    let second : get_elem? buffer (offset + 1) ≡ some (suc (length body)) =
      let next : offset + 1 ≡ suc offset = omega arith in
      rw next (
        get_elem?-drop (suc offset) buffer (suc (length body)) ((body ++ block ps) ++ rest)
          (drop-suc offset buffer start (suc (length body) ∷ ((body ++ block ps) ++ rest)) h)) in
    let inside : ltb offset n ≡ true = ground arith in
    let same : suc (length body) + 1 ≡ length p = omega arith in
    let ih =
      packet_loop-places ps rounds (offset + length p) n buffer rest ok (omega arith)
        (after p ps offset buffer rest h) (omega (arith, e, length-append body (block ps))) in
    rw (inside, second, same, ih) refl

-- A block of at most eleven packets, one behind the other, is taken apart into just these packets, in
-- their order, whatever stands in memory behind it.
pub client_received_data-block :
    (ps : List Bytes) (rest : Bytes)
    → ArePackets ps
    → count ps ≤ 11
    → length (block ps) ≤ max_client_rx_buffer
    → (calls : List (ℕ × ℕ)) × (client_received_data false (block ps ++ rest) (length (block ps))
        ≡ some (packets calls, false))
      × (slices (block ps ++ rest) calls ≡ ps)
unfolding client_received_data
client_received_data-block ps rest ok few small =
    let fits : ltb max_client_rx_buffer (length (block ps)) ≡ false = ground arith in
    (
      places 0 ps,
      rw
          (
            fits,
            packet_loop-places ps 11 0 (length (block ps)) (block ps ++ rest) rest ok few refl
                (omega arith),
          )
          refl,
      slices-places ps 0 (block ps ++ rest) rest refl,
    )
