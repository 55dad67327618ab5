-- ===== src/Ondemand/Frame/Laws.antt =====
-- The packet that `next_frame` of Ondemand.Frame makes.
use atlascode.Prelude.{
  ℕ, ◌+◌, ◌-◌, ◌%◌, ◌<◌, ◌≡◌, refl, sym, ap, ◌∙◌, [], ◌∷◌, some, Bytes, Bool, true, Option, ◌&&◌,
  ◌||◌, ◌==◌, length, arith, false, if◌then◌else◌,
}
use atlascode.Ondemand.Frame.{turn_page, drop_range, next_frame, bhp_next, dlp_next, blp_next}
use atlascode.Ondemand.Frame.Packets.{
  Parts, packet, right_checksum, IsRouted, turn_page-packet, drop_range-packet,
}

-- A request for a page over a number of hops, with the right checksum.
pub record IsPageRequest (hop_count page : ℕ) (buf : Bytes) : Type 0 where
  pub parts : Parts
  pub routed : IsRouted hop_count parts
  pub asks : parts.page ≡ page
  pub checked : buf ≡ packet parts (right_checksum parts)

-- The first request of a type asks for a range that has the length which `handle_next_page` takes off.
abbrev pub has_range : ℕ → ℕ → Bool
has_range download_data_type n =
    if download_data_type == 2
    then n == 9
    else if download_data_type == 3 || download_data_type == 4
    then n == 14
    else true

-- A packet for a given page and the proof that it is one.
pub record IsTurned (hop_count page : ℕ) (o : Option Bytes) : Type 0 where
  pub buf : Bytes
  pub made : o ≡ some buf
  pub asks : IsPageRequest hop_count page buf

module _ (hop_count : ℕ) (r : Parts) (routed : IsRouted hop_count r) (small : r.page < 256) where
  name_plate_page :
      IsTurned hop_count
        ((r.page + 1) % 256)
        (turn_page ((r.page + 1) % 256) (packet r (right_checksum r)))
  name_plate_page =
      let next = record r { page = (r.page + 1) % 256 } in
      let e : (right_checksum r + 1) % 256 ≡ right_checksum next = omega (arith, small) in
      record {
        buf = packet next (right_checksum next);
        made =
            turn_page-packet hop_count r routed (right_checksum r) ((r.page + 1) % 256)
            ∙ ap (λ c. some (packet next c)) e;
        asks = record {
          parts = next;
          routed = record {
            hops = routed.hops;
            few = routed.few;
            filled = routed.filled;
            full = routed.full;
          };
          asks = refl;
          checked = refl;
        };
      }

  restarted-IsTurned :
      (n c last : ℕ)
      → length r.arguments + 4 ≡ n
      → last ≡ (65 + c) % 256
      → IsTurned hop_count 1 (
          drop_range n
            (0x2B ∷ 0x07 ∷ 0x01 ∷ 0x0E ∷ c ∷ 0 ∷ 0 ∷ last ∷ [])
            (packet r (right_checksum r)))
  restarted-IsTurned n c last h k =
      let next = record r {
        pmesh_length = (length (packet r (right_checksum r)) - n + 7) % 256;
        dlms_length = 7;
        page = 1;
        arguments = 14 ∷ c ∷ 0 ∷ 0 ∷ [];
      } in
      let e : last ≡ right_checksum next = omega (arith, k) in
      record {
        buf = packet next (right_checksum next);
        made =
            drop_range-packet hop_count r routed n c last (right_checksum r) h
            ∙ ap (λ x. some (packet next x)) e;
        asks = record {
          parts = next;
          routed = record {
            hops = routed.hops;
            few = routed.few;
            filled = routed.filled;
            full = omega arith;
          };
          asks = refl;
          checked = refl;
        };
      }

  -- One of the branches of the chain, before those that follow.
  branch :
      (b : Bool) {x y : Option Bytes} {page : ℕ}
      → (b ≡ true → IsTurned hop_count page x)
      → IsTurned hop_count page y
      → IsTurned hop_count page (if b then x else y)
  branch true h k = h refl
  branch false h k = k

  first_turn :
      (t k n c last : ℕ)
      → (r.page ≡ 0 → has_range t (length r.arguments) ≡ true)
      → (t == k && (r.page + 1) % 256 == 1) ≡ true
      → ((m : ℕ) → has_range k m ≡ true → m + 4 ≡ n)
      → last ≡ (65 + c) % 256
      → IsTurned hop_count ((r.page + 1) % 256) (
          drop_range n
            (0x2B ∷ 0x07 ∷ 0x01 ∷ 0x0E ∷ c ∷ 0 ∷ 0 ∷ last ∷ [])
            (packet r (right_checksum r)))
  first_turn t k n c last ranged e range sum =
      let first : r.page ≡ 0 = ground arith in
      let kind : t ≡ k = ground arith in
      let one : (r.page + 1) % 256 ≡ 1 = omega (arith, first) in
      let long =
        range (length r.arguments)
          (sym (ap (λ u. has_range u (length r.arguments)) kind) ∙ ranged first) in
      rw one (restarted-IsTurned n c last long sum)

  -- What `handle_next_page` sends for the next page: a request for a page with the right checksum becomes
  -- one for the page behind it, again with the right checksum and over the same hops. The index of the
  -- page is a byte, and the request for page 0 has the range that its type of data needs.
  pub next_frame-IsTurned :
      (download_data_type : ℕ)
      → (r.page ≡ 0 → has_range download_data_type (length r.arguments) ≡ true)
      → IsTurned hop_count
          ((r.page + 1) % 256)
          (next_frame download_data_type ((r.page + 1) % 256) (packet r (right_checksum r)))
  unfolding next_frame bhp_next dlp_next blp_next
  next_frame-IsTurned t ranged =
      let i = (r.page + 1) % 256 in
      branch (t == 2 && i == 1) (λ e. first_turn t 2 13 2 0x43 ranged e (λ m h. ground arith) refl)
        (branch (t == 3 && i == 1)
          (λ e. first_turn t 3 18 3 0x44 ranged e (λ m h. ground arith) refl)
          (branch (t == 4 && i == 1)
            (λ e. first_turn t 4 18 4 0x45 ranged e (λ m h. ground arith) refl) name_plate_page))
