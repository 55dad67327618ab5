-- ===== src/Ondemand/Frame/Packets.antt =====
-- The packets of requests for a page, and what `recalculate_dlms_checksum`, `turn_page` and `drop_range`
-- of Ondemand.Frame make of them.
use atlascode.Prelude.{
  ℕ, zero, suc, ◌+◌, ◌-◌, ◌%◌, ◌≤◌, ◌≡◌, refl, sym, ap, ◌∙◌, [], ◌∷◌, ◌++◌, some, Bytes, get_elem?,
  length, take, arith, length-append, take-append, drop-append, ltb, false,
}
use mathlib.Core.List.{append_assoc}
use atlascode.Checksum.{total}
use atlascode.Ondemand.Buffer.{
  write_at, write_at-append, write_at-prefix, get_elem?-behind, get_elem?-prefix,
}
use atlascode.Ondemand.Frame.{
  dlms_start, recalculate_dlms_checksum, page_offset, turn_page, drop_range,
}

-- A request for a page: the mesh header with a number of hops, and the DLMS command behind it, of
-- which all bytes but the checksum are given.
pub record Parts : Type 0 where
  pub start_byte : ℕ
  pub pmesh_length : ℕ
  pub header : Bytes
  pub dlms_length : ℕ
  pub page : ℕ
  pub arguments : Bytes

abbrev pub command : Parts → Bytes
command r = 43 ∷ r.dlms_length ∷ r.page ∷ r.arguments

abbrev pub front : Parts → Bytes
front r = r.start_byte ∷ r.pmesh_length ∷ r.header ++ command r

abbrev pub packet : Parts → ℕ → Bytes
packet r checksum = front r ++ checksum ∷ []

abbrev pub right_checksum : Parts → ℕ
right_checksum r = total (command r) % 256

-- The header is as long as its number of hops says, 60 hops keep the offset of the page in a byte, and
-- the command names what it asks for.
pub record IsRouted (hop_count : ℕ) (r : Parts) : Type 0 where
  pub hops : get_elem? r.header 10 ≡ some hop_count
  pub few : hop_count ≤ 60
  pub filled : length r.header + 2 ≡ dlms_start hop_count
  pub full : 2 ≤ length r.arguments

page_offset-dlms_start :
    (hop_count : ℕ) → hop_count ≤ 60 → page_offset hop_count ≡ dlms_start hop_count + 2
unfolding page_offset dlms_start
page_offset-dlms_start hop_count h = ground arith

write_page :
    (xs ys : Bytes) (i a b c x : ℕ)
    → i ≡ length xs + 2
    → write_at i x (xs ++ a ∷ b ∷ c ∷ ys) ≡ some (xs ++ a ∷ b ∷ x ∷ ys)
unfolding write_at
write_page [] ys i a b c x h = rw h refl
write_page (d ∷ xs) ys zero a b c x h = absurd (omega arith)
write_page (d ∷ xs) ys (suc i) a b c x h = rw (write_page xs ys i a b c x (omega arith)) refl

length-packet : (r : Parts) (checksum : ℕ) → length (packet r checksum) ≡ length (front r) + 1
length-packet r checksum = length-append (front r) (checksum ∷ [])

last_index : (r : Parts) (checksum : ℕ) → length (packet r checksum) - 1 ≡ length (front r)
last_index r checksum = rw (length-packet r checksum) (omega arith)

module _ (hop_count : ℕ) (r : Parts) (routed : IsRouted hop_count r) where
  read_hops : (checksum : ℕ) → get_elem? (packet r checksum) 12 ≡ some hop_count
  read_hops checksum =
      get_elem?-prefix (front r) (checksum ∷ []) 12 hop_count
        (get_elem?-prefix r.header (command r) 10 hop_count routed.hops)

  pub turn_page-packet :
      (checksum p : ℕ)
      → turn_page p (packet r checksum)
        ≡ some (packet (record r { page = p }) ((checksum + 1) % 256))
  unfolding turn_page
  turn_page-packet checksum p =
      let turned = record r { page = p } in
      let same : length (front turned) ≡ length (front r) =
        rw (length-append r.header (command turned), length-append r.header (command r)) refl in
      let place : page_offset hop_count ≡ length (r.start_byte ∷ r.pmesh_length ∷ r.header) + 2 =
        page_offset-dlms_start hop_count routed.few ∙ omega (arith, routed.filled) in
      rw
        (
          read_hops checksum,
          last_index r checksum,
          get_elem?-behind (front r) [] (length (front r)) checksum refl,
          place,
          write_at-prefix (length (r.start_byte ∷ r.pmesh_length ∷ r.header) + 2) p (front r)
              (front turned) (checksum ∷ [])
              (write_page (r.start_byte ∷ r.pmesh_length ∷ r.header) r.arguments
                (length (r.start_byte ∷ r.pmesh_length ∷ r.header) + 2) 43 r.dlms_length r.page p
                refl),
          write_at-append (front turned) [] (length (front r)) checksum ((checksum + 1) % 256) same,
        )
        refl

  long_enough : (checksum : ℕ) → ltb (length (packet r checksum)) 18 ≡ false
  unfolding dlms_start
  long_enough checksum =
      let n = length-append r.header (command r) in
      let f = routed.filled in rw (length-packet r checksum) (ground arith)

  pub packet_long : (checksum : ℕ) → 23 ≤ length (packet r checksum)
  unfolding dlms_start
  packet_long checksum =
      let n = length-append r.header (command r) in
      let f = routed.filled in let g = routed.full in rw (length-packet r checksum) (ground arith)

  -- Whatever the last byte of a request is, it becomes the right checksum.
  pub recalculate_dlms_checksum-packet :
      (checksum : ℕ)
      → recalculate_dlms_checksum (packet r checksum) ≡ some (packet r (right_checksum r))
  unfolding recalculate_dlms_checksum
  recalculate_dlms_checksum-packet checksum =
      let mesh = r.start_byte ∷ r.pmesh_length ∷ r.header in
      let filled : length mesh ≡ dlms_start hop_count = omega (arith, routed.filled) in
      rw
        (
          long_enough checksum,
          read_hops checksum,
          get_elem?-prefix (front r) (checksum ∷ []) (dlms_start hop_count) 43 (
              get_elem?-behind mesh (r.dlms_length ∷ r.page ∷ r.arguments) (dlms_start hop_count) 43
                filled),
          last_index r checksum,
          take-append (length (front r)) (front r) (checksum ∷ []) refl,
          drop-append (dlms_start hop_count) mesh (command r) filled,
          write_at-append (front r) [] (length (front r)) checksum (right_checksum r) refl,
        )
        refl

  pub drop_range-packet :
      (n c last checksum : ℕ)
      → length r.arguments + 4 ≡ n
      → drop_range n (0x2B ∷ 0x07 ∷ 0x01 ∷ 0x0E ∷ c ∷ 0 ∷ 0 ∷ last ∷ []) (packet r checksum)
        ≡ some (
            packet
              (record r {
                pmesh_length = (length (packet r checksum) - n + 7) % 256;
                dlms_length = 7;
                page = 1;
                arguments = 14 ∷ c ∷ 0 ∷ 0 ∷ [];
              })
              last)
  unfolding drop_range
  drop_range-packet n c last checksum h =
      let counted : length (packet r checksum) - n ≡ length r.header + 2 =
        rw (length-packet r checksum, length-append r.header (command r)) (omega arith) in
      let enough : ltb (length (packet r checksum)) n ≡ false =
        rw (length-packet r checksum, length-append r.header (command r)) (ground arith) in
      let v = (length (packet r checksum) - n + 7) % 256 in
      let kept =
        ap (λ t. take (length (packet r checksum) - n) (r.start_byte ∷ v ∷ t))
          (append_assoc r.header (command r) (checksum ∷ []))
        ∙ take-append (length (packet r checksum) - n) (r.start_byte ∷ v ∷ r.header)
            (command r ++ checksum ∷ []) (omega (arith, counted)) in
      let joined = append_assoc r.header (43 ∷ 7 ∷ 1 ∷ 14 ∷ c ∷ 0 ∷ 0 ∷ []) (last ∷ []) in
      rw enough (
        ap (λ t. some (t ++ (43 ∷ 7 ∷ 1 ∷ 14 ∷ c ∷ 0 ∷ 0 ∷ last ∷ []))) kept
        ∙ ap (λ t. some (r.start_byte ∷ v ∷ t)) (sym joined))
