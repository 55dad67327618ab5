-- ===== src/Link/Frames.antt =====
-- The requests for the pages of a profile, HES/src/client.cpp: `frame_dlms_nameplate_command_packet` and
-- the like. The moments that `GetYesterdayRange` and `GetPreviousHourRange` give, as seconds of
-- `SecondsFromBase`, are arguments.
use atlascode.Prelude.{
  ℕ, ◌+◌, ◌/◌, ◌%◌, ◌<◌, ◌≤◌, ◌≡◌, refl, ap, sym, ◌∙◌, take, take-append, length-append, [], ◌∷◌,
  ◌++◌, some, Bytes, ◌==◌, if◌then◌else◌, length, get_elem?, arith,
}
use atlascode.Prelude.Signed.{ℤ, to_u8}
use atlascode.Checksum.{calculate_checksum, total, calculate_checksum_lem}

-- The checksum of the frames: a byte that takes up the others.
unfoldable pub sum_u8 : ℕ → Bytes → ℕ
sum_u8 checksum [] = checksum
sum_u8 checksum (b ∷ bs) = sum_u8 ((checksum + b) % 256) bs

unfoldable pub push_checksum : Bytes → Bytes
unfolding sum_u8
push_checksum packet = packet ++ sum_u8 0 packet ∷ []

unfoldable pub frame_dlms_nameplate_command_packet : ℕ → Bytes
unfolding push_checksum
frame_dlms_nameplate_command_packet page_index =
    push_checksum (43 ∷ 7 ∷ page_index ∷ 14 ∷ 0 ∷ 0 ∷ 0 ∷ [])

-- A cycle outside of 0..3 is only logged.
unfoldable pub frame_dlms_ip_command_packet : ℤ → ℕ → Bytes
unfolding push_checksum to_u8
frame_dlms_ip_command_packet current_ip_cycle page_index =
    push_checksum (43 ∷ 7 ∷ page_index ∷ 12 ∷ 1 ∷ 0 ∷ to_u8 current_ip_cycle ∷ [])

-- The four bytes of a 32-bit word, the highest first.
unfoldable pub push_secs : ℕ → Bytes
push_secs secs = secs / 16777216 % 256 ∷ secs / 65536 % 256 ∷ secs / 256 % 256 ∷ secs % 256 ∷ []

-- The range is sent with the first page only.
unfoldable pub push_range : ℕ → ℕ → ℕ → Bytes
unfolding push_secs
push_range start_secs end_secs page_index =
    if page_index == 0 then 83 ∷ push_secs start_secs ++ 69 ∷ push_secs end_secs else []

-- Shared by the two loads, which differ in the command and the range; the length counts all bytes
-- but the checksum.
unfoldable pub frame_load : ℕ → ℕ → ℕ → ℕ → Bytes
unfolding push_range push_checksum
frame_load command start_secs end_secs page_index =
    let range = push_range start_secs end_secs page_index in
    push_checksum (43 ∷ (7 + length range) % 256 ∷ page_index ∷ 14 ∷ command ∷ 0 ∷ 0 ∷ range)

unfoldable pub frame_dlms_dlp_command_packet : ℕ → ℕ → ℕ → Bytes
unfolding frame_load
frame_dlms_dlp_command_packet start_secs end_secs page_index =
    frame_load 3 start_secs end_secs page_index

unfoldable pub frame_dlms_blp_command_packet : ℕ → ℕ → ℕ → Bytes
unfolding frame_load
frame_dlms_blp_command_packet start_secs end_secs page_index =
    frame_load 4 start_secs end_secs page_index

-- The zeros that pad the buffer while it is summed add nothing.
unfoldable pub frame_dlms_bhp_command_packet : ℕ → Bytes
unfolding push_checksum
frame_dlms_bhp_command_packet page_index =
    push_checksum (43 ∷ 12 ∷ page_index ∷ 14 ∷ 2 ∷ 0 ∷ 0 ∷ 73 ∷ 0 ∷ 6 ∷ 67 ∷ 1 ∷ [])

-- A frame as a node checks it: the length stands at byte 1 and counts all bytes but the last one,
-- which is the checksum of the others.
pub record IsFrame (f : Bytes) : Type 0 where
  pub body : ℕ
  pub whole : length f ≡ body + 1
  pub length_byte : get_elem? f 1 ≡ some body
  pub checksum : calculate_checksum f body ≡ get_elem? f body

sum_u8_lem : (checksum : ℕ) (bs : Bytes) → sum_u8 checksum bs % 256 ≡ (checksum + total bs) % 256
unfolding sum_u8
sum_u8_lem checksum [] = omega arith
sum_u8_lem checksum (b ∷ bs) = omega (arith, sum_u8_lem ((checksum + b) % 256) bs)

sum_u8_byte : (checksum : ℕ) (bs : Bytes) → checksum < 256 → sum_u8 checksum bs < 256
unfolding sum_u8
sum_u8_byte checksum [] h = h
sum_u8_byte checksum (b ∷ bs) h = sum_u8_byte ((checksum + b) % 256) bs (omega arith)

get_elem?-last : (bs : Bytes) (c : ℕ) → get_elem? (bs ++ c ∷ []) (length bs) ≡ some c
get_elem?-last [] c = refl
get_elem?-last (b ∷ bs) c = get_elem?-last bs c

take-front : (bs : Bytes) (c : ℕ) → take (length bs) (bs ++ c ∷ []) ≡ bs
take-front bs c = take-append (length bs) bs (c ∷ []) refl

push_checksum-IsFrame :
    (x y : ℕ) (bs : Bytes) → y ≡ length (x ∷ y ∷ bs) → IsFrame (push_checksum (x ∷ y ∷ bs))
unfolding push_checksum
push_checksum-IsFrame x y bs h =
    let b = x ∷ y ∷ bs in
    let c = sum_u8 0 b in
    let sum : c ≡ total b % 256 = omega (arith, sum_u8_lem 0 b, sum_u8_byte 0 b (omega arith)) in
    record {
      body = length b;
      whole = length-append b (c ∷ []);
      length_byte = ap some h;
      checksum =
          calculate_checksum_lem (b ++ c ∷ []) (length b) (omega (arith, length-append b (c ∷ [])))
          ∙ ap (λ z. some (total z % 256)) (take-front b c)
          ∙ ap some (sym sum)
          ∙ sym (get_elem?-last b c);
    }

length-push_range :
    (start_secs end_secs page_index : ℕ) → length (push_range start_secs end_secs page_index) ≤ 10
unfolding push_range push_secs
length-push_range start_secs end_secs page_index = ground arith

frame_load-IsFrame :
    (command start_secs end_secs page_index : ℕ)
    → IsFrame (frame_load command start_secs end_secs page_index)
unfolding frame_load
frame_load-IsFrame command start_secs end_secs page_index =
    let range = push_range start_secs end_secs page_index in
    let short = length-push_range start_secs end_secs page_index in
    push_checksum-IsFrame 43 ((7 + length range) % 256) (page_index ∷ 14 ∷ command ∷ 0 ∷ 0 ∷ range)
      (omega (arith, short))

-- Every request for a page carries its length, and the checksum that `calculate_checksum` finds for
-- it, whatever the page, the cycle and the range are.
pub frames-IsFrame :
    (page_index start_secs end_secs : ℕ) (current_ip_cycle : ℤ)
    → IsFrame (frame_dlms_nameplate_command_packet page_index)
      × IsFrame (frame_dlms_ip_command_packet current_ip_cycle page_index)
      × IsFrame (frame_dlms_dlp_command_packet start_secs end_secs page_index)
      × IsFrame (frame_dlms_blp_command_packet start_secs end_secs page_index)
      × IsFrame (frame_dlms_bhp_command_packet page_index)
unfolding frame_dlms_nameplate_command_packet frame_dlms_ip_command_packet
    frame_dlms_dlp_command_packet frame_dlms_blp_command_packet frame_dlms_bhp_command_packet
frames-IsFrame page_index start_secs end_secs current_ip_cycle = (
  push_checksum-IsFrame 43 7 (page_index ∷ 14 ∷ 0 ∷ 0 ∷ 0 ∷ []) refl,
  push_checksum-IsFrame 43 7 (page_index ∷ 12 ∷ 1 ∷ 0 ∷ to_u8 current_ip_cycle ∷ []) refl,
  frame_load-IsFrame 3 start_secs end_secs page_index,
  frame_load-IsFrame 4 start_secs end_secs page_index,
  push_checksum-IsFrame 43 12 (page_index ∷ 14 ∷ 2 ∷ 0 ∷ 0 ∷ 73 ∷ 0 ∷ 6 ∷ 67 ∷ 1 ∷ []) refl,
)
