-- ===== src/Ondemand/Frame.antt =====
-- The packet of a request on demand: `handle_next_page` and `recalculate_dlms_checksum` of
-- HES/src/client.cpp. A packet is the bytes that are sent, so its length is the `length` of the source.
pub mod Packets
pub mod Laws
use atlascode.Prelude.{
  ℕ, ◌+◌, ◌-◌, ◌*◌, ◌%◌, ◌||◌, ◌&&◌, not, [], ◌∷◌, ◌++◌, Option, none, some, Bytes, ltb, ◌==◌,
  if◌then◌else◌, ◌>>=◌, get_elem?, length, take, drop,
}
use atlascode.Checksum.{total}
use atlascode.Ondemand.Buffer.{write_at}

-- Where the DLMS command starts behind the mesh header, from the number of hops.
unfoldable pub dlms_start : ℕ → ℕ
dlms_start hop_count = if hop_count == 0 || hop_count == 1 then 17 else 17 + (hop_count - 1) * 4

-- The `sum` of the source is a `uint32_t`, which no packet fills.
unfoldable pub recalculate_dlms_checksum : Bytes → Option Bytes
unfolding write_at dlms_start
recalculate_dlms_checksum buf = if ltb (length buf) 18 then some buf else (do
  hop_count ← get_elem? buf 12
  start ← get_elem? buf (dlms_start hop_count)
  if not (start == 43)
      then some buf
      else write_at (length buf - 1)
          (total (drop (dlms_start hop_count) (take (length buf - 1) buf)) % 256) buf)

-- `offset`, a `uint8_t`.
unfoldable pub page_offset : ℕ → ℕ
page_offset hop_count = (if hop_count == 0 then 19 else 19 + (hop_count - 1) * 4) % 256

-- The page index is written, and the checksum counts one more.
unfoldable pub turn_page : ℕ → Bytes → Option Bytes
unfolding write_at page_offset
turn_page page_index buf = do
  hop_count ← get_elem? buf 12
  last ← get_elem? buf (length buf - 1)
  turned ← write_at (page_offset hop_count) page_index buf
  write_at (length buf - 1) ((last + 1) % 256) turned

-- The first turn of a request that asks for a range: its last `n` bytes make room for a command
-- without the range.
unfoldable pub drop_range : ℕ → Bytes → Bytes → Option Bytes
unfolding write_at
drop_range n command buf = if ltb (length buf) n then none else (do
  shortened ← write_at 1 ((length buf - n + 7) % 256) buf
  some (take (length buf - n) shortened ++ command))

unfoldable pub bhp_next : Bytes
bhp_next = 0x2B ∷ 0x07 ∷ 0x01 ∷ 0x0E ∷ 0x02 ∷ 0x00 ∷ 0x00 ∷ 0x43 ∷ []

unfoldable pub dlp_next : Bytes
dlp_next = 0x2B ∷ 0x07 ∷ 0x01 ∷ 0x0E ∷ 0x03 ∷ 0x00 ∷ 0x00 ∷ 0x44 ∷ []

unfoldable pub blp_next : Bytes
blp_next = 0x2B ∷ 0x07 ∷ 0x01 ∷ 0x0E ∷ 0x04 ∷ 0x00 ∷ 0x00 ∷ 0x45 ∷ []

-- What `handle_next_page` makes of the packet before it is sent.
unfoldable pub next_frame : ℕ → ℕ → Bytes → Option Bytes
unfolding turn_page drop_range bhp_next dlp_next blp_next
next_frame download_data_type page_index buf =
    if download_data_type == 2 && page_index == 1
    then drop_range 13 bhp_next buf
    else if download_data_type == 3 && page_index == 1
    then drop_range 18 dlp_next buf
    else if download_data_type == 4 && page_index == 1
    then drop_range 18 blp_next buf
    else turn_page page_index buf
