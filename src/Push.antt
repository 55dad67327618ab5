-- ===== src/Push.antt =====
-- `PushData` of HES/src/push.cpp and HES/inc/push.h, built with `PUSH_EVENT_DETAILED_PARSING` 0:
-- profiles that meters push are collected page by page and written to the database when the last
-- page is in. What the database is told is a list, `db`; a time is a count of `system_clock`, in
-- nanoseconds. `none` is a read behind the end of the memory that holds the receive buffer.
pub mod Profiles
pub mod Laws
pub mod Reassembly
pub mod Cleanup
use atlascode.Prelude.{
  ℕ, ◌+◌, ◌*◌, ◌/◌, Bool, true, false, not, List, [], ◌∷◌, ◌++◌, Option, none, some, Bytes, ◌==◌,
  if◌then◌else◌, ◌>>=◌, get_elem?, drop, find, insert, bytes_key,
}
use atlascode.Packet.{Header, read_header, to_mac_array, copy_packet, pmesh_header_size}
use atlascode.Checksum.{calculate_checksum}
use atlascode.Cycle.{LocalTime}
use Profiles.{
  PacketBuffer, PushNodeInfo, new_node, DbInsert, Profile, instantaneous, daily_load, block_load,
  billing, power_on, power_off,
}

pub record PushData : Type 0 where
  pub push_node_info : List (Bytes × PushNodeInfo)
  pub db : List DbInsert

-- `push_node_info[mac]` as it is read; writing it back is `put_node`.
unfoldable pub node_of : PushData → Bytes → PushNodeInfo
node_of st mac = elim (find st.push_node_info mac) [ none ↦ new_node | some n ↦ n ]

unfoldable pub put_node : PushData → Bytes → PushNodeInfo → PushData
put_node st mac n = record st { push_node_info = insert st.push_node_info mac n }

module _ {T : Type 0} (p : Profile T) (now : ℕ) where
  -- What a handler makes of the verdict of its parser. Records parsed before a failure stay.
  unfoldable pub count_packet : Bool → T → PacketBuffer T → PacketBuffer T
  count_packet parsed contents b =
      if parsed
      then record {
        total_packets_received = b.total_packets_received + 1;
        last_packet_time = now;
        profile_data = contents;
      }
      else record b { profile_data = contents }

  -- The end of a handler: with the last page the buffer is written to the database, if as many packets
  -- are in as there are pages, and reset in any case.
  unfoldable pub close_page : Header → Bytes → PacketBuffer T → PushData → PushData
  close_page h mac b st =
      if h.next_page_status == 0
      then (if b.total_packets_received == h.current_page_index + 1
          then record (put_node st mac (p.update (node_of st mac) (p.reset b))) {
            db = st.db ++ p.save now mac b ∷ [];
          }
          else put_node st mac (p.update (node_of st mac) (p.reset b)))
      else put_node st mac (p.update (node_of st mac) b)

  -- A handler behind its checksum.
  unfoldable pub accept_packet : Bytes → ℕ → Header → PushData → Option PushData
  accept_packet buff length h st = do
    v ← copy_packet buff length
    let mac = to_mac_array h.destination_addr
    let b = p.view (node_of st mac)
    (parsed, contents) ← p.parse v h.no_of_records b.profile_data
    some (close_page h mac (count_packet parsed contents b) st)

  -- The text that the six handlers share. `buff` is the memory from the packet on, `length` the
  -- packet's length.
  unfoldable pub process_profile : Bytes → ℕ → PushData → Option PushData
  process_profile buff length st = do
    h ← read_header buff
    received ← get_elem? buff h.pmesh_length
    calculated ← calculate_checksum (drop pmesh_header_size buff) h.dlms_length
    if not (received == calculated) then some st else accept_packet buff length h st

module _ (localtime : ℕ → LocalTime) (now : ℕ) where
  unfoldable pub process_ip_push_data : Bytes → ℕ → PushData → Option PushData
  process_ip_push_data = process_profile (instantaneous localtime) now

  unfoldable pub process_dlp_push_data : Bytes → ℕ → PushData → Option PushData
  process_dlp_push_data = process_profile daily_load now

  unfoldable pub process_blp_push_data : Bytes → ℕ → PushData → Option PushData
  process_blp_push_data = process_profile (block_load localtime) now

  unfoldable pub process_bhp_push_data : Bytes → ℕ → PushData → Option PushData
  process_bhp_push_data = process_profile billing now

  unfoldable pub process_power_on_event : Bytes → ℕ → PushData → Option PushData
  process_power_on_event = process_profile power_on now

  unfoldable pub process_power_off_event : Bytes → ℕ → PushData → Option PushData
  process_power_off_event = process_profile power_off now

  unfoldable pub process_push_data : Bytes → ℕ → PushData → Option PushData
  process_push_data buff length st = do
    h ← read_header buff
    if h.frame_id == 0x0E
        then (if h.command == 1
            then process_ip_push_data buff length st
            else if h.command == 4
            then process_blp_push_data buff length st
            else if h.command == 3
            then process_dlp_push_data buff length st
            else if h.command == 2
            then process_bhp_push_data buff length st
            else some st)
        else if h.frame_id == 0x10
        then process_power_on_event buff length st
        else if h.frame_id == 0x11
        then process_power_off_event buff length st
        else some st
