-- ===== src/Pull.antt =====
-- The page handlers of `PullData`, HES/src/pull.cpp: a page that a node sends on request is checked,
-- parsed into the node's profile and answered by a code. `none` is a read behind the end of the
-- memory that holds the receive buffer.
pub mod Laws
use atlascode.Prelude.{
  ℕ, ◌+◌, Bool, true, false, not, List, [], ◌∷◌, Option, none, some, Bytes, ◌==◌, if◌then◌else◌,
  ◌>>=◌, get_elem?, drop, bytes_eq,
}
use atlascode.Packet.{Header, read_header, to_mac_array, copy_packet, pmesh_header_size}
use atlascode.Checksum.{calculate_checksum}
use atlascode.Records.{DlmsRecordMap}
use atlascode.DlmsRecords.{BlockProfiles, parse_dlms_records, parse_block_load_dlms_records}
use atlascode.Push.Profiles.{PacketBuffer}

-- `SUCCESS`, `FAILURE` and `NEXT_PAGE_PRESENT`
pub data PageResult : Type 0 where
  success failure next_page_present : PageResult

-- Of `NodeInfo` and its `NodeProfileData` what the handlers use.
pub record NodeInfo : Type 0 where
  pub node_mac_address : Bytes
  pub internal_firmware_version : Bytes
  pub name_plate_profile : PacketBuffer DlmsRecordMap
  pub instantaneous_profile : PacketBuffer DlmsRecordMap
  pub block_load_profile : PacketBuffer BlockProfiles
  pub daily_load_profile : PacketBuffer DlmsRecordMap
  pub billing_history : PacketBuffer DlmsRecordMap

-- What tells one handler from another: its parser and its buffer.
pub record PullProfile (T : Type 0) : Type 0 where
  pub parse : Bytes → ℕ → T → Option (Bool × T)
  pub view : NodeInfo → PacketBuffer T
  pub update : NodeInfo → PacketBuffer T → NodeInfo

-- The code that answers a page.
unfoldable pub page_result : ℕ → PageResult
page_result next_page_status =
    if next_page_status == 0
    then success
    else if next_page_status == 1
    then next_page_present
    else failure

module _ {T : Type 0} (p : PullProfile T) (now : ℕ) where
  -- Behind the checks of checksum and address. What was parsed before a failure stays.
  unfoldable pub accept_page : Header → Bytes → NodeInfo → Option (PageResult × NodeInfo)
  unfolding page_result
  accept_page h v node = do
    let b = p.view node
    (parsed, contents) ← p.parse v h.no_of_records b.profile_data
    some (
        if parsed
        then (
          page_result h.next_page_status,
          p.update node (record {
            total_packets_received = b.total_packets_received + 1;
            last_packet_time = now;
            profile_data = contents;
          }),
        )
        else (failure, p.update node (record b { profile_data = contents })))

  -- The text that the five handlers share, behind their test for a null node. A null buffer is not
  -- modelled: every caller hands over an array.
  unfoldable pub process_page : Bytes → ℕ → NodeInfo → Option (PageResult × NodeInfo)
  process_page buff length node = if length == 0 then some (failure, node) else (do
    h ← read_header buff
    received ← get_elem? buff h.pmesh_length
    calculated ← calculate_checksum (drop pmesh_header_size buff) h.dlms_length
    if not (received == calculated)
        then some (failure, node)
        else if not (bytes_eq (to_mac_array h.destination_addr) node.node_mac_address)
        then some (failure, node)
        else (do v ← copy_packet buff length; accept_page h v node))

-- `if (!node)`
unfoldable pub on_node :
    (NodeInfo → Option (PageResult × NodeInfo))
    → Option NodeInfo
    → Option (PageResult × Option NodeInfo)
on_node handle none = some (failure, none)
on_node handle (some node) = do (r, node') ← handle node; some (r, some node')

unfoldable pub name_plate : PullProfile DlmsRecordMap
name_plate = record {
  parse = parse_dlms_records;
  view = λ n. n.name_plate_profile;
  update = λ n b. record n { name_plate_profile = b };
}

unfoldable pub daily_load : PullProfile DlmsRecordMap
daily_load = record {
  parse = parse_dlms_records;
  view = λ n. n.daily_load_profile;
  update = λ n b. record n { daily_load_profile = b };
}

unfoldable pub block_load : PullProfile BlockProfiles
block_load = record {
  parse = parse_block_load_dlms_records;
  view = λ n. n.block_load_profile;
  update = λ n b. record n { block_load_profile = b };
}

unfoldable pub billing : PullProfile DlmsRecordMap
billing = record {
  parse = parse_dlms_records;
  view = λ n. n.billing_history;
  update = λ n b. record n { billing_history = b };
}

unfoldable pub instantaneous : PullProfile DlmsRecordMap
instantaneous = record {
  parse = parse_dlms_records;
  view = λ n. n.instantaneous_profile;
  update = λ n b. record n { instantaneous_profile = b };
}

unfoldable pub process_nameplate_data :
    ℕ → Bytes → ℕ → Option NodeInfo → Option (PageResult × Option NodeInfo)
unfolding on_node
process_nameplate_data now buff length = on_node (process_page name_plate now buff length)

unfoldable pub process_daily_load_data :
    ℕ → Bytes → ℕ → Option NodeInfo → Option (PageResult × Option NodeInfo)
unfolding on_node
process_daily_load_data now buff length = on_node (process_page daily_load now buff length)

unfoldable pub process_block_load_data :
    ℕ → Bytes → ℕ → Option NodeInfo → Option (PageResult × Option NodeInfo)
unfolding on_node
process_block_load_data now buff length = on_node (process_page block_load now buff length)

unfoldable pub process_billing_history_data :
    ℕ → Bytes → ℕ → Option NodeInfo → Option (PageResult × Option NodeInfo)
unfolding on_node
process_billing_history_data now buff length = on_node (process_page billing now buff length)

unfoldable pub process_ip_profile_data :
    ℕ → Bytes → ℕ → Option NodeInfo → Option (PageResult × Option NodeInfo)
unfolding on_node
process_ip_profile_data now buff length = on_node (process_page instantaneous now buff length)
