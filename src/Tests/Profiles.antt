-- ===== src/Tests/Profiles.antt =====
-- Profiles that are pushed and pulled.
use atlascode.Prelude.{
  ℕ, ◌+◌, ◌≡◌, ◌≢◌, refl, Bool, true, List, [], ◌∷◌, ◌++◌, none, some, Bytes, take, get_elem?, find,
  bytes_eq, bytes_key, number_key, arith,
}
use atlascode.Checksum.{calculate_checksum}
use atlascode.Packet.{Header, read_header, to_mac_array, copy_packet}
use atlascode.Records.{DlmsRecordMap}
use atlascode.Parser.Encoding.{uint8, word, payload_value, encode_payload}
use atlascode.DlmsRecords.{keep_record, parse_dlms_records}
use atlascode.DlmsRecords.RoundTrip.{Entry, parse_records-encode}
use atlascode.Pull
use atlascode.Pull.{NodeInfo, next_page_present, page_result, accept_page, process_page}
use atlascode.Pull.Laws.{Accepted, process_page-Accepted}
use atlascode.Push.Profiles.{no_blocks, PushNodeInfo, new_node, daily_load, daily_load-IsProfile}
use atlascode.Push.{PushData, node_of, count_packet, process_profile}
use atlascode.Push.Laws.{
  Covers, payload_sum, buffer_before, Handled, process_profile-Handled, process_profile_overread,
}
use atlascode.Push.Reassembly.{Page, IsPage, run_pages, run_pages_reassembles}
use atlascode.Push.Cleanup.{cleanup_push_profiles, IsClean, cleanup_push_profiles-IsClean}

-- A daily load packet with one record, for page `page`, with the status of the next page.
abbrev head : ℕ → ℕ → Bytes
head page next =
    0 ∷ 30 ∷ 0 ∷ 0 ∷ 0 ∷ 0 ∷ 0 ∷ 0 ∷ 0 ∷ 0 ∷ 0 ∷ 1 ∷ 2 ∷ 3 ∷ 4 ∷ 0 ∷ 0 ∷ 0 ∷ 0 ∷ 13 ∷ page ∷ 14 ∷ 3
    ∷ 0 ∷ next ∷ 1 ∷ []

abbrev entry : ℕ → List Entry
entry id = record { record_id = id; payload = word uint8 7 } ∷ []

abbrev packet : ℕ → ℕ → ℕ → Bytes
packet page next id = head page next ++ id ∷ 0 ∷ 17 ∷ 7 ∷ (55 + page + next + id) ∷ []

abbrev header_of : ℕ → ℕ → Header
header_of page next = record {
  pmesh_length = 30;
  destination_addr = 1 ∷ 2 ∷ 3 ∷ 4 ∷ [];
  dlms_length = 13;
  current_page_index = page;
  frame_id = 14;
  command = 3;
  next_page_status = next;
  no_of_records = 1;
}

abbrev node : Bytes
node = 0x3C ∷ 0xC1 ∷ 0xF6 ∷ 0x01 ∷ 1 ∷ 2 ∷ 3 ∷ 4 ∷ []

abbrev merge_one : ℕ → DlmsRecordMap → DlmsRecordMap
merge_one id t = keep_record t id (payload_value (word uint8 7))

packet-Covers : (page next id : ℕ) → Covers (packet page next id) 31 (header_of page next)
unfolding read_header
packet-Covers page next id = record {
  header = refl;
  checksum_inside = omega arith;
  data_inside = omega arith;
  packet_inside = omega arith;
}

packet-parse :
    (page next id : ℕ) (t : DlmsRecordMap)
    → parse_dlms_records (take 31 (packet page next id)) 1 t ≡ some (true, merge_one id t)
unfolding parse_dlms_records encode_payload
packet-parse page next id t =
    parse_records-encode keep_record (head page next) (entry id) (55 + page + next + id) 1 t refl
      (ground arith)

abbrev page_of : ℕ → ℕ → ℕ → ℕ → Page DlmsRecordMap
page_of now page next id = record {
  now = now;
  buff = packet page next id;
  size = 31;
  header = header_of page next;
  merge = merge_one id;
}

abbrev empty_state : PushData
empty_state = record { push_node_info = []; db = [] }

first-IsPage : IsPage daily_load node (page_of 100 0 1 5)
unfolding daily_load to_mac_array
first-IsPage = record {
  covers = packet-Covers 0 1 5;
  checksum = refl;
  address = refl;
  parses = packet-parse 0 1 5;
}

second-IsPage : IsPage daily_load node (page_of 200 1 0 6)
unfolding daily_load to_mac_array
second-IsPage = record {
  covers = packet-Covers 1 0 6;
  checksum = refl;
  address = refl;
  parses = packet-parse 1 0 6;
}

-- Two packets, the second of them the last page, and the insertion of both records.
run_pages_reassembles_example :
    (st' : PushData) × (run_pages daily_load
        (page_of 100 0 1 5 ∷ page_of 200 1 0 6 ∷ [])
        empty_state
      ≡ some st')
    × (◌≡◌ {A = ℕ} 1 1
        → st'.db
          ≡ []
            ++ daily_load.save 200 node (record {
              total_packets_received = 2;
              last_packet_time = 200;
              profile_data = merge_one 6 (merge_one 5 []);
            })
              ∷ [])
    × (◌≢◌ {A = ℕ} 1 1 → st'.db ≡ [])
    × ((daily_load.view (node_of st' node)).total_packets_received ≡ 0)
    × ((daily_load.view (node_of st' node)).profile_data ≡ [])
unfolding daily_load node_of new_node find
run_pages_reassembles_example =
    run_pages_reassembles daily_load daily_load-IsProfile node (page_of 100 0 1 5 ∷ [])
      (page_of 200 1 0 6) empty_state (first-IsPage, (ground arith), tt) second-IsPage refl refl
      refl

process_profile-Handled_example :
    (get_elem? (packet 0 1 5) 30 ≢ some (payload_sum (packet 0 1 5) (header_of 0 1))
      → process_profile daily_load 100 (packet 0 1 5) 31 empty_state ≡ some empty_state)
    × (get_elem? (packet 0 1 5) 30 ≡ some (payload_sum (packet 0 1 5) (header_of 0 1))
        → (parsed : Bool) × (contents : DlmsRecordMap) × (st' : PushData) × (daily_load.parse
              (take 31 (packet 0 1 5))
              1
              (buffer_before daily_load (header_of 0 1) empty_state).profile_data
            ≡ some (parsed, contents))
          × (process_profile daily_load 100 (packet 0 1 5) 31 empty_state ≡ some st')
          × Handled daily_load daily_load-IsProfile 100
              (header_of 0 1)
              (to_mac_array (1 ∷ 2 ∷ 3 ∷ 4 ∷ []))
              (count_packet daily_load 100 parsed contents
                (buffer_before daily_load (header_of 0 1) empty_state))
              empty_state
              st')
process_profile-Handled_example =
    process_profile-Handled daily_load daily_load-IsProfile 100 (packet 0 1 5) 31 (header_of 0 1)
      empty_state (packet-Covers 0 1 5)

-- The same packet in memory that ends two bytes early.
short-header : read_header (take 29 (packet 0 1 5)) ≡ some (header_of 0 1)
unfolding read_header
short-header = refl

overread_page : process_profile daily_load 100 (take 29 (packet 0 1 5)) 31 empty_state ≡ none
overread_page =
    process_profile_overread daily_load daily_load-IsProfile 100 (take 29 (packet 0 1 5)) 31
      (header_of 0 1) empty_state short-header (omega arith)

-- A daily load that has waited for its second page for 400 seconds.
abbrev half : PushNodeInfo
half = record new_node {
  daily_load_profile = record {
    total_packets_received = 1;
    last_packet_time = 100_000_000_000;
    profile_data = merge_one 5 [];
  };
}

abbrev waiting : PushData
waiting = record { push_node_info = (node, half) ∷ []; db = [] }

waiting-find : find waiting.push_node_info node ≡ some half
unfolding find bytes_eq
waiting-find = refl

cleanup_push_profiles-IsClean_example :
    (after : PushNodeInfo) × (find
        (cleanup_push_profiles 500_000_000_000 waiting).push_node_info
        node
      ≡ some after)
    × IsClean 500_000_000_000 half after
    × ((cleanup_push_profiles 500_000_000_000 waiting).db ≡ [])
cleanup_push_profiles-IsClean_example =
    cleanup_push_profiles-IsClean 500_000_000_000 waiting node half waiting-find

abbrev asked : NodeInfo
asked = record {
  node_mac_address = node;
  internal_firmware_version = [];
  name_plate_profile = record {
    total_packets_received = 0;
    last_packet_time = 0;
    profile_data = [];
  };
  instantaneous_profile = record {
    total_packets_received = 0;
    last_packet_time = 0;
    profile_data = [];
  };
  block_load_profile = record {
    total_packets_received = 0;
    last_packet_time = 0;
    profile_data = no_blocks;
  };
  daily_load_profile = record {
    total_packets_received = 0;
    last_packet_time = 0;
    profile_data = [];
  };
  billing_history = record { total_packets_received = 0; last_packet_time = 0; profile_data = [] };
}

abbrev answered : NodeInfo
answered = record asked {
  daily_load_profile = record {
    total_packets_received = 1;
    last_packet_time = 100;
    profile_data = merge_one 5 [];
  };
}

pulled :
    process_page Pull.daily_load 100 (packet 0 1 5) 31 asked ≡ some (next_page_present, answered)
unfolding process_page Pull.daily_load accept_page page_result read_header to_mac_array
    calculate_checksum copy_packet bytes_eq parse_dlms_records
pulled = rw (packet-parse 0 1 5 []) refl

process_page-Accepted_example :
    Accepted Pull.daily_load 100 (packet 0 1 5) 31 asked answered next_page_present
process_page-Accepted_example =
    process_page-Accepted Pull.daily_load 100 (packet 0 1 5) 31 asked answered next_page_present
      pulled (ground arith)
