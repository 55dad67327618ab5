-- ===== src/Tests/Engine.antt =====
-- Packets that arrive while a client waits for a page.
use atlascode.Prelude.{◌≡◌, refl, true, [], ◌∷◌, some, bytes_eq}
use atlascode.Link.{ClientCurrentState, Code, Arrived}
use atlascode.Pull
use atlascode.Pull.{NodeInfo, PageResult, process_daily_load_data, process_page, accept_page}
use atlascode.Packet.{read_header, to_mac_array, copy_packet}
use atlascode.Checksum.{calculate_checksum}
use atlascode.DlmsRecords.{parse_dlms_records, parse_records, records_loop, next_record}
use atlascode.Ondemand.SingleObis.{SingleObisData}
use atlascode.Engine.{Client, success, next_page_present}
use atlascode.Engine.Answer.{client_process_data}
use atlascode.Engine.Laws.{IsNodeStep}
use atlascode.Engine.Laws.Accepted.{
  IsPageAccepted, client_process_data-IsPageAccepted, client_process_data-IsNodeStep,
}
use atlascode.Tests.Links.{link}
use atlascode.Tests.Ondemand.{clock, no_events}

abbrev asked : NodeInfo
asked = record {
  node_mac_address = 0x3C ∷ 0xC1 ∷ 0xF6 ∷ 0x01 ∷ 9 ∷ 8 ∷ 7 ∷ 6 ∷ [];
  internal_firmware_version = [];
  name_plate_profile = record {
    total_packets_received = 0;
    last_packet_time = 0;
    profile_data = [];
  };
  instantaneous_profile = record {
    total_packets_received = 0;
    last_packet_time = 0;
    profile_data = [];
  };
  block_load_profile = record {
    total_packets_received = 0;
    last_packet_time = 0;
    profile_data = record { profiles_data = []; partial_profile = [] };
  };
  daily_load_profile = record {
    total_packets_received = 0;
    last_packet_time = 0;
    profile_data = [];
  };
  billing_history = record { total_packets_received = 0; last_packet_time = 0; profile_data = [] };
}

abbrev no_object : SingleObisData
no_object = record {
  rtc_timestamp = [];
  rtc_formatted = [];
  period_seconds = [];
  load_limit = [];
  load_status = [];
  load_status_str = [];
  scheduler_timestamp = [];
  scheduler_formatted = [];
  command = [];
  sub_command = [];
  db_command = 0;
  pp_write_payload_tail = 0;
}

-- The client waits for a page of the daily load.
abbrev waiting : Client
waiting = record {
  link = record (link []) { current_state = ClientCurrentState.daily_load };
  pulls = true;
  current_node = some asked;
  tx_page_index = 0;
  remaining_pkt_cnt = 0;
  name_plate = [];
  ip = [];
  dlp = [];
  blp = [];
  bh = [];
  events = no_events;
  single_obis_data = no_object;
}

-- A page without records that says that another one follows.
abbrev empty_page : Arrived
empty_page = record {
  rx_buf =
      46 ∷ 26 ∷ 8 ∷ 0 ∷ 0 ∷ 0 ∷ 0 ∷ 0 ∷ 0 ∷ 0 ∷ 0 ∷ 9 ∷ 8 ∷ 7 ∷ 6 ∷ 0 ∷ 0 ∷ 45 ∷ 0 ∷ 9 ∷ 0 ∷ 14 ∷ 3
      ∷ 0 ∷ 1 ∷ 0 ∷ 72 ∷ [];
  length = 27;
  answer = Code.other;
}

abbrev answered : Client
answered = record waiting {
  current_node = some (record asked {
    daily_load_profile = record {
      total_packets_received = 1;
      last_packet_time = 100;
      profile_data = [];
    };
  });
}

arrives : client_process_data clock 100 empty_page waiting ≡ some (next_page_present, answered)
unfolding client_process_data process_daily_load_data process_page read_header calculate_checksum
    bytes_eq to_mac_array copy_packet accept_page Pull.daily_load parse_dlms_records parse_records
    records_loop next_record
arrives = refl

client_process_data-IsPageAccepted_example :
    IsPageAccepted ClientCurrentState.daily_load 100 empty_page PageResult.next_page_present
      waiting.current_node answered.current_node
client_process_data-IsPageAccepted_example =
    client_process_data-IsPageAccepted clock 100 empty_page waiting answered arrives

client_process_data-IsNodeStep_example :
    IsNodeStep 100 empty_page ClientCurrentState.daily_load waiting.current_node
      (next_page_present, answered)
client_process_data-IsNodeStep_example =
    client_process_data-IsNodeStep clock 100 empty_page waiting answered next_page_present arrives

-- The answer to a ping ends the wait for a page with success, and the node has no page.
abbrev ping_answer : Arrived
ping_answer = record {
  rx_buf = 46 ∷ 16 ∷ 14 ∷ 0 ∷ 0 ∷ 0 ∷ 0 ∷ 0 ∷ 0 ∷ 0 ∷ 0 ∷ 9 ∷ 8 ∷ 7 ∷ 6 ∷ 0 ∷ 0 ∷ [];
  length = 17;
  answer = Code.other;
}

ping_taken_for_page : client_process_data clock 100 ping_answer waiting ≡ some (success, waiting)
unfolding client_process_data
ping_taken_for_page = refl
