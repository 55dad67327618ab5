-- ===== src/Push/Profiles.antt =====
-- The buffers of a node: `PacketBuffer` of HES/inc/packet_buffer.h, `PacketBufferBlockLoad` and
-- `PushNodeInfo` of HES/inc/push.h, and how the six handlers of HES/src/push.cpp reach theirs.
use atlascode.Prelude.{ℕ, ◌/◌, ◌≡◌, refl, Bool, [], Option, some, Bytes}
use atlascode.Records.{DlmsRecordMap}
use atlascode.DlmsRecords.{
  keep_record, keep_block_record, BlockProfiles, parse_dlms_records, parse_block_load_dlms_records,
}
use atlascode.DlmsRecords.Safety.{parse_records_total}
use atlascode.Cycle.{LocalTime, calculate_cycle_id, calculate_cycle_id_for_block_load}

-- For block load `profile_data` holds the completed blocks and the one in progress.
pub record PacketBuffer (T : Type 0) : Type 0 where
  pub total_packets_received : ℕ
  pub last_packet_time : ℕ
  pub profile_data : T

abbrev pub no_blocks : BlockProfiles
no_blocks = record { profiles_data = []; partial_profile = [] }

-- `PacketBuffer::clear`
unfoldable pub clear : PacketBuffer DlmsRecordMap → PacketBuffer DlmsRecordMap
clear b = record { total_packets_received = 0; last_packet_time = 0; profile_data = [] }

-- `PacketBufferBlockLoad::clear`, which leaves the time
unfoldable pub clear_block_load : PacketBuffer BlockProfiles → PacketBuffer BlockProfiles
clear_block_load b = record b { total_packets_received = 0; profile_data = no_blocks }

pub record PushNodeInfo : Type 0 where
  pub instantaneous_profile : PacketBuffer DlmsRecordMap
  pub daily_load_profile : PacketBuffer DlmsRecordMap
  pub billing_history : PacketBuffer DlmsRecordMap
  pub block_load_profile : PacketBuffer BlockProfiles
  pub power_on_event : PacketBuffer DlmsRecordMap
  pub power_off_event : PacketBuffer DlmsRecordMap

abbrev new_buffer : {T : Type 0} → T → PacketBuffer T
new_buffer t = record { total_packets_received = 0; last_packet_time = 0; profile_data = t }

-- What `push_node_info[mac]` makes for a new key.
unfoldable pub new_node : PushNodeInfo
new_node = record {
  instantaneous_profile = new_buffer [];
  daily_load_profile = new_buffer [];
  billing_history = new_buffer [];
  block_load_profile = new_buffer no_blocks;
  power_on_event = new_buffer [];
  power_off_event = new_buffer [];
}

-- The calls of `insert_..._profile_data` and `insert_power_..._event_to_db`: the node, the cycle where
-- the call has one, and the buffer.
pub data DbInsert : Type 0 where
  instantaneous_parameters : Bytes → ℕ → PacketBuffer DlmsRecordMap → DbInsert
  daily_load_insert : Bytes → PacketBuffer DlmsRecordMap → DbInsert
  block_load_insert : Bytes → ℕ → PacketBuffer BlockProfiles → DbInsert
  billing_history_insert : Bytes → PacketBuffer DlmsRecordMap → DbInsert
  power_on_insert : Bytes → PacketBuffer DlmsRecordMap → DbInsert
  power_off_insert : Bytes → PacketBuffer DlmsRecordMap → DbInsert

-- What tells one handler from another: its parser, its buffer, and its database call at a time.
pub record Profile (T : Type 0) : Type 0 where
  pub parse : Bytes → ℕ → T → Option (Bool × T)
  pub view : PushNodeInfo → PacketBuffer T
  pub update : PushNodeInfo → PacketBuffer T → PushNodeInfo
  pub reset : PacketBuffer T → PacketBuffer T
  pub save : ℕ → Bytes → PacketBuffer T → DbInsert

-- A profile reads what it writes, and a buffer that is reset is empty.
pub record IsProfile {T : Type 0} (p : Profile T) (empty : T) : Type 0 where
  pub view-update : (n : PushNodeInfo) (b : PacketBuffer T) → p.view (p.update n b) ≡ b
  pub reset_count : (b : PacketBuffer T) → (p.reset b).total_packets_received ≡ 0
  pub reset_data : (b : PacketBuffer T) → (p.reset b).profile_data ≡ empty
  pub parse_total : (v : Bytes) (n : ℕ) (t : T) → (r : Bool × T) × (p.parse v n t ≡ some r)

unfoldable pub instantaneous : (ℕ → LocalTime) → Profile DlmsRecordMap
instantaneous localtime = record {
  parse = parse_dlms_records;
  view = λ n. n.instantaneous_profile;
  update = λ n b. record n { instantaneous_profile = b };
  reset = clear;
  save = λ now mac b.
      instantaneous_parameters mac (calculate_cycle_id localtime (now / 1_000_000_000) 0) b;
}

unfoldable pub daily_load : Profile DlmsRecordMap
daily_load = record {
  parse = parse_dlms_records;
  view = λ n. n.daily_load_profile;
  update = λ n b. record n { daily_load_profile = b };
  reset = clear;
  save = λ now mac b. daily_load_insert mac b;
}

unfoldable pub block_load : (ℕ → LocalTime) → Profile BlockProfiles
block_load localtime = record {
  parse = parse_block_load_dlms_records;
  view = λ n. n.block_load_profile;
  update = λ n b. record n { block_load_profile = b };
  reset = clear_block_load;
  save = λ now mac b.
      block_load_insert mac (calculate_cycle_id_for_block_load (localtime (now / 1_000_000_000))) b;
}

unfoldable pub billing : Profile DlmsRecordMap
billing = record {
  parse = parse_dlms_records;
  view = λ n. n.billing_history;
  update = λ n b. record n { billing_history = b };
  reset = clear;
  save = λ now mac b. billing_history_insert mac b;
}

unfoldable pub power_on : Profile DlmsRecordMap
power_on = record {
  parse = parse_dlms_records;
  view = λ n. n.power_on_event;
  update = λ n b. record n { power_on_event = b };
  reset = clear;
  save = λ now mac b. power_on_insert mac b;
}

unfoldable pub power_off : Profile DlmsRecordMap
power_off = record {
  parse = parse_dlms_records;
  view = λ n. n.power_off_event;
  update = λ n b. record n { power_off_event = b };
  reset = clear;
  save = λ now mac b. power_off_insert mac b;
}

pub instantaneous-IsProfile : (localtime : ℕ → LocalTime) → IsProfile (instantaneous localtime) []
unfolding instantaneous clear parse_dlms_records
instantaneous-IsProfile localtime = record {
  view-update = λ n b. refl;
  reset_count = λ b. refl;
  reset_data = λ b. refl;
  parse_total = parse_records_total keep_record;
}

pub daily_load-IsProfile : IsProfile daily_load []
unfolding daily_load clear parse_dlms_records
daily_load-IsProfile = record {
  view-update = λ n b. refl;
  reset_count = λ b. refl;
  reset_data = λ b. refl;
  parse_total = parse_records_total keep_record;
}

pub block_load-IsProfile : (localtime : ℕ → LocalTime) → IsProfile (block_load localtime) no_blocks
unfolding block_load clear_block_load parse_block_load_dlms_records
block_load-IsProfile localtime = record {
  view-update = λ n b. refl;
  reset_count = λ b. refl;
  reset_data = λ b. refl;
  parse_total = parse_records_total keep_block_record;
}

pub billing-IsProfile : IsProfile billing []
unfolding billing clear parse_dlms_records
billing-IsProfile = record {
  view-update = λ n b. refl;
  reset_count = λ b. refl;
  reset_data = λ b. refl;
  parse_total = parse_records_total keep_record;
}

pub power_on-IsProfile : IsProfile power_on []
unfolding power_on clear parse_dlms_records
power_on-IsProfile = record {
  view-update = λ n b. refl;
  reset_count = λ b. refl;
  reset_data = λ b. refl;
  parse_total = parse_records_total keep_record;
}

pub power_off-IsProfile : IsProfile power_off []
unfolding power_off clear parse_dlms_records
power_off-IsProfile = record {
  view-update = λ n b. refl;
  reset_count = λ b. refl;
  reset_data = λ b. refl;
  parse_total = parse_records_total keep_record;
}
