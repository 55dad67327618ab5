-- ===== src/Tests/Commands.antt =====
-- Commands of the broker.
use atlascode.Prelude.{
  true, false, ◌-◌, ◌≤◌, ◌≡◌, refl, ◌||◌, ◌&&◌, List, [], ◌∷◌, ◌++◌, some, Bytes, bytes_eq,
  contains, codes, length, ◌==◌, arith,
}
use atlascode.Number.{stoi}
use atlascode.Hex.{hex_to_bytes}
use atlascode.Split.{explode}
use atlascode.Mqtt.Queues.{MqttClient, push_bounded, enqueue_odm, enqueue_failed}
use atlascode.Mqtt.Commands.{command_matches, validate_command}
use atlascode.Mqtt.Commands.Laws.{command_matches_events}
use atlascode.Mqtt.Messages.{
  validate_request_ids, process_commands, without_group, process_command, check_parts,
  check_request_id, check_gateway, check_destination, allowed_cmds, enqueue_checked, is_type,
}
use atlascode.Mqtt.Messages.Outcome.{Outcome, process_command-Outcome}
use atlascode.Mqtt.Messages.Replay.{process_command_twice}
use atlascode.Mqtt.Messages.Bounds.{
  IsQueued, validate_request_ids-IsQueued, validate_request_ids-fuota,
}

abbrev gateway : Bytes
gateway = codes "3CC1F601AB0009FF"

abbrev no_commands : MqttClient
no_commands = record {
  odm = [];
  failed = [];
  rf_meter_fuota = [];
  pending_fuota = [];
  cancelled_requests = [];
  odm_flag = 0;
  global_seen_req_ids = [];
  special_req_ids = [];
  fuota_req_ids = [];
}

-- An instantaneous read of the gateway's own meter.
abbrev read_command : Bytes
read_command = codes "42:3CC1F601AB0009FF:0:3CC1F601AB0009FF:01:0000000001000000"

abbrev firmware_command : Bytes
firmware_command = codes "43:3CC1F601AB0009FF:0:3CC1F601AB0009FF:27:0000000000000000"

abbrev walk : List Bytes → List Bytes
walk ids = ids

abbrev after_read : MqttClient
after_read = record no_commands {
  odm = read_command ∷ [];
  global_seen_req_ids = codes "42" ∷ [];
  odm_flag = 1;
}

abbrev after_both : MqttClient
after_both = record after_read { failed = firmware_command ∷ []; fuota_req_ids = codes "43" ∷ [] }

message_run :
    validate_request_ids walk
      (codes "7:" ++ (read_command ++ b'-' ∷ firmware_command))
      gateway
      no_commands
    ≡ some after_both
unfolding validate_request_ids process_commands without_group process_command bytes_eq explode
    check_parts check_request_id contains check_gateway check_destination stoi allowed_cmds
    validate_command hex_to_bytes enqueue_checked enqueue_odm push_bounded enqueue_failed
message_run = refl

read_run :
    process_command walk gateway read_command no_commands
    ≡ some (record after_read { odm_flag = 0 })
unfolding process_command bytes_eq explode check_parts check_request_id contains check_gateway
    check_destination stoi allowed_cmds validate_command hex_to_bytes enqueue_checked enqueue_odm
    push_bounded
read_run = refl

no_commands-IsQueued : IsQueued gateway no_commands
no_commands-IsQueued = ground arith

validate_request_ids-IsQueued_example : IsQueued gateway after_both
validate_request_ids-IsQueued_example =
    validate_request_ids-IsQueued walk gateway
      (codes "7:" ++ (read_command ++ b'-' ∷ firmware_command)) no_commands after_both message_run
      no_commands-IsQueued

validate_request_ids-fuota_example :
    length after_both.rf_meter_fuota ≤ length no_commands.rf_meter_fuota
validate_request_ids-fuota_example =
    validate_request_ids-fuota walk gateway
      (codes "7:" ++ (read_command ++ b'-' ∷ firmware_command)) no_commands after_both message_run

process_command-Outcome_example :
    Outcome walk gateway read_command no_commands (record after_read { odm_flag = 0 })
process_command-Outcome_example =
    process_command-Outcome walk gateway read_command no_commands
      (record after_read { odm_flag = 0 }) read_run

event_command : command_matches 7 9 2 0 ≡ (9 == 8 || 2 == 7 - 5)
event_command = command_matches_events 7 9 2 0 (omega arith) (omega arith)

abbrev read_checked : MqttClient
read_checked = record no_commands { global_seen_req_ids = codes "42" ∷ [] }

read_checks :
    check_parts gateway
      (explode read_command b':')
      (length (explode read_command b':'))
      0
      no_commands
    ≡ some (true, read_checked)
unfolding bytes_eq explode check_parts check_request_id contains check_gateway check_destination
    stoi allowed_cmds validate_command hex_to_bytes
read_checks = refl

six_parts : length (explode read_command b':') ≡ 6
unfolding explode
six_parts = refl

no_ping :
    (length (explode read_command b':') == 6 && is_type (explode read_command b':') (codes "13"))
    ≡ false
unfolding explode bytes_eq
no_ping = refl

process_command_twice_example :
    (process_command walk gateway read_command no_commands
      ≡ some (enqueue_odm read_checked read_command))
    × (process_command walk gateway read_command (enqueue_odm read_checked read_command)
        ≡ some (enqueue_failed (enqueue_odm read_checked read_command) read_command))
process_command_twice_example =
    process_command_twice walk gateway read_command no_commands read_checked
      (omega (arith, six_parts)) (omega (arith, six_parts)) no_ping read_checks
