-- ===== src/Mqtt/Queues.antt =====
-- The state of `MQTTClient` of HES/inc/mqtt.h that the checks use, and its queues, oldest first.
-- Locks are left out: each operation is one step.
pub mod Laws
use atlascode.Prelude.{
  ℕ, ◌+◌, Bool, true, false, not, List, [], ◌∷◌, ◌++◌, Option, none, some, Bytes, leb,
  if◌then◌else◌, length, drop, contains,
}
use atlascode.Split.{explode}

abbrev pub max_queue_size : ℕ
max_queue_size = 500

-- `rf_meter_fuota` is `RF_Meter_FUOTA`, and `pending_fuota` is `RFMeterFUOTA`.
pub record MqttClient : Type 0 where
  pub odm : List Bytes
  pub failed : List Bytes
  pub rf_meter_fuota : List Bytes
  pub pending_fuota : List Bytes
  pub cancelled_requests : List Bytes
  pub odm_flag : ℕ
  pub global_seen_req_ids : List Bytes
  pub special_req_ids : List Bytes
  pub fuota_req_ids : List Bytes

-- A full queue drops its oldest command.
unfoldable pub push_bounded : List Bytes → Bytes → List Bytes
push_bounded q cmd = (if leb max_queue_size (length q) then drop 1 q else q) ++ cmd ∷ []

unfoldable pub enqueue_odm : MqttClient → Bytes → MqttClient
enqueue_odm c cmd = record c { odm = push_bounded c.odm cmd }

unfoldable pub enqueue_failed : MqttClient → Bytes → MqttClient
enqueue_failed c cmd = record c { failed = push_bounded c.failed cmd }

unfoldable pub enqueue_fuota : MqttClient → Bytes → MqttClient
enqueue_fuota c cmd = record c { rf_meter_fuota = push_bounded c.rf_meter_fuota cmd }

unfoldable pub resume_fuota : MqttClient → Bytes → MqttClient
resume_fuota c cmd = record c { pending_fuota = push_bounded c.pending_fuota cmd }

unfoldable pub check_rf_fuota_queue_empty : MqttClient → Bool
check_rf_fuota_queue_empty c = elim c.rf_meter_fuota [ [] ↦ true | _ ∷ _ ↦ false ]

-- The command where the source returns true, `none` where it returns false.
unfoldable pub dequeue_fuota : MqttClient → Option Bytes × MqttClient
dequeue_fuota c = elim c.rf_meter_fuota [
  | [] ↦ (none, c)
  | cmd ∷ rest ↦ (some cmd, record c { rf_meter_fuota = rest })
]

unfoldable pub dequeue_pending_fuota : MqttClient → Option Bytes × MqttClient
dequeue_pending_fuota c = elim c.pending_fuota [
  | [] ↦ (none, c)
  | cmd ∷ rest ↦ (some cmd, record c { pending_fuota = rest })
]

-- Whether `remove_commands_by_req_id` keeps a command.
unfoldable pub is_kept : List Bytes → Bytes → Bool
is_kept cancel_req_ids cmd = elim (explode cmd b':') [
  | [] ↦ true
  | p ∷ _ ↦ not (contains cancel_req_ids p)
]

unfoldable pub remove_commands_by_req_id : List Bytes → List Bytes → List Bytes
remove_commands_by_req_id [] cancel_req_ids = []
remove_commands_by_req_id (cmd ∷ queue) cancel_req_ids =
    let rest = remove_commands_by_req_id queue cancel_req_ids in
    if is_kept cancel_req_ids cmd then cmd ∷ rest else rest
