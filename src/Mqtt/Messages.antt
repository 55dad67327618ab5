-- ===== src/Mqtt/Messages.antt =====
-- `MQTTClient::validate_request_ids` of HES/src/mqtt.cpp: what becomes of the commands of a message.
pub mod Laws
pub mod Admitted
pub mod Complete
pub mod Outcome
pub mod Bounds
pub mod Replay
use atlascode.Prelude.{
  ℕ, zero, suc, ◌+◌, ◌-◌, ◌*◌, ◌^◌, Bool, true, false, not, ◌&&◌, ◌||◌, List, [], ◌∷◌, ◌++◌, Option,
  none, some, Bytes, codes, leb, ◌==◌, if◌then◌else◌, ◌>>=◌, get_or, length, take, drop, bytes_eq,
  contains,
}
use atlascode.Prelude.Signed.{ℤ, pos, negsuc}
use atlascode.Number.{stoi}
use atlascode.Split.{explode, find_char}
use atlascode.Mqtt.Queues.{
  MqttClient, enqueue_odm, enqueue_failed, enqueue_fuota, remove_commands_by_req_id,
}
use atlascode.Mqtt.Commands.{validate_command}

-- The parts of a command, by position.
abbrev pub req_id : List Bytes → Bytes
req_id parts = get_or parts 0 []

abbrev pub gateway_part : List Bytes → Bytes
gateway_part parts = get_or parts 1 []

abbrev pub hop_part : List Bytes → Bytes
hop_part parts = get_or parts 2 []

abbrev pub dest_part : List Bytes → Bytes
dest_part parts = get_or parts 3 []

abbrev pub type_part : List Bytes → Bytes
type_part parts = get_or parts 4 []

abbrev pub is_type : List Bytes → Bytes → Bool
is_type parts t = bytes_eq (type_part parts) t

unfoldable pub all_digits : Bytes → Bool
all_digits [] = true
all_digits (c ∷ s) = leb 48 c && leb c 57 && all_digits s

-- `while (size() > 2) pop_front()`
unfoldable pub keep_last_two : List Bytes → List Bytes
keep_last_two [] = []
keep_last_two (x ∷ []) = x ∷ []
keep_last_two (x ∷ y ∷ []) = x ∷ y ∷ []
keep_last_two (x ∷ y ∷ z ∷ q) = keep_last_two (y ∷ z ∷ q)

-- Which list of seen ids a command goes by.
pub data Target : Type 0 where
  special fuota global : Target

unfoldable pub target_set : List Bytes → Target
target_set parts =
    if is_type parts (codes "13") || is_type parts (codes "14")
    then special
    else if is_type parts (codes "27")
    then fuota
    else global

abbrev pub seen : Target → MqttClient → List Bytes
seen special c = c.special_req_ids
seen fuota c = c.fuota_req_ids
seen global c = c.global_seen_req_ids

abbrev pub set_seen : Target → MqttClient → List Bytes → MqttClient
set_seen special c ids = record c { special_req_ids = ids }
set_seen fuota c ids = record c { fuota_req_ids = ids }
set_seen global c ids = record c { global_seen_req_ids = ids }

-- `case REQUEST_ID`
unfoldable pub check_request_id : List Bytes → MqttClient → Bool × MqttClient
unfolding all_digits keep_last_two target_set
check_request_id parts c =
    let t = target_set parts in
    if not (all_digits (req_id parts))
    then (false, c)
    else if contains (seen t c) (req_id parts)
    then (false, c)
    else (true, set_seen t c (keep_last_two (seen t c ++ req_id parts ∷ [])))

-- `case GATEWAY_ID`
unfoldable pub check_gateway : Bytes → List Bytes → Bool
check_gateway gateway_id parts = not (
    not (length (gateway_part parts) == 16)
    || not (bytes_eq (take 16 (gateway_part parts)) gateway_id))

-- `size_t expected_len = 16 * (hop_count + 1)`: a negative length wraps. A hop count above 2^27 - 2
-- overflows `int`, which the source leaves undefined; here it gives its product.
unfoldable pub expected_len : ℤ → ℕ
expected_len (pos n) = 16 * (n + 1)
expected_len (negsuc zero) = 0
expected_len (negsuc (suc n)) = 2 ^ 64 - 16 * suc n

-- `case DEST_ADDR`
unfoldable pub check_destination : Bytes → List Bytes → Bool
unfolding expected_len
check_destination gateway_id parts = elim (stoi 10 (hop_part parts)) [
  | none ↦ false
  | some hop_count ↦ elim hop_count [
    | pos zero ↦ bytes_eq (gateway_part parts) (dest_part parts)
    | pos (suc n) ↦
        length (dest_part parts) == expected_len (pos (suc n))
        && bytes_eq (take 16 (dest_part parts)) gateway_id
    | negsuc n ↦
        length (dest_part parts) == expected_len (negsuc n)
        && bytes_eq (take 16 (dest_part parts)) gateway_id
  ]
]

unfoldable pub allowed_cmds : List Bytes
allowed_cmds =
    codes "00"
    ∷ codes "01"
    ∷ codes "02"
    ∷ codes "03"
    ∷ codes "04"
    ∷ codes "05"
    ∷ codes "06"
    ∷ codes "07"
    ∷ codes "08"
    ∷ codes "09"
    ∷ codes "10"
    ∷ codes "11"
    ∷ codes "12"
    ∷ codes "13"
    ∷ codes "14"
    ∷ codes "15"
    ∷ codes "16"
    ∷ codes "17"
    ∷ codes "18"
    ∷ codes "19"
    ∷ codes "20"
    ∷ codes "21"
    ∷ codes "22"
    ∷ codes "23"
    ∷ codes "24"
    ∷ codes "25"
    ∷ codes "26"
    ∷ codes "27"
    ∷ codes "28"
    ∷ codes "29"
    ∷ codes "30"
    ∷ codes "31"
    ∷ []

-- `case PING_COUNT` and `case PING_INTERVAL`, for part `i`
unfoldable pub check_ping : ℕ → List Bytes → Bool
check_ping i parts =
    if is_type parts (codes "13")
    then elim (stoi 10 (get_or parts i [])) [
      | none ↦ false
      | some value ↦ elim value [ pos n ↦ leb 1 n && leb n 3 | negsuc _ ↦ false ]
    ]
    else true

-- The switch over the position of a part.
unfoldable pub check_part : Bytes → List Bytes → ℕ → MqttClient → Option (Bool × MqttClient)
check_part gateway_id parts idx c =
    if idx == 0
    then some (check_request_id parts c)
    else if idx == 1
    then some (check_gateway gateway_id parts, c)
    else if idx == 3
    then some (check_destination gateway_id parts, c)
    else if idx == 4
    then some (contains allowed_cmds (type_part parts), c)
    else if idx == 5
    then (do valid ← validate_command parts; some (valid, c))
    else if idx == 6 || idx == 7
    then some (check_ping idx parts, c)
    else some (true, c)

-- The loop over the positions, `n` of them left from `idx` on; it ends with the first check that fails.
unfoldable pub check_parts : Bytes → List Bytes → ℕ → ℕ → MqttClient → Option (Bool × MqttClient)
unfolding check_part
check_parts gateway_id parts zero idx c = some (true, c)
check_parts gateway_id parts (suc n) idx c = do
  (valid, c') ← check_part gateway_id parts idx c
  elim valid [ false ↦ some (false, c') | true ↦ check_parts gateway_id parts n (suc idx) c' ]

-- The queue that a checked command goes to.
unfoldable pub enqueue_checked : Bool → List Bytes → Bytes → MqttClient → MqttClient
enqueue_checked valid parts cmd c =
    if valid
    then (if is_type parts (codes "27") || is_type parts (codes "28")
        then enqueue_fuota c cmd
        else enqueue_odm c cmd)
    else enqueue_failed c cmd

-- Where a '-' separates commands, the group id before the first ':' is taken off. With no ':' the
-- position behind it is 0.
unfoldable pub without_group : Bytes → Bytes
without_group msg = elim (find_char b'-' msg) [
  | none ↦ msg
  | some _ ↦ elim (find_char b':' msg) [ none ↦ msg | some i ↦ drop (suc i) msg ]
]

-- `CANCEL:id:id:...`. The order in which the set of ids is walked is the library's.
module _ (walk : List Bytes → List Bytes) where
  unfoldable pub cancel : List Bytes → MqttClient → MqttClient
  unfolding remove_commands_by_req_id
  cancel ids c = record c {
    odm = remove_commands_by_req_id c.odm ids;
    rf_meter_fuota = remove_commands_by_req_id c.rf_meter_fuota ids;
    cancelled_requests = c.cancelled_requests ++ walk ids;
  }

  -- One command of a message.
  unfoldable pub process_command : Bytes → Bytes → MqttClient → Option MqttClient
  process_command gateway_id cmd c =
      let parts = explode cmd b':' in
      if bytes_eq (req_id parts) (codes "CANCEL")
      then some (cancel (drop 1 parts) c)
      else if not (length parts == 6 || length parts == 7 || length parts == 8)
      then some (enqueue_failed c cmd)
      else if length parts == 6 && is_type parts (codes "13")
      then some (enqueue_failed c cmd)
      else (do
        (valid, c') ← check_parts gateway_id parts (length parts) 0 c
        some (enqueue_checked valid parts cmd c'))

  unfoldable pub process_commands : Bytes → List Bytes → MqttClient → Option MqttClient
  process_commands gateway_id [] c = some c
  process_commands gateway_id (cmd ∷ cmds) c = do
    c' ← process_command gateway_id cmd c
    process_commands gateway_id cmds c'

  unfoldable pub validate_request_ids : Bytes → Bytes → MqttClient → Option MqttClient
  validate_request_ids message gateway_id c = do
    c' ← process_commands gateway_id (explode (without_group message) b'-') c
    some (record c' { odm_flag = 1 })
