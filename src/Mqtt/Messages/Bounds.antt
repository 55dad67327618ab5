-- ===== src/Mqtt/Messages/Bounds.antt =====
-- What a whole message does to the queues of `MQTTClient`.
use atlascode.Prelude.{
  ◌≤◌, ◌≡◌, inl, inr, List, [], ◌∷◌, ◌++◌, some, Bytes, arith, leb, length, drop, Bool-cases,
  bind-eq-some,
}
use atlascode.Split.{explode}
use atlascode.Mqtt.Queues.{
  max_queue_size, MqttClient, push_bounded, enqueue_odm, enqueue_failed, is_kept,
  remove_commands_by_req_id,
}
use atlascode.Mqtt.Queues.Laws.{push_bounded-length, remove_commands-length}
use atlascode.Mqtt.Messages.{
  cancel, process_command, process_commands, validate_request_ids, without_group,
}
use atlascode.Mqtt.Messages.Laws.{IsSeenBounded, Checked}
use atlascode.Mqtt.Messages.Admitted.{IsAdmitted}
use atlascode.Mqtt.Messages.Complete.{recorded}
use atlascode.Mqtt.Messages.Outcome.{Outcome, cancelled, refused, queued, process_command-Outcome}

abbrev pub AreAdmitted : Bytes → List Bytes → Type 0
AreAdmitted gateway_id [] = Unit {0}
AreAdmitted gateway_id (cmd ∷ q) = IsAdmitted gateway_id cmd × AreAdmitted gateway_id q

AreAdmitted-push :
    (gateway_id : Bytes) (q : List Bytes) (cmd : Bytes)
    → AreAdmitted gateway_id q
    → IsAdmitted gateway_id cmd
    → AreAdmitted gateway_id (q ++ cmd ∷ [])
AreAdmitted-push gateway_id [] cmd h a = (a, tt)
AreAdmitted-push gateway_id (x ∷ q) cmd (hx, h) a = (hx, AreAdmitted-push gateway_id q cmd h a)

AreAdmitted-drop :
    (gateway_id : Bytes) (q : List Bytes)
    → AreAdmitted gateway_id q
    → AreAdmitted gateway_id (drop 1 q)
AreAdmitted-drop gateway_id [] h = tt
AreAdmitted-drop gateway_id (x ∷ q) (hx, h) = h

AreAdmitted-push_bounded :
    (gateway_id : Bytes) (q : List Bytes) (cmd : Bytes)
    → AreAdmitted gateway_id q
    → IsAdmitted gateway_id cmd
    → AreAdmitted gateway_id (push_bounded q cmd)
unfolding push_bounded
AreAdmitted-push_bounded gateway_id q cmd h a = elim (Bool-cases (leb max_queue_size (length q))) [
  | inl e ↦ rw e (AreAdmitted-push gateway_id (drop 1 q) cmd (AreAdmitted-drop gateway_id q h) a)
  | inr e ↦ rw e (AreAdmitted-push gateway_id q cmd h a)
]

AreAdmitted-remove :
    (gateway_id : Bytes) (q ids : List Bytes)
    → AreAdmitted gateway_id q
    → AreAdmitted gateway_id (remove_commands_by_req_id q ids)
unfolding remove_commands_by_req_id
AreAdmitted-remove gateway_id [] ids h = tt
AreAdmitted-remove gateway_id (x ∷ q) ids (hx, h) =
    let ih = AreAdmitted-remove gateway_id q ids h in
    elim (Bool-cases (is_kept ids x)) [ inl e ↦ rw e (hx, ih) | inr e ↦ rw e ih ]

-- The queues and the lists of seen ids within their bounds, and the on-demand commands admitted.
pub record IsQueued (gateway_id : Bytes) (c : MqttClient) : Type 0 where
  pub odm_bound : length c.odm ≤ max_queue_size
  pub failed_bound : length c.failed ≤ max_queue_size
  pub fuota_bound : length c.rf_meter_fuota ≤ max_queue_size
  pub seen : IsSeenBounded c
  pub admitted : AreAdmitted gateway_id c.odm

Checked-IsQueued :
    (gateway_id : Bytes) (c c' : MqttClient)
    → Checked c c'
    → IsQueued gateway_id c
    → IsQueued gateway_id c'
Checked-IsQueued gateway_id c c' k h = record {
  odm_bound = rw k.odm h.odm_bound;
  failed_bound = rw k.failed h.failed_bound;
  fuota_bound = rw k.rf_meter_fuota h.fuota_bound;
  seen = k.seen_bound h.seen;
  admitted = rw k.odm h.admitted;
}

enqueue_failed-IsQueued :
    (gateway_id cmd : Bytes) (c : MqttClient)
    → IsQueued gateway_id c
    → IsQueued gateway_id (enqueue_failed c cmd)
unfolding enqueue_failed
enqueue_failed-IsQueued gateway_id cmd c h = record {
  odm_bound = h.odm_bound;
  failed_bound = push_bounded-length c.failed cmd h.failed_bound;
  fuota_bound = h.fuota_bound;
  seen = record {
    global_bound = h.seen.global_bound;
    special_bound = h.seen.special_bound;
    fuota_bound = h.seen.fuota_bound;
  };
  admitted = h.admitted;
}

enqueue_odm-IsQueued :
    (gateway_id cmd : Bytes) (c : MqttClient)
    → IsAdmitted gateway_id cmd
    → IsQueued gateway_id c
    → IsQueued gateway_id (enqueue_odm c cmd)
unfolding enqueue_odm
enqueue_odm-IsQueued gateway_id cmd c a h = record {
  odm_bound = push_bounded-length c.odm cmd h.odm_bound;
  failed_bound = h.failed_bound;
  fuota_bound = h.fuota_bound;
  seen = record {
    global_bound = h.seen.global_bound;
    special_bound = h.seen.special_bound;
    fuota_bound = h.seen.fuota_bound;
  };
  admitted = AreAdmitted-push_bounded gateway_id c.odm cmd h.admitted a;
}

module _ (walk : List Bytes → List Bytes) (gateway_id : Bytes) where
  cancel-IsQueued :
      (ids : List Bytes) (c : MqttClient)
      → IsQueued gateway_id c
      → IsQueued gateway_id (cancel walk ids c)
  unfolding cancel
  cancel-IsQueued ids c h = record {
    odm_bound = omega (arith, remove_commands-length c.odm ids, h.odm_bound);
    failed_bound = h.failed_bound;
    fuota_bound = omega (arith, remove_commands-length c.rf_meter_fuota ids, h.fuota_bound);
    seen = record {
      global_bound = h.seen.global_bound;
      special_bound = h.seen.special_bound;
      fuota_bound = h.seen.fuota_bound;
    };
    admitted = AreAdmitted-remove gateway_id c.odm ids h.admitted;
  }

  Outcome-IsQueued :
      (cmd : Bytes) (c c' : MqttClient)
      → Outcome walk gateway_id cmd c c'
      → IsQueued gateway_id c
      → IsQueued gateway_id c'
  Outcome-IsQueued cmd c c' (cancelled i e) h =
      rw e (cancel-IsQueued (drop 1 (explode cmd b':')) c h)
  Outcome-IsQueued cmd c c' (refused mid n i k e) h =
      rw e (enqueue_failed-IsQueued gateway_id cmd mid (Checked-IsQueued gateway_id c mid k h))
  Outcome-IsQueued cmd c c' (queued n k e) h =
      let mid = recorded (explode cmd b':') c in
      rw e
        (enqueue_odm-IsQueued gateway_id cmd mid n.admitted (Checked-IsQueued gateway_id c mid k h))

  Outcome-fuota :
      (cmd : Bytes) (c c' : MqttClient)
      → Outcome walk gateway_id cmd c c'
      → length c'.rf_meter_fuota ≤ length c.rf_meter_fuota
  unfolding cancel enqueue_failed enqueue_odm
  Outcome-fuota cmd c c' (cancelled i e) =
      rw e (remove_commands-length c.rf_meter_fuota (drop 1 (explode cmd b':')))
  Outcome-fuota cmd c c' (refused mid n i k e) = rw (e, k.rf_meter_fuota) (omega arith)
  Outcome-fuota cmd c c' (queued n k e) = rw (e, k.rf_meter_fuota) (omega arith)

  process_commands-IsQueued :
      (cmds : List Bytes) (c c' : MqttClient)
      → process_commands walk gateway_id cmds c ≡ some c'
      → IsQueued gateway_id c
      → IsQueued gateway_id c'
  unfolding process_commands
  process_commands-IsQueued [] c c' e h = let same : c ≡ c' = ground arith in rw same at h
  process_commands-IsQueued (cmd ∷ cmds) c c' e h =
      let (mid, first, rest) = bind-eq-some (process_command walk gateway_id cmd c) _ e in
      process_commands-IsQueued cmds mid c' rest
        (Outcome-IsQueued cmd c mid (process_command-Outcome walk gateway_id cmd c mid first) h)

  process_commands-fuota :
      (cmds : List Bytes) (c c' : MqttClient)
      → process_commands walk gateway_id cmds c ≡ some c'
      → length c'.rf_meter_fuota ≤ length c.rf_meter_fuota
  unfolding process_commands
  process_commands-fuota [] c c' e = let same : c ≡ c' = ground arith in rw same (omega arith)
  process_commands-fuota (cmd ∷ cmds) c c' e =
      let (mid, first, rest) = bind-eq-some (process_command walk gateway_id cmd c) _ e in
      let one = Outcome-fuota cmd c mid (process_command-Outcome walk gateway_id cmd c mid first) in
      let more = process_commands-fuota cmds mid c' rest in omega arith

  -- If the queues of on-demand, failed and firmware commands hold at most 500 commands each, the
  -- lists of seen ids at most two, and the on-demand queue only commands that are admitted by their text,
  -- then this is so after a message that is processed without an exception. A command is admitted with 6
  -- to 8 parts, an id of digits, the gateway's own address of 16 characters, a destination that fits its
  -- hops, an allowed type and sub-command, and for a ping with a count and an interval of 1 to 3.
  pub validate_request_ids-IsQueued :
      (message : Bytes) (c c' : MqttClient)
      → validate_request_ids walk message gateway_id c ≡ some c'
      → IsQueued gateway_id c
      → IsQueued gateway_id c'
  unfolding validate_request_ids
  validate_request_ids-IsQueued message c c' e h =
      let (mid, first, rest) =
        bind-eq-some (process_commands walk gateway_id (explode (without_group message) b'-') c) _
          e in
      let done = process_commands-IsQueued (explode (without_group message) b'-') c mid first h in
      let same : record mid { odm_flag = 1 } ≡ c' = ground arith in rw same at (flagged mid done)
    where
      flagged :
          (m : MqttClient) → IsQueued gateway_id m → IsQueued gateway_id (record m { odm_flag = 1 })
      flagged m q = record {
        odm_bound = q.odm_bound;
        failed_bound = q.failed_bound;
        fuota_bound = q.fuota_bound;
        seen = record {
          global_bound = q.seen.global_bound;
          special_bound = q.seen.special_bound;
          fuota_bound = q.seen.fuota_bound;
        };
        admitted = q.admitted;
      }

  -- No message that is processed without an exception makes the queue of firmware updates longer,
  -- also none with commands of the types 27 and 28, which are meant for it.
  pub validate_request_ids-fuota :
      (message : Bytes) (c c' : MqttClient)
      → validate_request_ids walk message gateway_id c ≡ some c'
      → length c'.rf_meter_fuota ≤ length c.rf_meter_fuota
  unfolding validate_request_ids
  validate_request_ids-fuota message c c' e =
      let (mid, first, rest) =
        bind-eq-some (process_commands walk gateway_id (explode (without_group message) b'-') c) _
          e in
      let done = process_commands-fuota (explode (without_group message) b'-') c mid first in
      let same : c'.rf_meter_fuota ≡ mid.rf_meter_fuota = ground arith in rw same done
