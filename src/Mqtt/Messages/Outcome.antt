-- ===== src/Mqtt/Messages/Outcome.antt =====
-- What one command of a message does to the state: it cancels, it is refused, or it is queued.
use atlascode.Prelude.{
  ◌≤◌, ◌<◌, ◌≡◌, ◌⊎◌, inl, inr, sym, ◌∙◌, Option, Bool, true, false, ◌&&◌, ◌||◌, List, some, Bytes,
  codes, arith, ◌==◌, length, drop, bytes_eq, bytes_eq_sound, contains, Bool-cases, bind-eq-some,
}
use atlascode.Split.{explode}
use atlascode.Mqtt.Queues.{MqttClient, enqueue_odm, enqueue_failed}
use atlascode.Mqtt.Commands.Laws.{validate_command_fuota}
use atlascode.Mqtt.Messages.{
  req_id, is_type, target_set, seen, check_parts, enqueue_checked, cancel, process_command,
}
use atlascode.Mqtt.Messages.Laws.{Checked, Checked-refl, check_parts-Checked}
use atlascode.Mqtt.Messages.Admitted.{IsPing, IsAdmitted, check_parts-IsAdmitted}
use atlascode.Mqtt.Messages.Complete.{recorded, check_parts_again, IsAdmitted-check_parts}

same_state :
    (a b : MqttClient)
    → ◌≡◌ {A = Option (Bool × MqttClient)} (some (true, a)) (some (true, b))
    → b ≡ a
same_state a b e = cc

module _ (walk : List Bytes → List Bytes) (gateway_id cmd : Bytes) where
  -- The command is admitted by its text, and its id is not among those seen last of its kind.
  pub record IsNew (c : MqttClient) : Type 0 where
    pub admitted : IsAdmitted gateway_id cmd
    pub unseen :
        contains (seen (target_set (explode cmd b':')) c) (req_id (explode cmd b':')) ≡ false

  -- The three ways in which a command ends, from `c` to `c'`.
  pub data Outcome (c c' : MqttClient) : Type 0 where
    cancelled :
        req_id (explode cmd b':') ≡ codes "CANCEL"
        → c' ≡ cancel walk (drop 1 (explode cmd b':')) c
        → Outcome c c'
    refused :
        (mid : MqttClient)
        → ¬ (IsNew c)
        → bytes_eq (req_id (explode cmd b':')) (codes "CANCEL") ≡ false
        → Checked c mid
        → c' ≡ enqueue_failed mid cmd
        → Outcome c c'
    queued :
        IsNew c
        → Checked c (recorded (explode cmd b':') c)
        → c' ≡ enqueue_odm (recorded (explode cmd b':') c) cmd
        → Outcome c c'

  unseen_lem :
      (c mid : MqttClient)
      → 0 < length (explode cmd b':')
      → check_parts gateway_id (explode cmd b':') (length (explode cmd b':')) 0 c ≡ some (true, mid)
      → contains (seen (target_set (explode cmd b':')) c) (req_id (explode cmd b':')) ≡ false
  unseen_lem c mid more e =
      let parts = explode cmd b':' in
      elim (Bool-cases (contains (seen (target_set parts) c) (req_id parts))) [
        | inr f ↦ f
        | inl f ↦
            let again = check_parts_again gateway_id parts (length parts) c more f in
            absurd (ground (arith, rw again at e))
      ]

  -- The count of parts with which a command comes to the checks.
  record IsCounted : Type 0 where
    low : 6 ≤ length (explode cmd b':')
    high : length (explode cmd b':') ≤ 8
    counted : (length (explode cmd b':') == 6 && is_type (explode cmd b':') (codes "13")) ≡ false
    command : bytes_eq (req_id (explode cmd b':')) (codes "CANCEL") ≡ false

  checked-Outcome :
      (c mid c' : MqttClient) (valid : Bool)
      → IsCounted
      → check_parts gateway_id (explode cmd b':') (length (explode cmd b':')) 0 c
        ≡ some (valid, mid)
      → enqueue_checked valid (explode cmd b':') cmd mid ≡ c'
      → Outcome c c'
  unfolding enqueue_checked
  checked-Outcome c mid c' false k e q =
      refused mid
        (λ n.
          let all = IsAdmitted-check_parts gateway_id cmd n.admitted c n.unseen in
          absurd (ground (arith, rw all at e)))
        k.command
        (check_parts-Checked gateway_id (explode cmd b':') (length (explode cmd b':')) 0 c mid false
          e)
        (sym q)
  checked-Outcome c mid c' true k e q =
      let parts = explode cmd b':' in
      let low = k.low in
      let admitted = check_parts-IsAdmitted gateway_id cmd c mid k.low k.high k.counted e in
      let unseen = unseen_lem c mid (omega arith) e in
      let all = IsAdmitted-check_parts gateway_id cmd admitted c unseen in
      let same : mid ≡ recorded parts c = same_state (recorded parts c) mid (sym all ∙ e) in
      let checked = check_parts-Checked gateway_id parts (length parts) 0 c mid true e in
      elim (Bool-cases (is_type parts (codes "27") || is_type parts (codes "28"))) [
        | inl f ↦ absurd (validate_command_fuota parts f admitted.command)
        | inr f ↦
            queued (record { admitted = admitted; unseen = unseen }) (rw same at checked)
              (rw same at (sym (rw f at q)))
      ]

  -- A command that is processed without an exception ends in one of three ways. If its id is CANCEL, it
  -- cancels the requests with the ids that follow. If it is admitted by its text and its id is not among
  -- the ones seen last of its kind, it goes to the queue of on-demand commands, and its id is then among
  -- them. Otherwise it goes to the queue of failed commands, and only the lists of seen ids may have
  -- changed besides, within their bounds.
  pub process_command-Outcome :
      (c c' : MqttClient) → process_command walk gateway_id cmd c ≡ some c' → Outcome c c'
  unfolding process_command
  process_command-Outcome c c' e =
      let parts = explode cmd b':' in
      elim (Bool-cases (bytes_eq (req_id parts) (codes "CANCEL"))) [
        | inl f ↦
            cancelled (bytes_eq_sound (req_id parts) (codes "CANCEL") f) (ground (arith, rw f at e))
        | inr f ↦ elim (Bool-cases (length parts == 6 || length parts == 7 || length parts == 8)) [
          | inr g ↦
              refused c
                (λ n.
                  let low = n.admitted.count in
                  let high = n.admitted.count_bound in absurd (ground arith))
                f (Checked-refl c) (ground (arith, rw (f, g) at e))
          | inl g ↦ elim (Bool-cases (length parts == 6 && is_type parts (codes "13"))) [
            | inl h ↦
                refused c (λ n. short_ping n.admitted.ping h) f (Checked-refl c)
                  (ground (arith, rw (f, g, h) at e))
            | inr h ↦
                let (r, q, last) =
                  bind-eq-some (check_parts gateway_id parts (length parts) 0 c) _
                    (rw (f, g, h) at e) in
                checked-Outcome c r.1 c' r.0
                  (record { low = ground arith; high = ground arith; counted = h; command = f }) q
                  (ground arith)
          ]
        ]
      ]
    where
      short_ping :
          (is_type (explode cmd b':') (codes "13") ≡ false) ⊎ IsPing (explode cmd b':')
          → (length (explode cmd b':') == 6 && is_type (explode cmd b':') (codes "13")) ≡ true
          → ⊥
      short_ping (inl t) h = absurd (ground arith)
      short_ping (inr p) h = let n = p.has_count in absurd (ground arith)
