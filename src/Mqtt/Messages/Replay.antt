-- ===== src/Mqtt/Messages/Replay.antt =====
-- What becomes of a command that the broker sends twice.
use atlascode.Prelude.{
  ℕ, zero, suc, ◌≤◌, ◌<◌, ◌≡◌, refl, ◌∙◌, inl, inr, Bool, true, false, ◌&&◌, ◌||◌, List, [], ◌∷◌,
  ◌++◌, Option, some, Bytes, codes, arith, ◌==◌, length, bytes_eq, bytes_eq_sound, bytes_eq_refl,
  contains, Bool-cases, bind-eq-some,
}
use atlascode.Split.{explode}
use atlascode.Mqtt.Queues.{MqttClient, enqueue_odm, enqueue_failed}
use atlascode.Mqtt.Commands.{validate_command}
use atlascode.Mqtt.Commands.Laws.{validate_command_fuota}
use atlascode.Mqtt.Messages.{
  req_id, is_type, all_digits, keep_last_two, Target, special, fuota, global, target_set, seen,
  set_seen, check_request_id, check_part, check_parts, enqueue_checked, process_command,
}
use atlascode.Mqtt.Messages.Admitted.{check_parts-IsAdmitted}
use atlascode.Mqtt.Messages.Complete.{check_parts_again}

newest_kept : (ids : List Bytes) (id : Bytes) → contains (keep_last_two (ids ++ id ∷ [])) id ≡ true
unfolding keep_last_two contains
newest_kept [] id = ground (arith, bytes_eq_refl id)
newest_kept (x ∷ []) id = ground (arith, bytes_eq_refl id)
newest_kept (x ∷ y ∷ []) id = ground (arith, bytes_eq_refl id)
newest_kept (x ∷ y ∷ z ∷ ids) id = newest_kept (y ∷ z ∷ ids) id

seen-set_seen : (t : Target) (c : MqttClient) (ids : List Bytes) → seen t (set_seen t c ids) ≡ ids
seen-set_seen special c ids = refl
seen-set_seen fuota c ids = refl
seen-set_seen global c ids = refl

seen-enqueue_odm :
    (t : Target) (c : MqttClient) (cmd : Bytes) → seen t (enqueue_odm c cmd) ≡ seen t c
unfolding enqueue_odm
seen-enqueue_odm special c cmd = refl
seen-enqueue_odm fuota c cmd = refl
seen-enqueue_odm global c cmd = refl

-- The id of a command that passes is among those seen.
check_request_id-seen :
    (parts : List Bytes) (c : MqttClient)
    → (check_request_id parts c).0 ≡ true
    → contains (seen (target_set parts) (check_request_id parts c).1) (req_id parts) ≡ true
unfolding check_request_id
check_request_id-seen parts c e = elim (Bool-cases (all_digits (req_id parts))) [
  | inr f ↦ absurd (ground (arith, rw f at e))
  | inl f ↦ elim (Bool-cases (contains (seen (target_set parts) c) (req_id parts))) [
    | inl g ↦ absurd (ground (arith, rw (f, g) at e))
    | inr g ↦
        let ids : List Bytes = keep_last_two (seen (target_set parts) c ++ req_id parts ∷ []) in
        rw (f, g, seen-set_seen (target_set parts) c ids)
          (newest_kept (seen (target_set parts) c) (req_id parts))
  ]
]

-- Only the check of the id changes the state.
check_part_later :
    (gateway_id : Bytes) (parts : List Bytes) (idx : ℕ) (c c' : MqttClient) (valid : Bool)
    → check_part gateway_id parts (suc idx) c ≡ some (valid, c')
    → c' ≡ c
unfolding check_part
check_part_later gateway_id parts idx c c' valid e = elim (Bool-cases (suc idx == 5)) [
  | inl f ↦
      let same : idx ≡ 4 = ground arith in
      let (v, q, last) = bind-eq-some (validate_command parts) _ (rw same at e) in ground arith
  | inr f ↦ ground arith
]

check_parts_later :
    (gateway_id : Bytes) (parts : List Bytes) (n idx : ℕ) (c c' : MqttClient) (valid : Bool)
    → check_parts gateway_id parts n (suc idx) c ≡ some (valid, c')
    → c' ≡ c
unfolding check_parts
check_parts_later gateway_id parts zero idx c c' valid e = ground arith
check_parts_later gateway_id parts (suc n) idx c c' valid e =
    let ((v, mid), first, rest) = bind-eq-some (check_part gateway_id parts (suc idx) c) _ e in
    go v mid (check_part_later gateway_id parts idx c mid v first) rest
      (λ q. check_parts_later gateway_id parts n (suc idx) mid c' valid q)
  where
    go :
        (v : Bool) (mid : MqttClient)
        → mid ≡ c
        → ◌≡◌ {A = Option (Bool × MqttClient)}
            (elim v [
              | false ↦ some (false, mid)
              | true ↦ check_parts gateway_id parts n (suc (suc idx)) mid
            ])
            (some (valid, c'))
        → (check_parts gateway_id parts n (suc (suc idx)) mid ≡ some (valid, c') → c' ≡ mid)
        → c' ≡ c
    go false mid same e again = ground arith
    go true mid same e again = again e ∙ same

-- What the checks of a command that passes leave behind, and what they say of a command seen before.
check_parts-seen :
    (gateway_id : Bytes) (parts : List Bytes) (n : ℕ) (c c' : MqttClient)
    → 0 < n
    → check_parts gateway_id parts n 0 c ≡ some (true, c')
    → contains (seen (target_set parts) c') (req_id parts) ≡ true
unfolding check_parts check_part
check_parts-seen gateway_id parts zero c c' more e = elim more [ ]
check_parts-seen gateway_id parts (suc n) c c' more e =
    go (check_request_id parts c).0 (check_request_id parts c).1 (check_request_id-seen parts c) e
  where
    go :
        (v : Bool) (mid : MqttClient)
        → (v ≡ true → contains (seen (target_set parts) mid) (req_id parts) ≡ true)
        → ◌≡◌ {A = Option (Bool × MqttClient)}
            (elim v [ false ↦ some (false, mid) | true ↦ check_parts gateway_id parts n 1 mid ])
            (some (true, c'))
        → contains (seen (target_set parts) c') (req_id parts) ≡ true
    go false mid h e = absurd (ground arith)
    go true mid h e =
        let same = check_parts_later gateway_id parts n 0 mid c' true e in rw same (h refl)

not_cancel :
    (parts : List Bytes)
    → all_digits (req_id parts) ≡ true
    → bytes_eq (req_id parts) (codes "CANCEL") ≡ false
unfolding all_digits
not_cancel parts h = elim (Bool-cases (bytes_eq (req_id parts) (codes "CANCEL"))) [
  | inr e ↦ e
  | inl e ↦
      let same = bytes_eq_sound (req_id parts) (codes "CANCEL") e in
      absurd (ground (arith, rw same at h))
]

not_fuota :
    (parts : List Bytes)
    → validate_command parts ≡ some true
    → (is_type parts (codes "27") || is_type parts (codes "28")) ≡ false
not_fuota parts h = elim (Bool-cases (is_type parts (codes "27") || is_type parts (codes "28"))) [
  | inr e ↦ e
  | inl e ↦ absurd (validate_command_fuota parts e h)
]

module _ (walk : List Bytes → List Bytes) (gateway_id cmd : Bytes) (c c' : MqttClient) where
  -- A command of 6 to 8 parts, not a ping with 6 parts, that passes all checks is queued as an
  -- on-demand command; when the same command comes next, it goes to the failed commands and nothing
  -- else changes.
  pub process_command_twice :
      6 ≤ length (explode cmd b':')
      → length (explode cmd b':') ≤ 8
      → (length (explode cmd b':') == 6 && is_type (explode cmd b':') (codes "13")) ≡ false
      → check_parts gateway_id (explode cmd b':') (length (explode cmd b':')) 0 c ≡ some (true, c')
      → (process_command walk gateway_id cmd c ≡ some (enqueue_odm c' cmd))
        × (process_command walk gateway_id cmd (enqueue_odm c' cmd)
            ≡ some (enqueue_failed (enqueue_odm c' cmd) cmd))
  unfolding process_command enqueue_checked
  process_command_twice low high ping e =
      let parts = explode cmd b':' in
      let admitted = check_parts-IsAdmitted gateway_id cmd c c' low high ping e in
      let count : (length parts == 6 || length parts == 7 || length parts == 8) ≡ true =
        ground arith in
      let no_cancel = not_cancel parts admitted.request_id in
      let no_fuota = not_fuota parts admitted.command in
      let newest = check_parts-seen gateway_id parts (length parts) c c' (omega arith) e in
      let still : contains (seen (target_set parts) (enqueue_odm c' cmd)) (req_id parts) ≡ true =
        rw (seen-enqueue_odm (target_set parts) c' cmd) newest in
      let again =
        check_parts_again gateway_id parts (length parts) (enqueue_odm c' cmd) (omega arith)
          still in
      (rw (no_cancel, count, ping, e, no_fuota) refl, rw (no_cancel, count, ping, again) refl)
