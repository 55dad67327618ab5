-- ===== src/Mqtt/Messages/Laws.antt =====
-- The checks of a command: what each that passes says, and what they leave alone.
use atlascode.Prelude.{
  ℕ, zero, suc, ◌+◌, ◌≤◌, ◌<◌, ◌≡◌, inl, inr, refl, ◌∙◌, Bool, true, false, List, [], ◌∷◌, ◌++◌,
  Option, none, some, Bytes, arith, ◌==◌, ◌>>=◌, length, contains, Bool-cases, bind-eq-some,
}
use atlascode.Mqtt.Queues.{MqttClient}
use atlascode.Mqtt.Commands.{validate_command}
use atlascode.Mqtt.Messages.{
  req_id, all_digits, keep_last_two, Target, special, fuota, global, target_set, seen, set_seen,
  check_request_id, check_part, check_parts,
}

-- The ids seen last: at most two for each kind of command.
pub record IsSeenBounded (c : MqttClient) : Type 0 where
  pub global_bound : length c.global_seen_req_ids ≤ 2
  pub special_bound : length c.special_req_ids ≤ 2
  pub fuota_bound : length c.fuota_req_ids ≤ 2

-- What checks do to the state: they touch the lists of seen ids only, and keep their bounds.
pub record Checked (c c' : MqttClient) : Type 0 where
  pub odm : c'.odm ≡ c.odm
  pub failed : c'.failed ≡ c.failed
  pub rf_meter_fuota : c'.rf_meter_fuota ≡ c.rf_meter_fuota
  pub pending_fuota : c'.pending_fuota ≡ c.pending_fuota
  pub cancelled_requests : c'.cancelled_requests ≡ c.cancelled_requests
  pub odm_flag : c'.odm_flag ≡ c.odm_flag
  pub seen_bound : IsSeenBounded c → IsSeenBounded c'

pub Checked-refl : (c : MqttClient) → Checked c c
Checked-refl c = record {
  odm = refl;
  failed = refl;
  rf_meter_fuota = refl;
  pending_fuota = refl;
  cancelled_requests = refl;
  odm_flag = refl;
  seen_bound = λ b. b;
}

Checked-trans : (a b c : MqttClient) → Checked a b → Checked b c → Checked a c
Checked-trans a b c h k = record {
  odm = k.odm ∙ h.odm;
  failed = k.failed ∙ h.failed;
  rf_meter_fuota = k.rf_meter_fuota ∙ h.rf_meter_fuota;
  pending_fuota = k.pending_fuota ∙ h.pending_fuota;
  cancelled_requests = k.cancelled_requests ∙ h.cancelled_requests;
  odm_flag = k.odm_flag ∙ h.odm_flag;
  seen_bound = λ b. k.seen_bound (h.seen_bound b);
}

keep_last_two-length : (ids : List Bytes) → length (keep_last_two ids) ≤ 2
unfolding keep_last_two
keep_last_two-length [] = omega arith
keep_last_two-length (x ∷ []) = omega arith
keep_last_two-length (x ∷ y ∷ []) = omega arith
keep_last_two-length (x ∷ y ∷ z ∷ q) = keep_last_two-length (y ∷ z ∷ q)

set_seen-IsSeenBounded :
    (t : Target) (c : MqttClient) (ids : List Bytes)
    → length ids ≤ 2
    → IsSeenBounded c
    → IsSeenBounded (set_seen t c ids)
set_seen-IsSeenBounded special c ids h b = ground arith
set_seen-IsSeenBounded fuota c ids h b = ground arith
set_seen-IsSeenBounded global c ids h b = ground arith

set_seen-Checked :
    (t : Target) (c : MqttClient) (ids : List Bytes) → length ids ≤ 2 → Checked c (set_seen t c ids)
set_seen-Checked special c ids h = ground (arith, set_seen-IsSeenBounded special c ids h)
set_seen-Checked fuota c ids h = ground (arith, set_seen-IsSeenBounded fuota c ids h)
set_seen-Checked global c ids h = ground (arith, set_seen-IsSeenBounded global c ids h)

check_request_id-Checked :
    (parts : List Bytes) (c : MqttClient) → Checked c (check_request_id parts c).1
unfolding check_request_id
check_request_id-Checked parts c = elim (Bool-cases (all_digits (req_id parts))) [
  | inr e ↦ rw e (Checked-refl c)
  | inl e ↦ elim (Bool-cases (contains (seen (target_set parts) c) (req_id parts))) [
    | inl f ↦ rw (e, f) (Checked-refl c)
    | inr f ↦
        rw (e, f)
          (set_seen-Checked (target_set parts) c
            (keep_last_two (seen (target_set parts) c ++ req_id parts ∷ []))
            (keep_last_two-length (seen (target_set parts) c ++ req_id parts ∷ [])))
  ]
]

abbrev Leaves : MqttClient → Option (Bool × MqttClient) → Type 0
Leaves c none = Unit {0}
Leaves c (some (valid, c')) = Checked c c'

validate-Leaves : (o : Option Bool) (c : MqttClient) → Leaves c (o >>= λ valid. some (valid, c))
validate-Leaves none c = tt
validate-Leaves (some b) c = Checked-refl c

check_part-Leaves :
    (gateway_id : Bytes) (parts : List Bytes) (idx : ℕ) (c : MqttClient)
    → Leaves c (check_part gateway_id parts idx c)
unfolding check_part
check_part-Leaves gateway_id parts idx c = elim (Bool-cases (idx == 0)) [
  | inl e ↦ rw e (check_request_id-Checked parts c)
  | inr e ↦ rw e (elim (Bool-cases (idx == 5)) [
    | inl f ↦ ground (arith, validate-Leaves (validate_command parts) c)
    | inr f ↦ ground (arith, Checked-refl c)
  ])
]

check_parts-Leaves :
    (gateway_id : Bytes) (parts : List Bytes) (n idx : ℕ) (c : MqttClient)
    → Leaves c (check_parts gateway_id parts n idx c)
unfolding check_parts
check_parts-Leaves gateway_id parts zero idx c = Checked-refl c
check_parts-Leaves gateway_id parts (suc n) idx c =
    go (check_part gateway_id parts idx c) (check_part-Leaves gateway_id parts idx c)
      (λ c'. check_parts-Leaves gateway_id parts n (suc idx) c')
  where
    go :
        (o : Option (Bool × MqttClient))
        → Leaves c o
        → ((c' : MqttClient) → Leaves c' (check_parts gateway_id parts n (suc idx) c'))
        → Leaves c (
            o >>= λ r. elim r.0 [
              | false ↦ some (false, r.1)
              | true ↦ check_parts gateway_id parts n (suc idx) r.1
            ])
    go none h k = tt
    go (some (false, c')) h k = h
    go (some (true, c')) h k = after (check_parts gateway_id parts n (suc idx) c') (k c')
      where
        after : (o : Option (Bool × MqttClient)) → Leaves c' o → Leaves c o
        after none q = tt
        after (some (valid, c2)) q = Checked-trans c c' c2 h q

-- However the checks of a command end, they leave the queues, the cancelled requests and the flag.
pub check_parts-Checked :
    (gateway_id : Bytes) (parts : List Bytes) (n idx : ℕ) (c c' : MqttClient) (valid : Bool)
    → check_parts gateway_id parts n idx c ≡ some (valid, c')
    → Checked c c'
check_parts-Checked gateway_id parts n idx c c' valid e =
    rw e at (check_parts-Leaves gateway_id parts n idx c)

-- Where all checks pass, each of them passes.
pub check_parts-passes :
    (gateway_id : Bytes) (parts : List Bytes) (n idx i : ℕ) (c c' : MqttClient)
    → check_parts gateway_id parts n idx c ≡ some (true, c')
    → idx ≤ i
    → i < idx + n
    → (c₁ : MqttClient) × (c₂ : MqttClient) × (check_part gateway_id parts i c₁ ≡ some (true, c₂))
unfolding check_parts
check_parts-passes gateway_id parts zero idx i c c' e low high = absurd (omega arith)
check_parts-passes gateway_id parts (suc n) idx i c c' e low high =
    let ((valid, mid), first, rest) = bind-eq-some (check_part gateway_id parts idx c) _ e in
    go valid mid first rest
      (λ q low'. check_parts-passes gateway_id parts n (suc idx) i mid c' q low' (omega arith))
  where
    go :
        (valid : Bool) (mid : MqttClient)
        → check_part gateway_id parts idx c ≡ some (valid, mid)
        → ◌≡◌ {A = Option (Bool × MqttClient)}
            (elim valid [
              | false ↦ some (false, mid)
              | true ↦ check_parts gateway_id parts n (suc idx) mid
            ])
            (some (true, c'))
        → (check_parts gateway_id parts n (suc idx) mid ≡ some (true, c')
            → suc idx ≤ i
            → (c₁ : MqttClient) × (c₂ : MqttClient) × (check_part gateway_id parts i c₁
                ≡ some (true, c₂)))
        → (c₁ : MqttClient) × (c₂ : MqttClient) × (check_part gateway_id parts i c₁
            ≡ some (true, c₂))
    go false mid first rest again = absurd (ground arith)
    go true mid first rest again = elim (Bool-cases (idx == i)) [
      | inl here ↦ let same : idx ≡ i = ground arith in (c, mid, rw same at first)
      | inr later ↦ again rest (ground arith)
    ]
