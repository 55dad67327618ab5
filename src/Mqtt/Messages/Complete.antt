-- ===== src/Mqtt/Messages/Complete.antt =====
-- What becomes of a command that is admitted by its text, and of one whose id was seen.
use atlascode.Prelude.{
  ℕ, zero, suc, ◌+◌, ◌≤◌, ◌<◌, ◌≡◌, ◌⊎◌, inl, inr, refl, true, false, ◌||◌, List, [], ◌∷◌, ◌++◌,
  some, Bytes, codes, arith, ◌==◌, get_or, length, take_all, bytes_eq_refl, contains, Bool-cases,
}
use atlascode.Split.{explode}
use atlascode.Mqtt.Queues.{MqttClient}
use atlascode.Mqtt.Messages.{
  req_id, is_type, all_digits, keep_last_two, target_set, seen, set_seen, check_request_id,
  check_gateway, check_ping, check_part, check_parts,
}
use atlascode.Mqtt.Messages.Admitted.{IsPingNumber, IsAdmitted}

-- An id that was seen does not pass, and nothing changes.
check_request_id_again :
    (parts : List Bytes) (c : MqttClient)
    → contains (seen (target_set parts) c) (req_id parts) ≡ true
    → check_request_id parts c ≡ (false, c)
unfolding check_request_id
check_request_id_again parts c e = elim (Bool-cases (all_digits (req_id parts))) [
  | inr f ↦ rw f refl
  | inl f ↦ rw (f, e) refl
]

pub check_parts_again :
    (gateway_id : Bytes) (parts : List Bytes) (n : ℕ) (c : MqttClient)
    → 0 < n
    → contains (seen (target_set parts) c) (req_id parts) ≡ true
    → check_parts gateway_id parts n 0 c ≡ some (false, c)
unfolding check_parts check_part
check_parts_again gateway_id parts zero c more e = elim more [ ]
check_parts_again gateway_id parts (suc n) c more e =
    rw (check_request_id_again parts c e, check_part) refl

-- A check that passes and leaves the state.
abbrev Passes : Bytes → List Bytes → ℕ → Type 0
Passes gateway_id parts i = (c : MqttClient) → check_part gateway_id parts i c ≡ some (true, c)

check_parts-all :
    (gateway_id : Bytes) (parts : List Bytes) (n idx : ℕ) (c : MqttClient)
    → ((i : ℕ) → idx ≤ i → i < idx + n → Passes gateway_id parts i)
    → check_parts gateway_id parts n idx c ≡ some (true, c)
unfolding check_parts
check_parts-all gateway_id parts zero idx c h = refl
check_parts-all gateway_id parts (suc n) idx c h =
    rw (h idx (omega arith) (omega arith) c) (
      check_parts-all gateway_id parts n (suc idx) c
        (λ i low high. h i (omega arith) (omega arith)))

IsPingNumber-check_ping :
    (i : ℕ) (parts : List Bytes) → IsPingNumber (get_or parts i []) → check_ping i parts ≡ true
unfolding check_ping
IsPingNumber-check_ping i parts h =
    let low = h.at_least in
    let high = h.at_most in
    let r = h.reads in
    elim (Bool-cases (is_type parts (codes "13"))) [
      | inl e ↦ rw (e, r) (ground arith)
      | inr e ↦ rw e refl
    ]

no_ping-check_ping :
    (i : ℕ) (parts : List Bytes) → is_type parts (codes "13") ≡ false → check_ping i parts ≡ true
unfolding check_ping
no_ping-check_ping i parts e = rw e refl

-- The state behind the check of an id that was not seen.
abbrev pub recorded : List Bytes → MqttClient → MqttClient
recorded parts c =
    set_seen (target_set parts) c (keep_last_two (seen (target_set parts) c ++ req_id parts ∷ []))

first_part :
    (gateway_id : Bytes) (parts : List Bytes) (n : ℕ) (c : MqttClient)
    → all_digits (req_id parts) ≡ true
    → contains (seen (target_set parts) c) (req_id parts) ≡ false
    → check_parts gateway_id parts n 1 (recorded parts c) ≡ some (true, recorded parts c)
    → check_parts gateway_id parts (suc n) 0 c ≡ some (true, recorded parts c)
unfolding check_parts check_part check_request_id
first_part gateway_id parts n c digits fresh rest = rw (digits, fresh, rest) refl

module _ (gateway_id cmd : Bytes) (a : IsAdmitted gateway_id cmd) where
  gateway-check : check_gateway gateway_id (explode cmd b':') ≡ true
  unfolding check_gateway
  gateway-check =
      let same = a.gateway in
      let n = a.gateway_length in
      rw (same, n, take_all 16 gateway_id n, bytes_eq_refl gateway_id) refl

  ping-check :
      (i : ℕ)
      → (i ≡ 6) ⊎ (i ≡ 7)
      → i < length (explode cmd b':')
      → check_ping i (explode cmd b':') ≡ true
  ping-check i place small = elim a.ping [
    | inl e ↦ no_ping-check_ping i (explode cmd b':') e
    | inr p ↦ elim place [
      | inl e ↦ rw e (IsPingNumber-check_ping 6 (explode cmd b':') p.ping_count)
      | inr e ↦ elim p.ping_interval [
        | inl n ↦ absurd (omega arith)
        | inr k ↦ rw e (IsPingNumber-check_ping 7 (explode cmd b':') k)
      ]
    ]
  ]

  IsAdmitted-Passes :
      (i : ℕ) → 1 ≤ i → i < length (explode cmd b':') → Passes gateway_id (explode cmd b':') i
  unfolding check_part
  IsAdmitted-Passes i low high c =
      let d = a.destination in
      let t = a.command_type in
      let v = a.command in
      let g = gateway-check in
      let most = a.count_bound in
      elim (Bool-cases (i == 6 || i == 7)) [
        | inl e ↦ let p = ping-check i (ground arith) high in rw (p, check_part) (ground arith)
        | inr e ↦ elim (Bool-cases (i == 5)) [
          | inl f ↦ let five : i ≡ 5 = ground arith in rw (five, v) refl
          | inr f ↦ rw (g, d, t) (ground arith)
        ]
      ]

  -- A command that is admitted by its text passes all checks if its id is not among those seen last of
  -- its kind; its id is then one of them.
  pub IsAdmitted-check_parts :
      (c : MqttClient)
      → contains (seen (target_set (explode cmd b':')) c) (req_id (explode cmd b':')) ≡ false
      → check_parts gateway_id (explode cmd b':') (length (explode cmd b':')) 0 c
        ≡ some (true, recorded (explode cmd b':') c)
  IsAdmitted-check_parts c fresh = first (length (explode cmd b':')) refl
    where
      first :
          (n : ℕ)
          → length (explode cmd b':') ≡ n
          → check_parts gateway_id (explode cmd b':') n 0 c
            ≡ some (true, recorded (explode cmd b':') c)
      first zero e = let low = a.count in absurd (omega arith)
      first (suc n) e = first_part gateway_id (explode cmd b':') n c a.request_id fresh (
          check_parts-all gateway_id (explode cmd b':') n 1 (recorded (explode cmd b':') c)
            (λ i low high. IsAdmitted-Passes i low (omega arith)))
