-- ===== src/Mqtt/Messages/Admitted.antt =====
-- What the checks of Mqtt.Messages say of a command, as its text shows it.
use atlascode.Prelude.{
  ℕ, ◌≤◌, ◌<◌, ◌≡◌, ◌⊎◌, inl, inr, refl, true, false, ◌&&◌, List, [], Option, none, some, Bytes,
  codes, arith, leb, ◌==◌, get_or, length, take, take_all, bytes_eq, bytes_eq_sound, contains,
  Bool-cases, bind-eq-some,
}
use atlascode.Prelude.Signed.{ℤ, pos, negsuc}
use atlascode.Number.{stoi}
use atlascode.Split.{explode}
use atlascode.Mqtt.Queues.{MqttClient}
use atlascode.Mqtt.Commands.{validate_command}
use atlascode.Mqtt.Messages.{
  req_id, gateway_part, type_part, is_type, all_digits, check_request_id, check_gateway,
  check_destination, allowed_cmds, check_ping, check_part, check_parts,
}
use atlascode.Mqtt.Messages.Laws.{check_parts-passes}

-- The number of pings, or of the minutes between them.
pub record IsPingNumber (text : Bytes) : Type 0 where
  pub number : ℕ
  pub reads : stoi 10 text ≡ some (pos number)
  pub at_least : 1 ≤ number
  pub at_most : number ≤ 3

-- A ping has a count, and may have an interval.
pub record IsPing (parts : List Bytes) : Type 0 where
  pub has_count : 7 ≤ length parts
  pub ping_count : IsPingNumber (get_or parts 6 [])
  pub ping_interval : (length parts ≡ 7) ⊎ IsPingNumber (get_or parts 7 [])

-- A command that may stand in the queue of on-demand commands of a gateway, by its text.
pub record IsAdmitted (gateway_id : Bytes) (cmd : Bytes) : Type 0 where
  pub count : 6 ≤ length (explode cmd b':')
  pub count_bound : length (explode cmd b':') ≤ 8
  pub request_id : all_digits (req_id (explode cmd b':')) ≡ true
  pub gateway : gateway_part (explode cmd b':') ≡ gateway_id
  pub gateway_length : length gateway_id ≡ 16
  pub destination : check_destination gateway_id (explode cmd b':') ≡ true
  pub command_type : contains allowed_cmds (type_part (explode cmd b':')) ≡ true
  pub command : validate_command (explode cmd b':') ≡ some true
  pub ping : (is_type (explode cmd b':') (codes "13") ≡ false) ⊎ IsPing (explode cmd b':')

module _ (gateway_id : Bytes) (parts : List Bytes) (c c' : MqttClient) where
  pub passes_request_id :
      check_part gateway_id parts 0 c ≡ some (true, c') → all_digits (req_id parts) ≡ true
  unfolding check_part check_request_id
  passes_request_id e = elim (Bool-cases (all_digits (req_id parts))) [
    | inl f ↦ f
    | inr f ↦ absurd (ground (arith, rw f at e))
  ]

  passes_gateway_id :
      check_part gateway_id parts 1 c ≡ some (true, c') → check_gateway gateway_id parts ≡ true
  unfolding check_part
  passes_gateway_id e = ground arith

  passes_destination :
      check_part gateway_id parts 3 c ≡ some (true, c') → check_destination gateway_id parts ≡ true
  unfolding check_part
  passes_destination e = ground arith

  passes_type :
      check_part gateway_id parts 4 c ≡ some (true, c')
      → contains allowed_cmds (type_part parts) ≡ true
  unfolding check_part
  passes_type e = ground arith

  passes_command :
      check_part gateway_id parts 5 c ≡ some (true, c') → validate_command parts ≡ some true
  unfolding check_part
  passes_command e =
      let (valid, q, r) = bind-eq-some (validate_command parts) _ e in
      let same : valid ≡ true = ground arith in rw same at q

  passes_ping :
      (i : ℕ)
      → (i ≡ 6) ⊎ (i ≡ 7)
      → check_part gateway_id parts i c ≡ some (true, c')
      → check_ping i parts ≡ true
  unfolding check_part
  passes_ping i (inl e) h = rw e (ground (arith, rw e at h))
  passes_ping i (inr e) h = rw e (ground (arith, rw e at h))

check_ping-IsPingNumber :
    (i : ℕ) (parts : List Bytes)
    → is_type parts (codes "13") ≡ true
    → check_ping i parts ≡ true
    → IsPingNumber (get_or parts i [])
unfolding check_ping
check_ping-IsPingNumber i parts t h = go (stoi 10 (get_or parts i [])) refl (rw t at h)
  where
    go :
        (o : Option ℤ)
        → stoi 10 (get_or parts i []) ≡ o
        → elim o [
          | none ↦ false
          | some value ↦ elim value [ pos n ↦ leb 1 n && leb n 3 | negsuc _ ↦ false ]
        ]
          ≡ true
        → IsPingNumber (get_or parts i [])
    go none e k = absurd (ground arith)
    go (some (negsuc n)) e k = absurd (ground arith)
    go (some (pos n)) e k = record {
      number = n;
      reads = e;
      at_least = ground arith;
      at_most = ground arith;
    }

gateway_text :
    (gateway_id : Bytes) (parts : List Bytes)
    → check_gateway gateway_id parts ≡ true
    → (gateway_part parts ≡ gateway_id) × (length gateway_id ≡ 16)
unfolding check_gateway
gateway_text gateway_id parts h =
    let len : length (gateway_part parts) ≡ 16 = ground arith in
    let eq : bytes_eq (take 16 (gateway_part parts)) gateway_id ≡ true = ground arith in
    let all = take_all 16 (gateway_part parts) len in
    let same : gateway_part parts ≡ gateway_id =
      rw all at (bytes_eq_sound (take 16 (gateway_part parts)) gateway_id eq) in
    (same, rw same at len)

pub check_parts-IsAdmitted :
    (gateway_id cmd : Bytes) (c c' : MqttClient)
    → 6 ≤ length (explode cmd b':')
    → length (explode cmd b':') ≤ 8
    → (length (explode cmd b':') == 6 && is_type (explode cmd b':') (codes "13")) ≡ false
    → check_parts gateway_id (explode cmd b':') (length (explode cmd b':')) 0 c ≡ some (true, c')
    → IsAdmitted gateway_id cmd
check_parts-IsAdmitted gateway_id cmd c c' low high counted e =
    let parts = explode cmd b':' in
    let (a0, b0, p0) =
      check_parts-passes gateway_id parts (length parts) 0 0 c c' e (omega arith) (omega arith) in
    let (a1, b1, p1) =
      check_parts-passes gateway_id parts (length parts) 0 1 c c' e (omega arith) (omega arith) in
    let (a3, b3, p3) =
      check_parts-passes gateway_id parts (length parts) 0 3 c c' e (omega arith) (omega arith) in
    let (a4, b4, p4) =
      check_parts-passes gateway_id parts (length parts) 0 4 c c' e (omega arith) (omega arith) in
    let (a5, b5, p5) =
      check_parts-passes gateway_id parts (length parts) 0 5 c c' e (omega arith) (omega arith) in
    let (same, len) = gateway_text gateway_id parts (passes_gateway_id gateway_id parts a1 b1 p1) in
    record {
      count = low;
      count_bound = high;
      request_id = passes_request_id gateway_id parts a0 b0 p0;
      gateway = same;
      gateway_length = len;
      destination = passes_destination gateway_id parts a3 b3 p3;
      command_type = passes_type gateway_id parts a4 b4 p4;
      command = passes_command gateway_id parts a5 b5 p5;
      ping = elim (Bool-cases (is_type parts (codes "13"))) [
        | inr f ↦ inl f
        | inl f ↦ inr (pings f)
      ];
    }
  where
    passes :
        (i : ℕ)
        → i < length (explode cmd b':')
        → (i ≡ 6) ⊎ (i ≡ 7)
        → is_type (explode cmd b':') (codes "13") ≡ true
        → IsPingNumber (get_or (explode cmd b':') i [])
    passes i small place f =
        let parts = explode cmd b':' in
        let (a, b, p) =
          check_parts-passes gateway_id parts (length parts) 0 i c c' e (omega arith)
            (omega arith) in
        check_ping-IsPingNumber i parts f (passes_ping gateway_id parts a b i place p)

    pings : is_type (explode cmd b':') (codes "13") ≡ true → IsPing (explode cmd b':')
    pings f =
        let parts = explode cmd b':' in
        let more : 7 ≤ length parts = ground (arith, rw f at counted) in
        record {
          has_count = more;
          ping_count = passes 6 (omega arith) (inl refl) f;
          ping_interval = elim (Bool-cases (length parts == 7)) [
            | inl g ↦ inl (ground arith)
            | inr g ↦ inr (passes 7 (ground arith) (inr refl) f)
          ];
        }
