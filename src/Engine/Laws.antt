-- ===== src/Engine/Laws.antt =====
-- What `client_process_data`, Engine.Answer, makes of the current node.
pub mod Pages
pub mod Step
pub mod Accepted
use atlascode.Prelude.{
  ℕ, ◌+◌, ◌-◌, ◌*◌, ◌%◌, ◌≡◌, ◌≢◌, refl, Bool, true, false, not, ◌&&◌, ◌||◌, ◌++◌, Option, none,
  some, Bytes, ltb, ◌==◌, if◌then◌else◌, ◌>>=◌, Bool-cases, Option-cases, inl, inr, arith, get_or,
  take, drop,
}
use atlascode.Link.{ClientCurrentState, Arrived, Link}
use atlascode.Link.PacketType.{PacketType, at}
use atlascode.Pull.{
  PageResult, NodeInfo, process_nameplate_data, process_daily_load_data, process_block_load_data,
  process_billing_history_data, process_ip_profile_data,
}
use atlascode.Ondemand.Values.{Clock}
use atlascode.Ondemand.Profiles.{ProfileData, parse_profile}
use atlascode.Ondemand.Events.{EventProfiles, parse_events_profile}
use atlascode.Engine.{
  ProcessCode, success, failure, enabled, next_page_present, dlms_error, dlms_connection_failed,
  command_in_progress, push_data_received, succes_next_page, invalid_response, failed_response,
  Client, of_page, Switch, return, leave, fuota_status, mesh_command, dlms_connect, in_progress,
  handled, page_answer, ip_answer, internal_fv, on_current_node, pull_answer,
}
use atlascode.Engine.Answer.{
  next_page_or_success, kept, profile_answer, obis_answer, scalar_answer, dlms_answer,
  counted_packets, data_answer, commission_answer, other_answer, behind_switch, answer_state,
  dlms_length, is_whole, memchr,
}

-- The handler of pages of the state in which the client waits.
pub handler_of :
    ℕ
    → ClientCurrentState
    → Option (Bytes → ℕ → Option NodeInfo → Option (PageResult × Option NodeInfo))
handler_of now ClientCurrentState.nameplate = some (process_nameplate_data now)
handler_of now ClientCurrentState.daily_load = some (process_daily_load_data now)
handler_of now ClientCurrentState.block_load = some (process_block_load_data now)
handler_of now ClientCurrentState.billing_history = some (process_billing_history_data now)
handler_of now ClientCurrentState.instantaneous_profile = some (process_ip_profile_data now)
handler_of now _ = none

commission_answer-code : (p : Arrived) → commission_answer p ≢ next_page_present
unfolding commission_answer
commission_answer-code p e = ground arith

module _ (now : ℕ) (p : Arrived) (state : ClientCurrentState) (node : Option NodeInfo) where
  -- The node is as it was and no further page was announced; or the handler of the state has answered for
  -- it; or the state waits for the firmware version, of which as many bytes as the packet's length less
  -- 16 were copied over those that the node had.
  pub data IsNodeStep : ProcessCode × Client → Type 0 where
    unchanged :
        {r : ProcessCode} {c : Client}
        → c.current_node ≡ node
        → r ≢ next_page_present
        → IsNodeStep (r, c)
    paged :
        (handle : Bytes → ℕ → Option NodeInfo → Option (PageResult × Option NodeInfo))
        (r : PageResult) {c : Client}
        → handler_of now state ≡ some handle
        → handle p.rx_buf p.length node ≡ some (r, c.current_node)
        → IsNodeStep (of_page r, c)
    versioned :
        (before : NodeInfo) {c : Client}
        → state ≡ ClientCurrentState.internal_fv
        → node ≡ some before
        → c.current_node
          ≡ some (record before {
            internal_firmware_version =
                take (at p 1 - 16) (drop 17 p.rx_buf)
                ++ drop (at p 1 - 16) before.internal_firmware_version;
          })
        → IsNodeStep (success, c)

  -- Of a result, where there is one.
  pub data AreNodeSteps : Option (ProcessCode × Client) → Type 0 where
    nothing : AreNodeSteps none
    something : {a : ProcessCode × Client} → IsNodeStep a → AreNodeSteps (some a)

  pub branch :
      (b : Bool) {x y : Option (ProcessCode × Client)}
      → AreNodeSteps x
      → AreNodeSteps y
      → AreNodeSteps (if b then x else y)
  branch true h k = h
  branch false h k = k

  pub behind {ℓ} :
      {A : Type ℓ} (o : Option A) (f : A → Option (ProcessCode × Client))
      → ((a : A) → AreNodeSteps (f a))
      → AreNodeSteps (o >>= f)
  behind none f h = nothing
  behind (some a) f h = h a

  next_page_or_success-same :
      (c : Client) → c.current_node ≡ node → AreNodeSteps (some (next_page_or_success p, c))
  unfolding next_page_or_success
  next_page_or_success-same c h = something (unchanged h (λ e. ground arith))

  kept-same :
      (f : ProfileData → Client) (o : Option ProfileData)
      → ((m : ProfileData) → (f m).current_node ≡ node)
      → AreNodeSteps (kept p f o)
  unfolding kept
  kept-same f none h = nothing
  kept-same f (some m) h = next_page_or_success-same (f m) (h m)

  -- A code that a state returns with the node as it was.
  pub plain :
      (r : ProcessCode) (c : Client)
      → c.current_node ≡ node
      → r ≢ next_page_present
      → AreNodeSteps (some (r, c))
  plain r c h d = something (unchanged h d)

  module _ {Tm : Type 0} (clock : Clock Tm) (c : Client) (h : c.current_node ≡ node) where
    profile_answer-same : (dlms_data : Bytes) → AreNodeSteps (profile_answer clock p dlms_data c)
    unfolding profile_answer
    profile_answer-same dlms_data =
        let command = get_or dlms_data 5 0 in
        let n = dlms_length dlms_data in
        branch (get_or dlms_data 8 0 == 0) (plain invalid_response c h (λ e. cc)) (
          branch (command == 0)
            (kept-same _ (parse_profile clock dlms_data n c.name_plate) (λ m. h))
            (branch (command == 1) (kept-same _ (parse_profile clock dlms_data n c.ip) (λ m. h)) (
              branch (command == 3) (kept-same _ (parse_profile clock dlms_data n c.dlp) (λ m. h)) (
                branch (command == 4) (kept-same _ (parse_profile clock dlms_data n c.blp) (λ m. h))
                  (branch (command == 2)
                    (kept-same _ (parse_profile clock dlms_data n c.bh) (λ m. h))
                    (branch (command == 8)
                      (behind (parse_events_profile clock dlms_data n c.events) _
                        (λ es. next_page_or_success-same (record c { events = es }) h))
                      (plain invalid_response c h (λ e. cc))))))))

    obis_answer-same : AreNodeSteps (some (obis_answer clock p c))
    unfolding obis_answer
    obis_answer-same = something (unchanged h (λ e. ground arith))

    scalar_answer-same : AreNodeSteps (some (scalar_answer p c))
    unfolding scalar_answer
    scalar_answer-same =
        elim (Bool-cases (at p 22 == 1 || at p 22 == 2 || at p 22 == 3 || at p 22 == 4)) [
          | inl e ↦ rw e (next_page_or_success-same c h)
          | inr e ↦ rw e (plain invalid_response c h (λ f. cc))
        ]

    dlms_answer-same :
        (dlms_data : Bytes) (left : ℕ) → AreNodeSteps (dlms_answer clock p dlms_data left c)
    unfolding dlms_answer
    dlms_answer-same dlms_data left =
        branch (not (is_whole dlms_data left)) (plain invalid_response c h (λ e. cc)) (
          branch (get_or dlms_data 4 0 == 0x0E) (profile_answer-same dlms_data) (
            branch (at p 21 == 0x0F) obis_answer-same
              (branch (at p 21 == 0x0A) scalar_answer-same (plain invalid_response c h (λ e. cc)))))

  data_answer-same :
      {Tm : Type 0} (clock : Clock Tm) (c : Client)
      → c.current_node ≡ node
      → AreNodeSteps (data_answer clock p c)
  unfolding data_answer counted_packets
  data_answer-same clock c h =
      elim (Option-cases (memchr 0x2D (p.length - 17) (drop 17 p.rx_buf))) [
        | inl e ↦ rw (e, data_answer) (plain invalid_response (counted_packets p c) h (λ f. cc))
        | inr (i, e) ↦
            rw (e, data_answer)
              (dlms_answer-same clock (counted_packets p c) h (drop (17 + i) p.rx_buf)
                (p.length - 17 - i))
      ]

  pub other_answer-same :
      {Tm : Type 0} (clock : Clock Tm) (c : Client)
      → c.current_node ≡ node
      → AreNodeSteps (other_answer clock p c)
  unfolding other_answer
  other_answer-same clock c h = branch (at p 2 == 0x0E) (plain success c h (λ e. cc)) (
      branch (ltb p.length 17) (plain invalid_response c h (λ e. cc)) (
        branch (not (c.tx_page_index == at p 20)) (plain invalid_response c h (λ e. cc)) (
          branch (at p 2 == 8) (data_answer-same clock c h) (
            branch (at p 2 == 4) (something (unchanged h (commission_answer-code p)))
              (plain failure c h (λ e. cc))))))
