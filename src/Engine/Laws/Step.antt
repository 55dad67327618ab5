-- ===== src/Engine/Laws/Step.antt =====
-- A packet that arrives while the client waits, in `client_process_data` of Engine.Answer, from its first
-- test to its answer.
use atlascode.Prelude.{
  ℕ, ◌≡◌, ◌≢◌, inl, inr, refl, Bool, true, false, ◌&&◌, ◌||◌, Option, ltb, ◌==◌, if◌then◌else◌,
  ◌>>=◌, Bool-cases,
}
use mathlib.Core.Path.{subst}
use atlascode.Link.{ClientCurrentState, Arrived, Link}
use atlascode.Link.PacketType.{
  PacketType, at, process_packet_type, mesh_answer, meter_error, connection, other_type,
  checked_source,
}
use atlascode.Link.Validation.{is_framed}
use atlascode.Ondemand.Values.{Clock}
use atlascode.Engine.{next_page_present, push_data_received, Client, Switch, pull_answer}
use atlascode.Engine.Answer.{
  of_packet_type, behind_switch, answer_state, typed_answer, client_process_data,
}
use atlascode.Engine.Laws.{AreNodeSteps, nothing, something, plain, other_answer-same}
use atlascode.Engine.Laws.Pages.{
  returned, left, AreSwitchSteps, no_switch, switch, pull_answer-AreSwitchSteps,
}

-- The kind of a packet does not move the state in which the client waits.
record IsSameState (l : Link) (r : PacketType × Link) : Type 0 where
  same : r.1.current_state ≡ l.current_state

module _ (p : Arrived) (l : Link) where
  either :
      (b : Bool) {x y : PacketType × Link}
      → IsSameState l x
      → IsSameState l y
      → IsSameState l (if b then x else y)
  either true h k = h
  either false h k = k

  stays : (t : PacketType) → IsSameState l (t, l)
  stays t = record { same = refl }

  checked_source-IsSameState : IsSameState l (checked_source p.rx_buf l)
  unfolding checked_source
  checked_source-IsSameState =
      either l.need_to_validate_src_addr (record { same = refl }) (stays PacketType.success)

  process_packet_type-IsSameState : IsSameState l (process_packet_type p l)
  unfolding process_packet_type other_type
  process_packet_type-IsSameState = either (mesh_answer p 6) (stays PacketType.timeout_received) (
      either (meter_error p 41) (stays PacketType.dlms_checksum_error) (
        either (meter_error p 37) (stays PacketType.dlms_connection_failed) (
          either (connection p 0 2) (stays PacketType.dlms_success) (
            either (connection p 1 3) (stays PacketType.dlms_connection_failed) (
              either (at p 2 == 8 && at p 24 == 14) (stays PacketType.dlms_error) (
                either (mesh_answer p 7) (stays PacketType.command_in_progress) (
                  either (at p 2 == 7 || at p 2 == 13 || at p 2 == 3) (stays PacketType.pmesh_error)
                    (either (is_framed p && (at p 2 == 8 || at p 2 == 14))
                      checked_source-IsSameState
                      (either (at p 2 == 4 && at p 0 == 46) checked_source-IsSameState
                        (stays PacketType.failure))))))))))

of_packet_type-code : (t : PacketType) → of_packet_type t ≢ next_page_present
unfolding of_packet_type
of_packet_type-code PacketType.timeout_received e = cc
of_packet_type-code PacketType.dlms_checksum_error e = cc
of_packet_type-code PacketType.dlms_connection_failed e = cc
of_packet_type-code PacketType.dlms_success e = cc
of_packet_type-code PacketType.dlms_error e = cc
of_packet_type-code PacketType.command_in_progress e = cc
of_packet_type-code PacketType.pmesh_error e = cc
of_packet_type-code PacketType.success e = cc
of_packet_type-code PacketType.invalid_response e = cc
of_packet_type-code PacketType.failure e = cc

module _ {Tm : Type 0} (clock : Clock Tm) (now : ℕ) (p : Arrived) where
  behind_switch-AreNodeSteps :
      (state : ClientCurrentState) (c : Client) (o : Option Switch)
      → AreSwitchSteps now p state c.current_node o
      → AreNodeSteps now p state c.current_node (o >>= behind_switch clock p c)
  unfolding behind_switch
  behind_switch-AreNodeSteps state c o no_switch = nothing
  behind_switch-AreNodeSteps state c o (switch (returned h)) = something h
  behind_switch-AreNodeSteps state c o (switch left) =
      other_answer-same now p state c.current_node clock c refl

  answer_state-AreNodeSteps :
      (c : Client)
      → AreNodeSteps now p c.link.current_state c.current_node (answer_state clock now p c)
  unfolding answer_state
  answer_state-AreNodeSteps c = elim (Bool-cases c.pulls) [
    | inl e ↦ simp e (
        behind_switch-AreNodeSteps c.link.current_state c (pull_answer now c.link.current_state p c)
          (pull_answer-AreSwitchSteps now p c.link.current_state c.current_node c refl))
    | inr e ↦ simp e (other_answer-same now p c.link.current_state c.current_node clock c refl)
  ]

  typed_answer-AreNodeSteps :
      (r : PacketType × Link) (c : Client)
      → AreNodeSteps now p r.1.current_state c.current_node (typed_answer clock now p r c)
  unfolding typed_answer of_packet_type
  typed_answer-AreNodeSteps (PacketType.success, l) c =
      answer_state-AreNodeSteps (record c { link = l })
  typed_answer-AreNodeSteps (t, l) c =
      plain now p l.current_state c.current_node (of_packet_type t) (record c { link = l }) refl
        (of_packet_type-code t)

  pub client_process_data-AreNodeSteps :
      (c : Client)
      → AreNodeSteps now p c.link.current_state c.current_node (client_process_data clock now p c)
  unfolding client_process_data
  client_process_data-AreNodeSteps c =
      elim (Bool-cases ((ltb 17 p.length && at p 0 == 0x2E) && at p 17 == 0x2C)) [
        | inl e ↦
            rw e
              (plain now p c.link.current_state c.current_node push_data_received c refl (λ f. cc))
        | inr e ↦ rw e (
            subst
              (λ s.
                AreNodeSteps now p s c.current_node
                  (typed_answer clock now p (process_packet_type p c.link) c))
              (process_packet_type-IsSameState p c.link).same
              (typed_answer-AreNodeSteps (process_packet_type p c.link) c))
      ]
