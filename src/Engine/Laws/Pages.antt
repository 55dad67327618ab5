-- ===== src/Engine/Laws/Pages.antt =====
-- A page that a pull waits for, in `client_process_data` of Engine.Answer.
use atlascode.Prelude.{
  ℕ, ◌≡◌, ◌≢◌, refl, Bool, true, false, ◌&&◌, ◌||◌, Option, none, some, Bytes, ltb, ◌==◌,
  if◌then◌else◌, Option-cases, inl, inr, ap, sym, ◌∙◌,
}
use atlascode.Link.{ClientCurrentState, Arrived}
use atlascode.Link.PacketType.{at}
use atlascode.Pull.{
  PageResult, NodeInfo, process_nameplate_data, process_daily_load_data, process_block_load_data,
  process_billing_history_data, process_ip_profile_data,
}
use atlascode.Engine.{
  ProcessCode, success, failure, enabled, next_page_present, dlms_error, dlms_connection_failed,
  command_in_progress, Client, Switch, return, leave, answers_command, fuota_status, mesh_command,
  dlms_connect, in_progress, handled, page_answer, ip_answer, internal_fv, on_current_node,
  pull_answer,
}
use atlascode.Engine.Laws.{handler_of, IsNodeStep, unchanged, paged, versioned}

module _ (now : ℕ) (p : Arrived) (state : ClientCurrentState) (node : Option NodeInfo) where
  -- What a state of the switch may do to the node.
  pub data IsSwitchStep : Switch → Type 0 where
    returned :
        {r : ProcessCode} {c : Client}
        → IsNodeStep now p state node (r, c)
        → IsSwitchStep (return r c)
    left : IsSwitchStep leave

  pub data AreSwitchSteps : Option Switch → Type 0 where
    no_switch : AreSwitchSteps none
    switch : {s : Switch} → IsSwitchStep s → AreSwitchSteps (some s)

  either :
      (b : Bool) {x y : Switch}
      → IsSwitchStep x
      → IsSwitchStep y
      → IsSwitchStep (if b then x else y)
  either true h k = h
  either false h k = k

  either_of :
      (b : Bool) {x y : Option Switch}
      → AreSwitchSteps x
      → AreSwitchSteps y
      → AreSwitchSteps (if b then x else y)
  either_of true h k = h
  either_of false h k = k

  module _ (c : Client) (h : c.current_node ≡ node) where
    same : (r : ProcessCode) → r ≢ next_page_present → IsSwitchStep (return r c)
    same r d = returned (unchanged h d)

    in_progress-IsSwitchStep : (t : ℕ) → IsSwitchStep (in_progress p t c)
    unfolding in_progress
    in_progress-IsSwitchStep t =
        either (at p 2 == t && at p (at p 1) == 7) (same command_in_progress (λ e. cc)) left

    fuota_status-IsSwitchStep : IsSwitchStep (fuota_status p c)
    unfolding fuota_status
    fuota_status-IsSwitchStep =
        either (answers_command p 0x9B && at p 17 == 0) (same success (λ e. cc)) (
          either (answers_command p 0x9B && at p 17 == 1) (same enabled (λ e. cc))
            (in_progress-IsSwitchStep 3))

    mesh_command-IsSwitchStep : (command : ℕ) → IsSwitchStep (mesh_command command p c)
    unfolding mesh_command
    mesh_command-IsSwitchStep command =
        either (answers_command p command) (same success (λ e. cc)) (in_progress-IsSwitchStep 3)

    dlms_connect-IsSwitchStep : IsSwitchStep (dlms_connect p c)
    unfolding dlms_connect
    dlms_connect-IsSwitchStep =
        either (at p 17 == 0x2D && at p 2 == 8)
          (either (at p 24 == 0 || at p 24 == 2) (same success (λ e. cc))
            (either (at p 24 == 1) (same dlms_connection_failed (λ e. cc)) left))
          (in_progress-IsSwitchStep 7)

    -- The handler of the state, called with the current node.
    handled-from :
        (handle : Bytes → ℕ → Option NodeInfo → Option (PageResult × Option NodeInfo))
        (o : Option (PageResult × Option NodeInfo))
        → handler_of now state ≡ some handle
        → handle p.rx_buf p.length node ≡ o
        → AreSwitchSteps (handled o c)
    unfolding handled
    handled-from handle none e f = no_switch
    handled-from handle (some (r, node')) e f = switch (returned (paged handle r e f))

    handled-AreSwitchSteps :
        (handle : Bytes → ℕ → Option NodeInfo → Option (PageResult × Option NodeInfo))
        → handler_of now state ≡ some handle
        → AreSwitchSteps (handled (handle p.rx_buf p.length c.current_node) c)
    handled-AreSwitchSteps handle e =
        handled-from handle (handle p.rx_buf p.length c.current_node) e
          (ap (handle p.rx_buf p.length) (sym h))

    page_answer-AreSwitchSteps :
        (command : ℕ) (handle : Bytes → ℕ → Option NodeInfo → Option (PageResult × Option NodeInfo))
        → handler_of now state ≡ some handle
        → AreSwitchSteps (page_answer command handle p c)
    unfolding page_answer
    page_answer-AreSwitchSteps command handle e =
        either_of ((at p 0 == 0x2E && at p 17 == 0x2D) && at p 2 == 8)
          (either_of (at p 21 == 0x0E && at p 22 == command)
            (either_of (at p 25 == 0 && ((at p 26 == 0x0E && at p 27 == 1) && at p 28 == 0x28))
              (switch (same dlms_error (λ f. cc))) (handled-AreSwitchSteps handle e))
            (either_of ((at p 24 == 0x0E && at p 25 == 1) && at p 26 == 0x25)
              (switch (same dlms_connection_failed (λ f. cc))) (switch left)))
          (switch (in_progress-IsSwitchStep 7))

    ip_answer-AreSwitchSteps :
        handler_of now state ≡ some (process_ip_profile_data now)
        → AreSwitchSteps (ip_answer now p c)
    unfolding ip_answer
    ip_answer-AreSwitchSteps e =
        either_of
          (((at p 0 == 0x2E && at p 17 == 0x2D) && at p 2 == 8)
            && (at p 21 == 0x0C && at p 22 == 1))
          (handled-AreSwitchSteps (process_ip_profile_data now) e)
          (switch (in_progress-IsSwitchStep 7))

    internal_fv-AreSwitchSteps :
        state ≡ ClientCurrentState.internal_fv
        → (before : NodeInfo) → c.current_node ≡ some before
        → AreSwitchSteps (internal_fv before p c)
    unfolding internal_fv
    internal_fv-AreSwitchSteps waits before e =
        either_of (at p 2 == 4 && at p 16 == 0)
          (either_of (ltb (at p 1) 16) no_switch
            (switch (returned (versioned before waits (sym h ∙ e) refl))))
          (switch (in_progress-IsSwitchStep 3))

    on_current_node-AreSwitchSteps :
        (f : NodeInfo → Arrived → Client → Option Switch)
        → ((n : NodeInfo) → c.current_node ≡ some n → AreSwitchSteps (f n p c))
        → AreSwitchSteps (on_current_node f p c)
    unfolding on_current_node
    on_current_node-AreSwitchSteps f k = elim (Option-cases c.current_node) [
      | inl e ↦ rw (e, on_current_node) (switch (same failure (λ g. cc)))
      | inr (n, e) ↦ rw (e, on_current_node) (k n e)
    ]

pub pull_answer-AreSwitchSteps :
    (now : ℕ) (p : Arrived) (state : ClientCurrentState) (current : Option NodeInfo) (c : Client)
    → c.current_node ≡ current
    → AreSwitchSteps now p state current (pull_answer now state p c)
unfolding pull_answer handler_of
pull_answer-AreSwitchSteps now p ClientCurrentState.idle current c h = switch left
pull_answer-AreSwitchSteps now p ClientCurrentState.fuota_status current c h =
    switch (fuota_status-IsSwitchStep now p ClientCurrentState.fuota_status current c h)
pull_answer-AreSwitchSteps now p ClientCurrentState.fuota_disable current c h =
    switch (mesh_command-IsSwitchStep now p ClientCurrentState.fuota_disable current c h 0x9B)
pull_answer-AreSwitchSteps now p ClientCurrentState.flash_save current c h =
    switch (mesh_command-IsSwitchStep now p ClientCurrentState.flash_save current c h 0x02)
pull_answer-AreSwitchSteps now p ClientCurrentState.soft_reset current c h =
    switch (mesh_command-IsSwitchStep now p ClientCurrentState.soft_reset current c h 0x01)
pull_answer-AreSwitchSteps now p ClientCurrentState.dlms_connect current c h =
    switch (dlms_connect-IsSwitchStep now p ClientCurrentState.dlms_connect current c h)
pull_answer-AreSwitchSteps now p ClientCurrentState.internal_fv current c h =
    on_current_node-AreSwitchSteps now p ClientCurrentState.internal_fv current c h internal_fv
      (internal_fv-AreSwitchSteps now p ClientCurrentState.internal_fv current c h refl)
pull_answer-AreSwitchSteps now p ClientCurrentState.instantaneous_profile current c h =
    on_current_node-AreSwitchSteps now p ClientCurrentState.instantaneous_profile current c h
      (λ node. ip_answer now)
      (λ n e.
        ip_answer-AreSwitchSteps now p ClientCurrentState.instantaneous_profile current c h refl)
pull_answer-AreSwitchSteps now p ClientCurrentState.nameplate current c h =
    on_current_node-AreSwitchSteps now p ClientCurrentState.nameplate current c h
      (λ node. page_answer 0 (process_nameplate_data now))
      (λ n e.
        page_answer-AreSwitchSteps now p ClientCurrentState.nameplate current c h 0
          (process_nameplate_data now) refl)
pull_answer-AreSwitchSteps now p ClientCurrentState.daily_load current c h =
    on_current_node-AreSwitchSteps now p ClientCurrentState.daily_load current c h
      (λ node. page_answer 3 (process_daily_load_data now))
      (λ n e.
        page_answer-AreSwitchSteps now p ClientCurrentState.daily_load current c h 3
          (process_daily_load_data now) refl)
pull_answer-AreSwitchSteps now p ClientCurrentState.block_load current c h =
    on_current_node-AreSwitchSteps now p ClientCurrentState.block_load current c h
      (λ node. page_answer 4 (process_block_load_data now))
      (λ n e.
        page_answer-AreSwitchSteps now p ClientCurrentState.block_load current c h 4
          (process_block_load_data now) refl)
pull_answer-AreSwitchSteps now p ClientCurrentState.billing_history current c h =
    on_current_node-AreSwitchSteps now p ClientCurrentState.billing_history current c h
      (λ node. page_answer 2 (process_billing_history_data now))
      (λ n e.
        page_answer-AreSwitchSteps now p ClientCurrentState.billing_history current c h 2
          (process_billing_history_data now) refl)
