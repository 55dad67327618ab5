-- ===== src/Engine/Laws/Accepted.antt =====
-- A further page is only announced for a page that was accepted: `client_process_data` of Engine.Answer
-- over the page handlers of Pull.
use atlascode.Prelude.{ℕ, ◌≡◌, ◌≢◌, refl, sym, ap, ◌∙◌, Option, none, some, Bytes, bind-eq-some}
use mathlib.Core.Path.{subst}
use mathlib.Core.Option.{some-injective}
use atlascode.Link.{ClientCurrentState, Arrived}
use atlascode.Pull.{
  PageResult, NodeInfo, PullProfile, process_page, on_node, name_plate, daily_load, block_load,
  billing, instantaneous, process_nameplate_data, process_daily_load_data, process_block_load_data,
  process_billing_history_data, process_ip_profile_data,
}
use atlascode.Pull.Laws.{Accepted, process_page-Accepted}
use atlascode.Ondemand.Values.{Clock}
use atlascode.Engine.{ProcessCode, next_page_present, Client, of_page}
use atlascode.Engine.Answer.{client_process_data}
use atlascode.Engine.Laws.{
  handler_of, IsNodeStep, unchanged, paged, versioned, AreNodeSteps, nothing, something,
}
use atlascode.Engine.Laws.Step.{client_process_data-AreNodeSteps}

none_is_some {ℓ} : {A : Type ℓ} {a : A} → ◌≡◌ {A = Option A} none (some a) → ⊥
none_is_some e = cc

-- A page of the current node was accepted by the handler of a profile.
pub record IsAcceptedBy {T : Type 0} (profile : PullProfile T) (now : ℕ) (p : Arrived)
    (r : PageResult) (node node' : Option NodeInfo) : Type 0 where
  pub before : NodeInfo
  pub after : NodeInfo
  pub had : node ≡ some before
  pub has : node' ≡ some after
  pub accepted : Accepted profile now p.rx_buf p.length before after r

-- By the handler of the profile for which the client waits.
pub IsPageAccepted :
    ClientCurrentState → ℕ → Arrived → PageResult → Option NodeInfo → Option NodeInfo → Type 0
IsPageAccepted ClientCurrentState.nameplate = IsAcceptedBy name_plate
IsPageAccepted ClientCurrentState.daily_load = IsAcceptedBy daily_load
IsPageAccepted ClientCurrentState.block_load = IsAcceptedBy block_load
IsPageAccepted ClientCurrentState.billing_history = IsAcceptedBy billing
IsPageAccepted ClientCurrentState.instantaneous_profile = IsAcceptedBy instantaneous
IsPageAccepted _ = λ now p r node node'. ⊥

module _ (now : ℕ) (p : Arrived) {T : Type 0} (profile : PullProfile T) where
  on_node-IsAcceptedBy :
      (r : PageResult) (node node' : Option NodeInfo)
      → on_node (process_page profile now p.rx_buf p.length) node ≡ some (r, node')
      → r ≢ PageResult.failure
      → IsAcceptedBy profile now p r node node'
  unfolding on_node
  on_node-IsAcceptedBy r none node' e d = absurd (d cc)
  on_node-IsAcceptedBy r (some n) node' e d =
      let ((a, n'), f, g) = bind-eq-some (process_page profile now p.rx_buf p.length n) _ e in
      let same : a ≡ r = cc in
      let moved : some n' ≡ node' = cc in
      record {
        before = n;
        after = n';
        had = refl;
        has = sym moved;
        accepted =
            process_page-Accepted profile now p.rx_buf p.length n n' r
              (f ∙ ap (λ q. some (q, n')) same) d;
      }

-- The handler of a state, told apart.
handled_page :
    (now : ℕ) (p : Arrived)
    (handle done : Bytes → ℕ → Option NodeInfo → Option (PageResult × Option NodeInfo))
    (node : Option NodeInfo) (x : Option (PageResult × Option NodeInfo))
    → ◌≡◌ {A = Option (Bytes → ℕ → Option NodeInfo → Option (PageResult × Option NodeInfo))}
        (some done)
        (some handle)
    → handle p.rx_buf p.length node ≡ x
    → done p.rx_buf p.length node ≡ x
handled_page now p handle done node x e f =
    ap
      (λ (h : Bytes → ℕ → Option NodeInfo → Option (PageResult × Option NodeInfo)).
        h p.rx_buf p.length node)
      (some-injective done handle e)
    ∙ f

handler_of-IsPageAccepted :
    (now : ℕ) (p : Arrived) (state : ClientCurrentState)
    (handle : Bytes → ℕ → Option NodeInfo → Option (PageResult × Option NodeInfo)) (r : PageResult)
    (current after : Option NodeInfo)
    → handler_of now state ≡ some handle
    → handle p.rx_buf p.length current ≡ some (r, after)
    → r ≢ PageResult.failure
    → IsPageAccepted state now p r current after
unfolding IsPageAccepted handler_of process_nameplate_data process_daily_load_data
    process_block_load_data process_billing_history_data process_ip_profile_data
handler_of-IsPageAccepted now p ClientCurrentState.nameplate handle r current after e f d =
    on_node-IsAcceptedBy now p name_plate r current after
      (handled_page now p handle (process_nameplate_data now) current _ e f) d
handler_of-IsPageAccepted now p ClientCurrentState.daily_load handle r current after e f d =
    on_node-IsAcceptedBy now p daily_load r current after
      (handled_page now p handle (process_daily_load_data now) current _ e f) d
handler_of-IsPageAccepted now p ClientCurrentState.block_load handle r current after e f d =
    on_node-IsAcceptedBy now p block_load r current after
      (handled_page now p handle (process_block_load_data now) current _ e f) d
handler_of-IsPageAccepted now p ClientCurrentState.billing_history handle r current after e f d =
    on_node-IsAcceptedBy now p billing r current after
      (handled_page now p handle (process_billing_history_data now) current _ e f) d
handler_of-IsPageAccepted now p ClientCurrentState.instantaneous_profile handle r current after e f
      d =
    on_node-IsAcceptedBy now p instantaneous r current after
      (handled_page now p handle (process_ip_profile_data now) current _ e f) d
handler_of-IsPageAccepted now p _ handle r current after e f d = absurd (none_is_some e)

module _ (now : ℕ) (p : Arrived) (state : ClientCurrentState) (node : Option NodeInfo) where
  of_next_page : (r : PageResult) → of_page r ≡ next_page_present → r ≡ PageResult.next_page_present
  unfolding of_page
  of_next_page PageResult.success e = cc
  of_next_page PageResult.failure e = cc
  of_next_page PageResult.next_page_present e = refl

  step-IsPageAccepted :
      (a : ProcessCode × Client)
      → IsNodeStep now p state node a
      → a.0 ≡ next_page_present
      → IsPageAccepted state now p PageResult.next_page_present node a.1.current_node
  step-IsPageAccepted a (unchanged h d) e = absurd (d e)
  step-IsPageAccepted a (paged handle r {c} h f) e =
      let n = of_next_page r e in
      handler_of-IsPageAccepted now p state handle PageResult.next_page_present node c.current_node
        h (f ∙ ap (λ q. some (q, c.current_node)) n) (λ g. cc)
  step-IsPageAccepted a (versioned before w h f) e = cc

  steps-IsPageAccepted :
      (o : Option (ProcessCode × Client)) (c : Client)
      → AreNodeSteps now p state node o
      → o ≡ some (next_page_present, c)
      → IsPageAccepted state now p PageResult.next_page_present node c.current_node
  steps-IsPageAccepted o c nothing e = absurd (none_is_some e)
  steps-IsPageAccepted o c (something {a} h) e =
      let same : a ≡ (next_page_present, c) = some-injective a (next_page_present, c) e in
      subst
        (λ (x : ProcessCode × Client).
          IsPageAccepted state now p PageResult.next_page_present node x.1.current_node)
        same (step-IsPageAccepted a h (ap (λ (x : ProcessCode × Client). x.0) same))

step_of :
    {now : ℕ} {p : Arrived} {state : ClientCurrentState} {node : Option NodeInfo}
    {o : Option (ProcessCode × Client)} {x : ProcessCode × Client}
    → AreNodeSteps now p state node o
    → o ≡ some x
    → IsNodeStep now p state node x
step_of nothing e = absurd (none_is_some e)
step_of {now} {p} {state} {node} {x} (something {a} h) e =
    subst (IsNodeStep now p state node) (some-injective a x e) h

-- The client announces a further page of a profile only for a page of the current node that the handler
-- of the profile for which it waits accepted: its checksum and its address are right, all its records
-- were parsed, the node's buffer of this profile holds them, and the page itself says that another one
-- follows.
pub client_process_data-IsPageAccepted :
    {Tm : Type 0} (clock : Clock Tm) (now : ℕ) (p : Arrived) (c c' : Client)
    → client_process_data clock now p c ≡ some (next_page_present, c')
    → IsPageAccepted c.link.current_state now p PageResult.next_page_present c.current_node
        c'.current_node
client_process_data-IsPageAccepted clock now p c c' e =
    steps-IsPageAccepted now p c.link.current_state c.current_node
      (client_process_data clock now p c) c' (client_process_data-AreNodeSteps clock now p c) e

-- A packet changes the current node only through the page handler of the profile for which the client
-- waits, whose code is then the answer, or, where the client waits for the firmware version, in that
-- version, and then the answer is a success; in every other case the node stays as it was.
pub client_process_data-IsNodeStep :
    {Tm : Type 0} (clock : Clock Tm) (now : ℕ) (p : Arrived) (c c' : Client) (r : ProcessCode)
    → client_process_data clock now p c ≡ some (r, c')
    → IsNodeStep now p c.link.current_state c.current_node (r, c')
client_process_data-IsNodeStep clock now p c c' r e =
    step_of (client_process_data-AreNodeSteps clock now p c) e
