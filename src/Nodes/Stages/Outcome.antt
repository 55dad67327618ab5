-- ===== src/Nodes/Stages/Outcome.antt =====
-- What `pull_missing_info_for_all_nodes`, HES/src/client.cpp, comes to over its stages.
use atlascode.Prelude.{
  ◌≡◌, ◌≢◌, refl, Bool, true, false, List, [], ◌∷◌, Option, none, some, ◌>>=◌, inl,
}
use atlascode.Link.{ClientCurrentState}
use atlascode.Link.Frames.{
  frame_dlms_nameplate_command_packet, frame_dlms_dlp_command_packet, frame_dlms_blp_command_packet,
  frame_dlms_bhp_command_packet,
}
use atlascode.Paths.Pages.Laws.{OnSome, OnSome-elim}
use atlascode.Nodes.{
  insert_name_plate_data, insert_daily_load_profile_data, insert_block_load_profile_data,
  insert_billing_history_profile_data, NodeInfo, Session, Step, Result, for_nodes,
}
use atlascode.Nodes.Stages.{
  Ranges, unsilence_node, unsilence_all_nodes, firmware_version_node,
  pull_missing_internal_firmware_version_for_all_nodes, pull_nameplate_for_a_node,
  pull_missing_nameplate_for_all_nodes, pull_daily_load_profile_for_a_node,
  pull_missing_daily_load_for_all_nodes, pull_block_load_profile_for_a_node,
  pull_missing_block_load_for_all_nodes, pull_billing_history_profile_for_a_node,
  pull_missing_billing_history_for_all_nodes, ip_node, pull_missing_ip_profile_for_all_nodes,
  ◌then_stage◌, scalar_stage, stages, idle_at_end, pull_missing_info_for_all_nodes,
}
use atlascode.Nodes.Stages.Laws.{
  NodesKept, NodesKept-refl, NodesKept-trans, IsRun, IsStep, for_nodes-IsRun, unsilence_node-IsStep,
  firmware_version_node-IsStep, profile_node-IsStep, ip_node-IsStep,
}

-- A stage, and a chain of stages.
record IsPassed (nodes : List NodeInfo) (r : Result) : Type 0 where
  kept : NodesKept nodes r.1
  connected : r.0 ≡ true → nodes ≢ [] → r.2.link.gateway_status ≡ true

abbrev AllKept : List NodeInfo → Result → Type 0
AllKept nodes r = NodesKept nodes r.1

for_nodes-IsPassed :
    (step : Step) (h : IsStep step) (nodes : List NodeInfo) (s : Session)
    → OnSome (IsPassed nodes) (for_nodes step nodes s)
for_nodes-IsPassed step h nodes s = by (for_nodes step nodes s) (for_nodes-IsRun step h nodes s)
  where
    by : (o : Option Result) → OnSome (IsRun nodes s) o → OnSome (IsPassed nodes) o
    by none i = i
    by (some r) i = record { kept = i.kept; connected = λ e d. i.connected e (inl d) }

only_kept :
    (nodes : List NodeInfo) (o : Option Result)
    → OnSome (IsPassed nodes) o
    → OnSome (AllKept nodes) o
only_kept nodes none i = i
only_kept nodes (some r) i = i.kept

not_empty : (ms ns : List NodeInfo) → NodesKept ms ns → ms ≢ [] → ns ≢ []
not_empty [] ns h d e = d refl
not_empty (m ∷ ms) [] h d e = h
not_empty (m ∷ ms) (n ∷ ns) h d e = absurd cc

module _ (next : List NodeInfo → Session → Option Result) (nodes : List NodeInfo) where
  behind_stage :
      (ns : List NodeInfo) (o : Option Result)
      → NodesKept nodes ns
      → OnSome (AllKept ns) o
      → OnSome (AllKept nodes) o
  behind_stage ns none h i = i
  behind_stage ns (some r) h i = NodesKept-trans nodes ns r.1 h i

  then_stage-AllKept :
      (o : Option Result)
      → ((ns : List NodeInfo) (s : Session) → OnSome (AllKept ns) (next ns s))
      → OnSome (AllKept nodes) o
      → OnSome (AllKept nodes) (o then_stage next)
  unfolding ◌then_stage◌
  then_stage-AllKept none h i = i
  then_stage-AllKept (some (true, ns, s)) h i = behind_stage ns (next ns s) i (h ns s)
  then_stage-AllKept (some (false, ns, s)) h i = i

  ends-IsPassed :
      (ns : List NodeInfo) (o : Option Result)
      → NodesKept nodes ns
      → OnSome (IsPassed ns) o
      → OnSome (IsPassed nodes) o
  ends-IsPassed ns none h i = i
  ends-IsPassed ns (some r) h i = record {
    kept = NodesKept-trans nodes ns r.1 h i.kept;
    connected = λ e d. i.connected e (not_empty nodes ns h d);
  }

  then_stage-IsPassed :
      (o : Option Result)
      → ((ns : List NodeInfo) (s : Session) → OnSome (IsPassed ns) (next ns s))
      → OnSome (AllKept nodes) o
      → OnSome (IsPassed nodes) (o then_stage next)
  unfolding ◌then_stage◌
  then_stage-IsPassed none h i = i
  then_stage-IsPassed (some (true, ns, s)) h i = ends-IsPassed ns (next ns s) i (h ns s)
  then_stage-IsPassed (some (false, ns, s)) h i = record { kept = i; connected = λ e. absurd cc }

-- A further stage.
also :
    (next : List NodeInfo → Session → Option Result) (nodes : List NodeInfo) (o : Option Result)
    → ((ns : List NodeInfo) (s : Session) → OnSome (IsPassed ns) (next ns s))
    → OnSome (AllKept nodes) o
    → OnSome (AllKept nodes) (o then_stage next)
also next nodes o h i =
    then_stage-AllKept next nodes o (λ ns s. only_kept ns (next ns s) (h ns s)) i

module _ (ns : List NodeInfo) (s : Session) where
  unsilence-IsPassed : OnSome (IsPassed ns) (unsilence_all_nodes ns s)
  unfolding unsilence_all_nodes
  unsilence-IsPassed = for_nodes-IsPassed unsilence_node unsilence_node-IsStep ns s

  firmware_version-IsPassed :
      OnSome (IsPassed ns) (pull_missing_internal_firmware_version_for_all_nodes ns s)
  unfolding pull_missing_internal_firmware_version_for_all_nodes
  firmware_version-IsPassed =
      for_nodes-IsPassed firmware_version_node firmware_version_node-IsStep ns s

  nameplate-IsPassed : OnSome (IsPassed ns) (pull_missing_nameplate_for_all_nodes ns s)
  unfolding pull_missing_nameplate_for_all_nodes pull_nameplate_for_a_node
  nameplate-IsPassed =
      for_nodes-IsPassed _
        (profile_node-IsStep (λ node. node.missing_info.is_name_plate_available)
          ClientCurrentState.nameplate frame_dlms_nameplate_command_packet insert_name_plate_data)
        ns s

  ip-IsPassed : OnSome (IsPassed ns) (pull_missing_ip_profile_for_all_nodes ns s)
  unfolding pull_missing_ip_profile_for_all_nodes
  ip-IsPassed = for_nodes-IsPassed ip_node ip_node-IsStep ns s

  daily_load-IsPassed :
      (r : Ranges) → OnSome (IsPassed ns) (pull_missing_daily_load_for_all_nodes r ns s)
  unfolding pull_missing_daily_load_for_all_nodes pull_daily_load_profile_for_a_node
  daily_load-IsPassed r =
      for_nodes-IsPassed _
        (profile_node-IsStep (λ node. node.missing_info.is_dlp_available)
          ClientCurrentState.daily_load (frame_dlms_dlp_command_packet r.day_start r.day_end)
          insert_daily_load_profile_data)
        ns s

  block_load-IsPassed :
      (r : Ranges) → OnSome (IsPassed ns) (pull_missing_block_load_for_all_nodes r ns s)
  unfolding pull_missing_block_load_for_all_nodes pull_block_load_profile_for_a_node
  block_load-IsPassed r =
      for_nodes-IsPassed _
        (profile_node-IsStep (λ node. node.missing_info.is_blp_available)
          ClientCurrentState.block_load (frame_dlms_blp_command_packet r.hour_start r.hour_end)
          insert_block_load_profile_data)
        ns s

  billing-IsPassed : OnSome (IsPassed ns) (pull_missing_billing_history_for_all_nodes ns s)
  unfolding pull_missing_billing_history_for_all_nodes pull_billing_history_profile_for_a_node
  billing-IsPassed =
      for_nodes-IsPassed _
        (profile_node-IsStep (λ node. node.missing_info.is_bhp_available)
          ClientCurrentState.billing_history frame_dlms_bhp_command_packet
          insert_billing_history_profile_data)
        ns s

scalar-AllKept :
    (scalar : Session → Bool × Session) (ns : List NodeInfo) (t : Session)
    → OnSome (AllKept ns) (scalar_stage scalar ns t)
unfolding scalar_stage
scalar-AllKept scalar ns t = NodesKept-refl ns

stages-IsPassed :
    (r : Ranges) (scalar : Session → Bool × Session) (nodes : List NodeInfo) (s : Session)
    → OnSome (IsPassed nodes) (stages r scalar nodes s)
unfolding stages
stages-IsPassed r scalar nodes s =
    let o1 = unsilence_all_nodes nodes s in
    let i1 = only_kept nodes o1 (unsilence-IsPassed nodes s) in
    let o2 = o1 then_stage pull_missing_internal_firmware_version_for_all_nodes in
    let i2 =
      also pull_missing_internal_firmware_version_for_all_nodes nodes o1 firmware_version-IsPassed
        i1 in
    let o3 = o2 then_stage pull_missing_nameplate_for_all_nodes in
    let i3 = also pull_missing_nameplate_for_all_nodes nodes o2 nameplate-IsPassed i2 in
    let o4 = o3 then_stage scalar_stage scalar in
    let i4 = then_stage-AllKept (scalar_stage scalar) nodes o3 (scalar-AllKept scalar) i3 in
    let o5 = o4 then_stage pull_missing_ip_profile_for_all_nodes in
    let i5 = also pull_missing_ip_profile_for_all_nodes nodes o4 ip-IsPassed i4 in
    let o6 = o5 then_stage pull_missing_daily_load_for_all_nodes r in
    let i6 =
      also (pull_missing_daily_load_for_all_nodes r) nodes o5 (λ ns t. daily_load-IsPassed ns t r)
        i5 in
    let o7 = o6 then_stage pull_missing_block_load_for_all_nodes r in
    let i7 =
      also (pull_missing_block_load_for_all_nodes r) nodes o6 (λ ns t. block_load-IsPassed ns t r)
        i6 in
    then_stage-IsPassed pull_missing_billing_history_for_all_nodes nodes o7 billing-IsPassed i7

-- A result of the whole pull.
record IsComplete (nodes : List NodeInfo) (r : Result) : Type 0 where
  kept : NodesKept nodes r.1
  connected : r.0 ≡ true → nodes ≢ [] → r.2.link.gateway_status ≡ true
  idle : r.2.link.current_state ≡ ClientCurrentState.idle

complete :
    (r : Ranges) (scalar : Session → Bool × Session) (nodes : List NodeInfo) (s : Session)
    → OnSome (IsComplete nodes) (pull_missing_info_for_all_nodes r scalar nodes s)
unfolding pull_missing_info_for_all_nodes idle_at_end
complete r scalar nodes s = by (stages r scalar nodes s) (stages-IsPassed r scalar nodes s)
  where
    by :
        (o : Option Result)
        → OnSome (IsPassed nodes) o
        → OnSome (IsComplete nodes) (o >>= (λ (t : Result). some (idle_at_end t)))
    by none i = i
    by (some (ok, ns, t)) i = record { kept = i.kept; connected = i.connected; idle = refl }

-- However the pull of the missing data of all nodes ends that returns, with the reconnections and
-- promotions of all its stages, the nodes are those of before, in the same order, and each one has
-- the same paths as before; the session ends idle.
pub pull_missing_info-NodesKept :
    (r : Ranges) (scalar : Session → Bool × Session) (nodes : List NodeInfo) (s : Session)
    (t : Result)
    → pull_missing_info_for_all_nodes r scalar nodes s ≡ some t
    → NodesKept nodes t.1 × (t.2.link.current_state ≡ ClientCurrentState.idle)
pull_missing_info-NodesKept r scalar nodes s t e =
    let c = OnSome-elim (IsComplete nodes) e (complete r scalar nodes s) in (c.kept, c.idle)

-- When the pull of the missing data of a gateway that has nodes answers with a success, the gateway
-- is still connected.
pub pull_missing_info-connected :
    (r : Ranges) (scalar : Session → Bool × Session) (node : NodeInfo) (nodes : List NodeInfo)
    (s : Session) (t : Result)
    → pull_missing_info_for_all_nodes r scalar (node ∷ nodes) s ≡ some t
    → t.0 ≡ true
    → t.2.link.gateway_status ≡ true
pull_missing_info-connected r scalar node nodes s t e ok =
    let c = OnSome-elim (IsComplete (node ∷ nodes)) e (complete r scalar (node ∷ nodes) s) in
    c.connected ok (λ d. cc)
