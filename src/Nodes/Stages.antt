-- ===== src/Nodes/Stages.antt =====
-- The stages of `pull_missing_info_for_all_nodes`, HES/src/client.cpp. The ranges that the load profiles
-- ask for are an argument, and so is the stage of the scalar profile, which touches no node.
pub mod Laws
pub mod Outcome
use atlascode.Prelude.{ℕ, Bool, true, false, List, Option, none, some, Bytes, ◌>>=◌, if◌then◌else◌}
use atlascode.Link.{ClientCurrentState, Code, success, enabled, Link}
use atlascode.Link.Frames.{
  frame_dlms_nameplate_command_packet, frame_dlms_dlp_command_packet, frame_dlms_blp_command_packet,
  frame_dlms_bhp_command_packet,
}
use atlascode.Paths.{NodePaths}
use atlascode.Paths.Commands.{
  enter, check_fuota_status, fuota_disable_for_a_node, pull_internal_firmware_version_for_a_node,
}
use atlascode.Paths.Pages.{Pulled}
use atlascode.Nodes.{
  NodeInfo, Saved, delete_node_from_unsilence_nodes, update_internal_firmware_version,
  insert_name_plate_data, insert_daily_load_profile_data, insert_block_load_profile_data,
  insert_billing_history_profile_data, Session, save, Step, Result, for_nodes,
}
use atlascode.Nodes.Cycles.{pull_profile, pull_missing_instantaneous_for_a_node}

-- The ranges of yesterday and of the hour before, as `SecondsFromBase` counts them.
pub record Ranges : Type 0 where
  pub day_start : ℕ
  pub day_end : ℕ
  pub hour_start : ℕ
  pub hour_end : ℕ

-- A command's result put back, with the call that follows a success.
unfoldable pub put : NodeInfo → Session → Saved → Code × NodePaths × Link → NodeInfo × Session
put node s c (success, paths, l) = (record node { paths = paths }, save c (record s { link = l }))
put node s c (_, paths, l) = (record node { paths = paths }, record s { link = l })

-- Behind the status: a node that is not silenced any more is deleted from the list, one that is gets
-- the command first.
unfoldable pub after_status : NodeInfo → Session → Code × NodePaths × Link → NodeInfo × Session
unfolding put fuota_disable_for_a_node
after_status node s (enabled, paths, l) =
    put node s (delete_node_from_unsilence_nodes node.node_mac_address)
      (fuota_disable_for_a_node paths l)
after_status node s (ret, paths, l) =
    put node s (delete_node_from_unsilence_nodes node.node_mac_address) (ret, paths, l)

unfoldable pub unsilence_node : Step
unfolding after_status check_fuota_status
unsilence_node node s = some (
    if node.missing_info.is_silenced
    then after_status node s (check_fuota_status node.paths s.link)
    else (node, s))

unfoldable pub unsilence_all_nodes : List NodeInfo → Session → Option Result
unfolding for_nodes unsilence_node
unsilence_all_nodes nodes s = for_nodes unsilence_node nodes s

unfoldable pub firmware_version_node : Step
unfolding put pull_internal_firmware_version_for_a_node
firmware_version_node node s = some (
    if node.missing_info.verify_ifv_presence
    then (node, s)
    else put node s (update_internal_firmware_version node.node_mac_address)
        (pull_internal_firmware_version_for_a_node node.paths s.link))

unfoldable pub pull_missing_internal_firmware_version_for_all_nodes :
    List NodeInfo → Session → Option Result
unfolding for_nodes firmware_version_node
pull_missing_internal_firmware_version_for_all_nodes nodes s =
    for_nodes firmware_version_node nodes s

-- A node of a profile's loop: what is there is skipped, and what came is inserted.
unfoldable pub profile_node :
    (NodeInfo → Bool) → (NodePaths → Link → Option Pulled) → (Bytes → Saved) → Step
unfolding put
profile_node available pull insert node s = if available node then some (node, s) else (do
  p ← pull node.paths s.link
  some (put node s (insert node.node_mac_address) (p.code, p.node, p.link)))

unfoldable pub pull_nameplate_for_a_node : NodePaths → Link → Option Pulled
unfolding pull_profile frame_dlms_nameplate_command_packet
pull_nameplate_for_a_node paths l =
    pull_profile ClientCurrentState.nameplate frame_dlms_nameplate_command_packet paths l

unfoldable pub pull_missing_nameplate_for_all_nodes : List NodeInfo → Session → Option Result
unfolding for_nodes profile_node pull_nameplate_for_a_node
pull_missing_nameplate_for_all_nodes nodes s =
    for_nodes
      (profile_node (λ node. node.missing_info.is_name_plate_available) pull_nameplate_for_a_node
        insert_name_plate_data)
      nodes s

unfoldable pub pull_daily_load_profile_for_a_node : Ranges → NodePaths → Link → Option Pulled
unfolding pull_profile frame_dlms_dlp_command_packet
pull_daily_load_profile_for_a_node r paths l =
    pull_profile ClientCurrentState.daily_load (frame_dlms_dlp_command_packet r.day_start r.day_end)
      paths l

unfoldable pub pull_missing_daily_load_for_all_nodes :
    Ranges → List NodeInfo → Session → Option Result
unfolding for_nodes profile_node pull_daily_load_profile_for_a_node
pull_missing_daily_load_for_all_nodes r nodes s =
    for_nodes
      (profile_node (λ node. node.missing_info.is_dlp_available)
        (pull_daily_load_profile_for_a_node r) insert_daily_load_profile_data)
      nodes s

unfoldable pub pull_block_load_profile_for_a_node : Ranges → NodePaths → Link → Option Pulled
unfolding pull_profile frame_dlms_blp_command_packet
pull_block_load_profile_for_a_node r paths l =
    pull_profile ClientCurrentState.block_load
      (frame_dlms_blp_command_packet r.hour_start r.hour_end) paths l

unfoldable pub pull_missing_block_load_for_all_nodes :
    Ranges → List NodeInfo → Session → Option Result
unfolding for_nodes profile_node pull_block_load_profile_for_a_node
pull_missing_block_load_for_all_nodes r nodes s =
    for_nodes
      (profile_node (λ node. node.missing_info.is_blp_available)
        (pull_block_load_profile_for_a_node r) insert_block_load_profile_data)
      nodes s

unfoldable pub pull_billing_history_profile_for_a_node : NodePaths → Link → Option Pulled
unfolding pull_profile frame_dlms_bhp_command_packet
pull_billing_history_profile_for_a_node paths l =
    pull_profile ClientCurrentState.billing_history frame_dlms_bhp_command_packet paths l

unfoldable pub pull_missing_billing_history_for_all_nodes : List NodeInfo → Session → Option Result
unfolding for_nodes profile_node pull_billing_history_profile_for_a_node
pull_missing_billing_history_for_all_nodes nodes s =
    for_nodes
      (profile_node (λ node. node.missing_info.is_bhp_available)
        pull_billing_history_profile_for_a_node insert_billing_history_profile_data)
      nodes s

-- A node's missing cycles; those that are left stay in its list.
unfoldable pub ip_node : Step
unfolding pull_missing_instantaneous_for_a_node
ip_node node s = do
  d ←
      pull_missing_instantaneous_for_a_node node.node_mac_address
        node.missing_info.missing_ip_cycles node.paths s
  some (
    record node {
      missing_info = record node.missing_info { missing_ip_cycles = d.missing_ip_cycles };
      paths = d.paths;
    },
    d.session,
  )

unfoldable pub pull_missing_ip_profile_for_all_nodes : List NodeInfo → Session → Option Result
unfolding for_nodes ip_node
pull_missing_ip_profile_for_all_nodes nodes s = for_nodes ip_node nodes s

-- A stage behind those before it: only a success goes on.
infixl 4 ◌then_stage◌
unfoldable pub ◌then_stage◌ :
    Option Result → (List NodeInfo → Session → Option Result) → Option Result
none then_stage stage = none
some (true, nodes, s) then_stage stage = stage nodes s
some (false, nodes, s) then_stage stage = some (false, nodes, s)

-- The scalar profile, where one is missing, and the scalars read from the database.
unfoldable pub scalar_stage : (Session → Bool × Session) → List NodeInfo → Session → Option Result
scalar_stage scalar nodes s = some ((scalar s).0, nodes, (scalar s).1)

unfoldable pub stages :
    Ranges → (Session → Bool × Session) → List NodeInfo → Session → Option Result
unfolding unsilence_all_nodes pull_missing_internal_firmware_version_for_all_nodes
    pull_missing_nameplate_for_all_nodes pull_missing_ip_profile_for_all_nodes
    pull_missing_daily_load_for_all_nodes pull_missing_block_load_for_all_nodes
    pull_missing_billing_history_for_all_nodes scalar_stage ◌then_stage◌
stages r scalar nodes s =
    unsilence_all_nodes nodes s
    then_stage pull_missing_internal_firmware_version_for_all_nodes
    then_stage pull_missing_nameplate_for_all_nodes
    then_stage scalar_stage scalar
    then_stage pull_missing_ip_profile_for_all_nodes
    then_stage pull_missing_daily_load_for_all_nodes r
    then_stage pull_missing_block_load_for_all_nodes r
    then_stage pull_missing_billing_history_for_all_nodes

-- Whatever the last stage came to, the session ends idle.
unfoldable pub idle_at_end : Result → Result
idle_at_end (ok, nodes, s) = (ok, nodes, record s { link = enter ClientCurrentState.idle s.link })

unfoldable pub pull_missing_info_for_all_nodes :
    Ranges → (Session → Bool × Session) → List NodeInfo → Session → Option Result
unfolding stages idle_at_end
pull_missing_info_for_all_nodes r scalar nodes s =
    stages r scalar nodes s >>= (λ (t : Result). some (idle_at_end t))
