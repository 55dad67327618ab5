-- ===== src/Paths/Reconnect.antt =====
-- `attempt_dlms_reconnect` and `attempt_dlms_reconnect_all_paths` of HES/src/client.cpp.
pub mod Laws
use atlascode.Prelude.{List, [], ◌∷◌, Bytes, if◌then◌else◌}
use atlascode.Link.{
  ClientCurrentState, Code, success, failure, dlms_connection_failed, dlms_success, Link,
}
use atlascode.Link.Transmit.{PathInfo, transmit_command_on_path_pmesh}
use atlascode.Paths.{NodePaths, exchange}

-- `PullCommands::dlms_connect` of HES/inc/pull.h
abbrev pub dlms_connect : Bytes
dlms_connect = 43 ∷ 7 ∷ 0 ∷ 0 ∷ 0 ∷ 2 ∷ 1 ∷ 53 ∷ []

unfoldable pub reconnect_code : Code → Code
reconnect_code dlms_success = success
reconnect_code success = success
reconnect_code dlms_connection_failed = dlms_connection_failed
reconnect_code _ = failure

unfoldable pub attempt_dlms_reconnect : PathInfo → Link → Code × Link
unfolding transmit_command_on_path_pmesh reconnect_code
attempt_dlms_reconnect path l =
    let (ret, l') =
      transmit_command_on_path_pmesh 7 dlms_connect path 3
        (record l { current_state = ClientCurrentState.dlms_connect }) in
    (reconnect_code ret, record l' { current_state = l.current_state })

-- How the loop over the alternate paths goes on behind an attempt.
unfoldable pub reconnect_step :
    (Link → Code × NodePaths × Link) → PathInfo → NodePaths → Code → Link → Code × NodePaths × Link
unfolding exchange
reconnect_step next alt node success l = (success, exchange alt node, l)
reconnect_step next alt node dlms_connection_failed l = (dlms_connection_failed, node, l)
reconnect_step next alt node _ l = next l

unfoldable pub reconnect_alternates : List PathInfo → NodePaths → Link → Code × NodePaths × Link
unfolding attempt_dlms_reconnect reconnect_step
reconnect_alternates [] node l = (failure, node, l)
reconnect_alternates (alt ∷ alts) node l =
    reconnect_step (reconnect_alternates alts node) alt node (attempt_dlms_reconnect alt l).0
      (attempt_dlms_reconnect alt l).1

-- Behind the attempt on the path that failed.
unfoldable pub reconnect_behind : NodePaths → Code → Link → Code × NodePaths × Link
unfolding reconnect_alternates
reconnect_behind node success l = (success, node, l)
reconnect_behind node dlms_connection_failed l = (dlms_connection_failed, node, l)
reconnect_behind node _ l =
    if l.gateway_status
    then reconnect_alternates node.alternate_paths node l
    else (failure, node, l)

unfoldable pub attempt_dlms_reconnect_all_paths :
    NodePaths → PathInfo → Link → Code × NodePaths × Link
unfolding attempt_dlms_reconnect reconnect_behind
attempt_dlms_reconnect_all_paths node failed_path l =
    reconnect_behind node (attempt_dlms_reconnect failed_path l).0
      (attempt_dlms_reconnect failed_path l).1
