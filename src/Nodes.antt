-- ===== src/Nodes.antt =====
-- The missing data of all nodes of a gateway, HES/src/client.cpp: `pull_missing_info_for_all_nodes` and
-- the loops over the nodes that it calls. `none` is the fault of a pull, as in Paths.Pages.
pub mod Cycles
pub mod Stages
use atlascode.Prelude.{Bool, true, false, List, [], ◌∷◌, Option, some, Bytes, ◌>>=◌, if◌then◌else◌}
use atlascode.Prelude.Signed.{ℤ}
use atlascode.Link.{Link}
use atlascode.Paths.{NodePaths}

-- Of HES/inc/pull.h; `verify_ifv_presence` says whether the number is not 0.
pub record MissingCycleInfo : Type 0 where
  pub missing_ip_cycles : List ℤ
  pub is_blp_available : Bool
  pub is_dlp_available : Bool
  pub is_bhp_available : Bool
  pub is_name_plate_available : Bool
  pub is_silenced : Bool
  pub verify_ifv_presence : Bool

-- `NodeInfo` without the profile data, which the reception fills.
pub record NodeInfo : Type 0 where
  pub node_mac_address : Bytes
  pub missing_info : MissingCycleInfo
  pub paths : NodePaths

-- The calls that change the database; a cycle is the argument of `calculate_cycle_id`.
pub data Saved : Type 0 where
  delete_node_from_unsilence_nodes update_internal_firmware_version : Bytes → Saved
  insert_name_plate_data insert_daily_load_profile_data : Bytes → Saved
  insert_block_load_profile_data insert_billing_history_profile_data : Bytes → Saved
  insert_instantaneous_parameters : Bytes → ℤ → Saved

-- The link, what the reads of `ODM_Flag` by this thread see, and the calls of the database, the last
-- one first.
pub record Session : Type 0 where
  pub link : Link
  pub odm_flags : List Bool
  pub saved : List Saved

abbrev pub save : Saved → Session → Session
save c s = record s { saved = c ∷ s.saved }

-- The flag; when the list is at its end it is not set.
unfoldable pub read_odm_flag : List Bool → Bool × List Bool
read_odm_flag [] = (false, [])
read_odm_flag (b ∷ flags) = (b, flags)

-- `gatewayStatus == DISCONNECTED || ODM_Flag == 1`
unfoldable pub interrupted : Session → Bool × Session
unfolding read_odm_flag
interrupted s =
    if s.link.gateway_status
    then ((read_odm_flag s.odm_flags).0, record s { odm_flags = (read_odm_flag s.odm_flags).1 })
    else (true, s)

-- What one node goes through, and the loops; the code is whether it is `SUCCESS`.
abbrev pub Step : Type 0
Step = NodeInfo → Session → Option (NodeInfo × Session)

abbrev pub Result : Type 0
Result = Bool × List NodeInfo × Session

unfoldable pub keep_node : NodeInfo → Result → Result
keep_node node (ok, nodes, s) = (ok, node ∷ nodes, s)

-- Behind a node: the loop stops, or goes on with `rest`.
unfoldable pub after_node :
    (Session → Option Result) → NodeInfo → List NodeInfo → Bool → Session → Option Result
unfolding keep_node
after_node rest node nodes true s = some (false, node ∷ nodes, s)
after_node rest node nodes false s = rest s >>= (λ (r : Result). some (keep_node node r))

unfoldable pub for_nodes : Step → List NodeInfo → Session → Option Result
unfolding after_node interrupted
for_nodes step [] s = some (true, [], s)
for_nodes step (node ∷ nodes) s = do
  (node', s') ← step node s
  after_node (for_nodes step nodes) node' nodes (interrupted s').0 (interrupted s').1
