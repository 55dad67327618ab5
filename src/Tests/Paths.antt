-- ===== src/Tests/Paths.antt =====
-- The paths of a node, and the pull of all nodes.
use atlascode.Prelude.{
  ℕ, suc, ◌+◌, ◌*◌, ◌≤◌, ◌≡◌, refl, Bool, true, false, List, [], ◌∷◌, Option, none, some, Bytes,
  length, take, bytes_eq,
}
use atlascode.Prelude.Signed.{pos}
use atlascode.Link.{
  write_to_client_vector, ClientCurrentState, success, failure, enabled, next_page_present,
  dlms_connection_failed, dlms_success, other, Arrival,
}
use atlascode.Link.Transmit.OnPath.{LastWritten}
use atlascode.Paths.{NodePaths}
use atlascode.Paths.Laws.{SamePaths}
use atlascode.Paths.Reconnect.Laws.{Kept}
use atlascode.Paths.Pages.{Pulled, try_paths_for_profile_pull}
use atlascode.Paths.Pages.Outcome.{try_paths-SamePaths, try_paths-LastWritten, try_paths-writes}
use atlascode.Paths.Commands.{
  soft_exit, fuota_status, enter, commission, check_fuota_status,
  pull_internal_firmware_version_for_a_node, fuota_disable_for_a_node,
}
use atlascode.Paths.Commands.Outcome.{commands-Kept, fuota_disable-LastWritten}
use atlascode.Nodes.{NodeInfo, delete_node_from_unsilence_nodes, Session, Result}
use atlascode.Nodes.Cycles.{
  Downloaded, pull_missing_instantaneous_for_a_node, IsAccounted, cycles-IsAccounted,
}
use atlascode.Nodes.Stages.{Ranges, pull_missing_info_for_all_nodes}
use atlascode.Nodes.Stages.Laws.{NodesKept}
use atlascode.Nodes.Stages.Outcome.{pull_missing_info-NodesKept, pull_missing_info-connected}
use atlascode.Tests.Links.{hop, replies, link}

-- A node on path 7 with an alternate path 8.
abbrev node : NodePaths
node = record { primary_path = hop 7; alternate_paths = hop 8 ∷ []; buffer = 0 }

-- A request of no sense but for its page.
abbrev frame : ℕ → Bytes
frame page_index = page_index ∷ []

-- Path 7 stays unanswered but for a code of another kind; path 8 brings two pages.
abbrev over_8 : List Arrival
over_8 =
    replies 7 other
    ∷ replies 7 other
    ∷ replies 7 other
    ∷ replies 8 next_page_present
    ∷ replies 8 success
    ∷ []

abbrev result : Option Pulled → Pulled → Pulled
result none p = p
result (some p) q = p

abbrev no_pull : Pulled
no_pull = record { code = failure; page_index = 0; node = node; link = link [] }

abbrev pulled : List Arrival → Pulled
pulled arrivals = result (try_paths_for_profile_pull frame 0 node (link arrivals)) no_pull

promoted_to_8 :
    ((pulled over_8).code ≡ success)
    × ((pulled over_8).page_index ≡ 1)
    × ((pulled over_8).node.primary_path ≡ hop 8)
    × ((pulled over_8).node.alternate_paths ≡ hop 7 ∷ [])
unfolding try_paths_for_profile_pull write_to_client_vector bytes_eq
promoted_to_8 = (refl, refl, refl, refl)

-- The connection of the meter fails on the alternate path, and comes back there at the second
-- attempt: the paths are exchanged, and the reference to the alternate one is stale.
stale_reference :
    try_paths_for_profile_pull frame 0 node (
      link (
        replies 7 other
        ∷ replies 7 other
        ∷ replies 7 other
        ∷ replies 8 dlms_connection_failed
        ∷ replies 8 other
        ∷ replies 8 other
        ∷ replies 8 other
        ∷ replies 8 dlms_success
        ∷ []))
    ≡ none
unfolding try_paths_for_profile_pull write_to_client_vector bytes_eq
stale_reference = refl

second_path_taken : try_paths_for_profile_pull frame 0 node (link over_8) ≡ some (pulled over_8)
unfolding try_paths_for_profile_pull write_to_client_vector bytes_eq
second_path_taken = refl

try_paths-SamePaths_example :
    SamePaths node (pulled over_8).node
    × (length (pulled over_8).node.alternate_paths ≤ length node.alternate_paths)
try_paths-SamePaths_example =
    try_paths-SamePaths frame 0 node (link over_8) (pulled over_8) second_path_taken

try_paths-LastWritten_example :
    LastWritten 7
      (frame (pulled over_8).page_index)
      (pulled over_8).node.primary_path
      (pulled over_8).link
try_paths-LastWritten_example =
    try_paths-LastWritten frame 0 node (link over_8) (pulled over_8) second_path_taken
      promoted_to_8.0

try_paths-writes_example :
    length (pulled over_8).link.written
    ≤ suc (length node.alternate_paths) * (16 * (6 + 3 * length node.alternate_paths))
      + length (link over_8).written
try_paths-writes_example =
    try_paths-writes frame 0 node (link over_8) (pulled over_8) second_path_taken

abbrev single : NodePaths
single = record { primary_path = hop 7; alternate_paths = []; buffer = 0 }

commands-Kept_example :
    (let (ret, m, k) = check_fuota_status node (link over_8) in
      Kept (suc (length node.alternate_paths) * 3) node m (link over_8) k)
    × (let (ret, m, k) = pull_internal_firmware_version_for_a_node node (link over_8) in
        Kept (suc (length node.alternate_paths) * 3) node m (link over_8) k)
    × (let (ret, m, k) = fuota_disable_for_a_node node (link over_8) in
        Kept (suc (length node.alternate_paths) * 9) node m (link over_8) k)
commands-Kept_example = commands-Kept node (link over_8)

-- Path 7 refuses; over path 8 all three commands are answered.
abbrev disable_over_8 : List Arrival
disable_over_8 =
    replies 7 other
    ∷ replies 7 other
    ∷ replies 7 other
    ∷ replies 8 success
    ∷ replies 8 success
    ∷ replies 8 success
    ∷ []

disabled_over_8 :
    ((fuota_disable_for_a_node node (link disable_over_8)).0 ≡ success)
    × ((fuota_disable_for_a_node node (link disable_over_8)).1.primary_path ≡ hop 8)
unfolding fuota_disable_for_a_node write_to_client_vector bytes_eq
disabled_over_8 = (refl, refl)

fuota_disable-LastWritten_example :
    LastWritten 3 soft_exit
      (fuota_disable_for_a_node node (link disable_over_8)).1.primary_path
      (fuota_disable_for_a_node node (link disable_over_8)).2
fuota_disable-LastWritten_example =
    fuota_disable-LastWritten node (link disable_over_8) (rw disabled_over_8.0 (λ e. absurd cc))

-- On the alternate path the answer "enabled" is taken, and returned though all went well.
enabled_over_8 :
    (fuota_disable_for_a_node node (
      link (
        replies 7 other
        ∷ replies 7 other
        ∷ replies 7 other
        ∷ replies 8 enabled
        ∷ replies 8 success
        ∷ replies 8 success
        ∷ []))).0
    ≡ enabled
unfolding fuota_disable_for_a_node write_to_client_vector bytes_eq
enabled_over_8 = refl

-- Of two missing cycles the first one comes, and the second does not.
abbrev session : List Arrival → Session
session arrivals = record { link = link arrivals; odm_flags = []; saved = [] }

abbrev one_cycle : List Arrival
one_cycle = replies 7 success ∷ []

abbrev no_cycle : Downloaded
no_cycle = record { ok = true; missing_ip_cycles = []; paths = single; session = session [] }

abbrev or_else : {A : Type 0} → Option A → A → A
or_else none a = a
or_else (some a) b = a

abbrev downloaded : Downloaded
downloaded =
    or_else
      (pull_missing_instantaneous_for_a_node (1 ∷ 2 ∷ []) (pos 2 ∷ pos 0 ∷ []) single
        (session one_cycle))
      no_cycle

downloaded_one :
    (downloaded.ok ≡ false)
    × (downloaded.missing_ip_cycles ≡ pos 0 ∷ [])
    × (pull_missing_instantaneous_for_a_node
          (1 ∷ 2 ∷ [])
          (pos 2 ∷ pos 0 ∷ [])
          single
          (session one_cycle)
        ≡ some downloaded)
unfolding pull_missing_instantaneous_for_a_node write_to_client_vector bytes_eq
downloaded_one = (refl, refl, refl)

cycles-IsAccounted_example :
    IsAccounted (1 ∷ 2 ∷ []) (take 4 (pos 2 ∷ pos 0 ∷ [])) single (session one_cycle) downloaded
cycles-IsAccounted_example =
    cycles-IsAccounted (1 ∷ 2 ∷ []) (pos 2 ∷ pos 0 ∷ []) single (session one_cycle) downloaded
      downloaded_one.2

-- A node that counts as silenced and lacks nothing; it answers that the firmware update is disabled.
abbrev the_node : NodeInfo
the_node = record {
  node_mac_address = 1 ∷ 2 ∷ [];
  missing_info = record {
    missing_ip_cycles = [];
    is_blp_available = true;
    is_dlp_available = true;
    is_bhp_available = true;
    is_name_plate_available = true;
    is_silenced = true;
    verify_ifv_presence = true;
  };
  paths = node;
}

abbrev nodes : List NodeInfo
nodes = the_node ∷ []

abbrev ranges : Ranges
ranges = record { day_start = 0; day_end = 86399; hour_start = 0; hour_end = 3599 }

abbrev no_scalar : Session → Bool × Session
no_scalar s = (true, s)

abbrev all_pulled : Result
all_pulled = (
  true,
  nodes,
  record {
    link =
        record (commission fuota_status (hop 7)
          (enter ClientCurrentState.fuota_status (link one_cycle))).1 {
            current_state = ClientCurrentState.idle;
          };
    odm_flags = [];
    saved = delete_node_from_unsilence_nodes (1 ∷ 2 ∷ []) ∷ [];
  },
)

all_pulled_run :
    pull_missing_info_for_all_nodes ranges no_scalar nodes (session one_cycle) ≡ some all_pulled
unfolding pull_missing_info_for_all_nodes write_to_client_vector bytes_eq
all_pulled_run = refl

pull_missing_info-NodesKept_example :
    NodesKept nodes all_pulled.1 × (all_pulled.2.link.current_state ≡ ClientCurrentState.idle)
pull_missing_info-NodesKept_example =
    pull_missing_info-NodesKept ranges no_scalar nodes (session one_cycle) all_pulled all_pulled_run

-- The one node is the first and the last.
pull_missing_info-connected_example : all_pulled.2.link.gateway_status ≡ true
pull_missing_info-connected_example =
    pull_missing_info-connected ranges no_scalar the_node [] (session one_cycle) all_pulled
      all_pulled_run refl
