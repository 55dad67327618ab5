-- ===== src/Paths/Commands.antt =====
-- The commands to one node, HES/src/client.cpp, that are tried on its primary path and then on the
-- alternate ones: `check_fuota_status`, `fuota_disable_for_a_node` and
-- `pull_internal_firmware_version_for_a_node`, with `flash_save`, `soft_reset` and
-- `perform_flash_and_reset`. Each copies the path it tries.

pub mod Laws
pub mod Outcome
use atlascode.Prelude.{ℕ, suc, List, [], ◌∷◌, Option, none, some, Bytes, if◌then◌else◌}
use atlascode.Link.{ClientCurrentState, Code, success, failure, Link}
use atlascode.Link.Transmit.{PathInfo, transmit_command_on_path_pmesh}
use atlascode.Paths.{NodePaths, promote}

-- `PullCommands` of HES/inc/pull.h
abbrev pub fuota_status : Bytes
fuota_status = 0 ∷ 155 ∷ []

abbrev pub fuota_disable : Bytes
fuota_disable = 1 ∷ 155 ∷ 0 ∷ []

abbrev pub flash_write : Bytes
flash_write = 0 ∷ 2 ∷ []

abbrev pub soft_exit : Bytes
soft_exit = 0 ∷ 1 ∷ []

abbrev pub internal_firmware_version : Bytes
internal_firmware_version = 0 ∷ 73 ∷ 70 ∷ []

abbrev pub enter : ClientCurrentState → Link → Link
enter s l = record l { current_state = s }

-- A command of type `MESH_COMMISSION_PACKET` with three attempts.
unfoldable pub commission : Bytes → PathInfo → Link → Code × Link
unfolding transmit_command_on_path_pmesh
commission cmd path l = transmit_command_on_path_pmesh 3 cmd path 3 l

-- The codes that a caller takes: `ret != FAILURE`, and `ret == SUCCESS`.
unfoldable pub not_failure : Code → Option Code
not_failure failure = none
not_failure ret = some ret

unfoldable pub is_success : Code → Option Code
is_success success = some success
is_success _ = none

-- An attempt on one path: the code, where the caller takes it.
abbrev Attempt : Type 0
Attempt = PathInfo → Link → Option Code × Link

module _ (attempt : Attempt) where
  -- The loop over the alternate paths, with where it stands; what succeeds is promoted.
  unfoldable pub visited :
      (Link → Option Code × NodePaths × Link)
      → ℕ
      → PathInfo
      → NodePaths
      → Option Code
      → Link
      → Option Code × NodePaths × Link
  unfolding promote
  visited next i alt node none l = next l
  visited next i alt node (some ret) l = (some ret, promote i alt node, l)

  unfoldable pub visit : List PathInfo → ℕ → NodePaths → Link → Option Code × NodePaths × Link
  unfolding visited
  visit [] i node l = (none, node, l)
  visit (alt ∷ alts) i node l =
      visited (visit alts (suc i) node) i alt node (attempt alt l).0 (attempt alt l).1

  unfoldable pub behind_primary : NodePaths → Option Code → Link → Option Code × NodePaths × Link
  unfolding visit
  behind_primary node none l =
      if l.gateway_status then visit node.alternate_paths 0 node l else (none, node, l)
  behind_primary node (some ret) l = (some ret, node, l)

-- The attempt on the primary path, and those on the alternate ones while the gateway is connected.
unfoldable pub over_paths : Attempt → Attempt → NodePaths → Link → Option Code × NodePaths × Link
unfolding behind_primary
over_paths first attempt node l =
    behind_primary attempt node (first node.primary_path l).0 (first node.primary_path l).1

-- What a command answers, and the state that it leaves when all paths failed.
unfoldable pub reported : (Link → Link) → Option Code × NodePaths × Link → Code × NodePaths × Link
reported leave (some ret, node, l) = (ret, node, l)
reported leave (none, node, l) = (failure, node, leave l)

unfoldable pub ask : Bytes → (Code → Option Code) → Attempt
unfolding commission
ask cmd accept path l = let (ret, l') = commission cmd path l in (accept ret, l')

unfoldable pub check_fuota_status : NodePaths → Link → Code × NodePaths × Link
unfolding over_paths ask not_failure reported
check_fuota_status node l =
    let attempt = ask fuota_status not_failure in
    reported (enter ClientCurrentState.idle)
      (over_paths attempt attempt node (enter ClientCurrentState.fuota_status l))

-- `currentNode`, which only the reception reads, is left out.
unfoldable pub pull_internal_firmware_version_for_a_node :
    NodePaths → Link → Code × NodePaths × Link
unfolding over_paths ask is_success reported
pull_internal_firmware_version_for_a_node node l =
    let attempt = ask internal_firmware_version is_success in
    reported (enter ClientCurrentState.idle)
      (over_paths attempt attempt node (enter ClientCurrentState.internal_fv l))

-- A step, and the next one where it succeeded.
unfoldable pub and_then : Code × Link → (Link → Code × Link) → Code × Link
and_then (success, l) next = next l
and_then (_, l) next = (failure, l)

unfoldable pub flash_save : PathInfo → Link → Code × Link
unfolding commission and_then
flash_save path l =
    and_then (commission flash_write path (enter ClientCurrentState.flash_save l))
      (λ l'. (success, l'))

unfoldable pub soft_reset : PathInfo → Link → Code × Link
unfolding commission and_then
soft_reset path l =
    and_then (commission soft_exit path (enter ClientCurrentState.soft_reset l))
      (λ l'. (success, l'))

unfoldable pub perform_flash_and_reset : PathInfo → Link → Code × Link
unfolding flash_save soft_reset and_then
perform_flash_and_reset path l = and_then (flash_save path l) (soft_reset path)

-- `ret`, where the flash and the reset behind it succeeded.
unfoldable pub confirmed : Code → Code × Link → Option Code × Link
confirmed ret (success, l) = (some ret, l)
confirmed ret (_, l) = (none, l)

unfoldable pub disable_step : PathInfo → Option Code → Link → Option Code × Link
unfolding perform_flash_and_reset confirmed
disable_step path none l = (none, l)
disable_step path (some ret) l = confirmed ret (perform_flash_and_reset path l)

unfoldable pub disable : (Code → Option Code) → Attempt
unfolding disable_step ask
disable accept path l =
    let (taken, l') = ask fuota_disable accept path l in disable_step path taken l'

-- On the primary path the command itself must answer `SUCCESS`, on an alternate one anything but
-- `FAILURE`; the state is left as it is.
unfoldable pub fuota_disable_for_a_node : NodePaths → Link → Code × NodePaths × Link
unfolding over_paths disable is_success not_failure reported
fuota_disable_for_a_node node l =
    reported (λ l'. l')
      (over_paths (disable is_success) (disable not_failure) node
        (enter ClientCurrentState.fuota_disable l))
