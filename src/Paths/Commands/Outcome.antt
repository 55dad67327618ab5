-- ===== src/Paths/Commands/Outcome.antt =====
-- The commands to one node, HES/src/client.cpp: their results.
use atlascode.Prelude.{ℕ, suc, ◌*◌, ◌≡◌, ◌≢◌, refl, none, some, Option, length, arith}
use atlascode.Link.{ClientCurrentState, Code, failure, Link}
use atlascode.Link.Transmit.{PathInfo}
use atlascode.Link.Transmit.OnPath.{LastWritten}
use atlascode.Paths.{NodePaths}
use atlascode.Paths.Reconnect.Laws.{Kept, Kept-refl, Kept-trans, Kept-weaken}
use atlascode.Paths.Laws.{SamePaths-refl}
use atlascode.Paths.Pages.Outcome.{times_mul}
use atlascode.Paths.Commands.{
  Attempt, enter, over_paths, ask, not_failure, is_success, reported, check_fuota_status,
  pull_internal_firmware_version_for_a_node, disable, fuota_disable_for_a_node, fuota_status,
  internal_firmware_version, soft_exit,
}
use atlascode.Paths.Commands.Laws.{
  IsAttempt, ask-IsAttempt, disable-IsAttempt, over_paths-IsCommand,
}

entered-Kept : (s : ClientCurrentState) (n : NodePaths) (l : Link) → Kept 0 n n l (enter s l)
entered-Kept s n l = record {
  paths = SamePaths-refl n;
  fewer = omega arith;
  later = record { same_panid = refl; same_serial = refl; stays = λ h. h };
  writes = omega arith;
}

reported-Kept :
    (leave : Link → Link) (w : ℕ) (n : NodePaths) (l : Link) (r : Option Code × NodePaths × Link)
    → ((m : NodePaths) (k : Link) → Kept 0 m m k (leave k))
    → Kept w n r.1 l r.2
    → Kept w n (reported leave r).1 l (reported leave r).2
unfolding reported
reported-Kept leave w n l (some ret, m, k) s h = h
reported-Kept leave w n l (none, m, k) s h = Kept-weaken (omega arith) (Kept-trans h (s m k))

reported-reached :
    (Reached : PathInfo → Link → Type 0) (leave : Link → Link) (r : Option Code × NodePaths × Link)
    → ((ret : Code) → r.0 ≡ some ret → Reached r.1.primary_path r.2)
    → (reported leave r).0 ≢ failure
    → Reached (reported leave r).1.primary_path (reported leave r).2
unfolding reported
reported-reached Reached leave (some ret, m, k) h d = h ret refl
reported-reached Reached leave (none, m, k) h d = absurd (d refl)

-- A command over all paths, from the state that it enters to the one that it leaves.
command-Kept :
    (s : ClientCurrentState) (leave : Link → Link) (c : ℕ) (Reached : PathInfo → Link → Type 0)
    (first attempt : Attempt) (n : NodePaths) (l : Link)
    → ((m : NodePaths) (k : Link) → Kept 0 m m k (leave k))
    → IsAttempt c Reached first
    → IsAttempt c Reached attempt
    → Kept
        (suc (length n.alternate_paths) * c)
        n
        (reported leave (over_paths first attempt n (enter s l))).1
        l
        (reported leave (over_paths first attempt n (enter s l))).2
command-Kept s leave c Reached first attempt n l still a b =
    let k = length n.alternate_paths in
    let r = over_paths first attempt n (enter s l) in
    let command = over_paths-IsCommand c Reached attempt b n first (enter s l) a in
    reported-Kept leave (suc k * c) n l r still (
      Kept-weaken (omega (arith, times_mul (suc k) c))
        (Kept-trans (entered-Kept s n l) command.kept))

-- The FUOTA status and the internal firmware version cost three packets for each path of the node at
-- most, and disabling FUOTA nine; whatever they answer, the node has the same paths as before, and a
-- gateway that was disconnected before is so after.
pub commands-Kept :
    (n : NodePaths) (l : Link)
    → (let (ret, m, k) = check_fuota_status n l in
        Kept (suc (length n.alternate_paths) * 3) n m l k)
      × (let (ret, m, k) = pull_internal_firmware_version_for_a_node n l in
          Kept (suc (length n.alternate_paths) * 3) n m l k)
      × (let (ret, m, k) = fuota_disable_for_a_node n l in
          Kept (suc (length n.alternate_paths) * 9) n m l k)
unfolding check_fuota_status pull_internal_firmware_version_for_a_node fuota_disable_for_a_node
commands-Kept n l =
    let idle = enter ClientCurrentState.idle in
    let still = entered-Kept ClientCurrentState.idle in
    let status = ask-IsAttempt fuota_status not_failure in
    let version = ask-IsAttempt internal_firmware_version is_success in
    (
      command-Kept ClientCurrentState.fuota_status idle 3 (LastWritten 3 fuota_status)
          (ask fuota_status not_failure) (ask fuota_status not_failure) n l still status status,
      command-Kept ClientCurrentState.internal_fv idle 3 (LastWritten 3 internal_firmware_version)
          (ask internal_firmware_version is_success) (ask internal_firmware_version is_success) n l
          still version version,
      command-Kept ClientCurrentState.fuota_disable (λ (k : Link). k) 9 (LastWritten 3 soft_exit)
          (disable is_success) (disable not_failure) n l (Kept-refl 0)
          (disable-IsAttempt is_success) (disable-IsAttempt not_failure),
    )

-- When disabling FUOTA does not answer with a failure, the last packet that was written is the soft
-- exit, framed for the path that is now the node's primary path.
pub fuota_disable-LastWritten :
    (n : NodePaths) (l : Link)
    → (fuota_disable_for_a_node n l).0 ≢ failure
    → LastWritten 3 soft_exit
        (fuota_disable_for_a_node n l).1.primary_path
        (fuota_disable_for_a_node n l).2
unfolding fuota_disable_for_a_node
fuota_disable-LastWritten n l d =
    let k = enter ClientCurrentState.fuota_disable l in
    let r = over_paths (disable is_success) (disable not_failure) n k in
    let command =
      over_paths-IsCommand 9 (LastWritten 3 soft_exit) (disable not_failure)
        (disable-IsAttempt not_failure) n (disable is_success) k (disable-IsAttempt is_success) in
    reported-reached (LastWritten 3 soft_exit) (λ (k : Link). k) r command.reached d
