-- ===== src/Paths/Pages/Outcome.antt =====
-- A profile pull of a node, `try_paths_for_profile_pull` of HES/src/client.cpp: its results.
use mathlib.Core.Path.{subst}
use native.Mathlib.Nat.{suc-mul}
use atlascode.Prelude.{
  ℕ, zero, suc, ◌+◌, ◌*◌, ◌≤◌, ◌≡◌, ap, ◌∙◌, Option, some, Bytes, length, arith,
}
use atlascode.Link.{success, Link}
use atlascode.Link.Transmit.OnPath.{LastWritten}
use atlascode.Paths.{NodePaths}
use atlascode.Paths.Laws.{SamePaths}
use atlascode.Paths.Pages.{Pulled, try_paths_for_profile_pull}
use atlascode.Paths.Pages.Laws.{OnSome-elim, times}
use atlascode.Paths.Pages.Alternates.{IsTried, try_paths-IsTried}

pub times_mul : (n c : ℕ) → times n c ≡ n * c
times_mul zero c = omega arith
times_mul (suc n) c = omega (arith, times_mul n c, suc-mul n c)

tried :
    (frame_fn : ℕ → Bytes) (page_index : ℕ) (node : NodePaths) (l : Link) (p : Pulled)
    → try_paths_for_profile_pull frame_fn page_index node l ≡ some p
    → IsTried
        (times (suc (length node.alternate_paths)) (times 16 (6 + 3 * length node.alternate_paths)))
        frame_fn
        node
        l
        p
tried frame_fn page_index node l p e =
    let k = length node.alternate_paths in
    OnSome-elim (IsTried (times (suc k) (times 16 (6 + 3 * k))) frame_fn node l) e
      (try_paths-IsTried frame_fn k page_index node l (omega arith))

-- However a profile pull ends that returns, with reconnections and exchanges of paths in between, the
-- node has the same paths as before, the primary one and the alternate ones taken together, and no
-- more alternate paths than it had.
pub try_paths-SamePaths :
    (frame_fn : ℕ → Bytes) (page_index : ℕ) (node : NodePaths) (l : Link) (p : Pulled)
    → try_paths_for_profile_pull frame_fn page_index node l ≡ some p
    → SamePaths node p.node × (length p.node.alternate_paths ≤ length node.alternate_paths)
try_paths-SamePaths frame_fn page_index node l p e =
    let t = tried frame_fn page_index node l p e in (t.kept.paths, t.kept.fewer)

-- When a profile pull returns a success, the last packet that was written is the request for the page
-- at which the pull stands, framed for the path that is now the node's primary path.
pub try_paths-LastWritten :
    (frame_fn : ℕ → Bytes) (page_index : ℕ) (node : NodePaths) (l : Link) (p : Pulled)
    → try_paths_for_profile_pull frame_fn page_index node l ≡ some p
    → p.code ≡ success
    → LastWritten 7 (frame_fn p.page_index) p.node.primary_path p.link
try_paths-LastWritten frame_fn page_index node l p e s =
    (tried frame_fn page_index node l p e).served s

-- A profile pull of a node with `k` alternate paths that returns has written 16 * (6 + 3 * k) packets
-- at most for each path.
pub try_paths-writes :
    (frame_fn : ℕ → Bytes) (page_index : ℕ) (node : NodePaths) (l : Link) (p : Pulled)
    → try_paths_for_profile_pull frame_fn page_index node l ≡ some p
    → length p.link.written
      ≤ suc (length node.alternate_paths) * (16 * (6 + 3 * length node.alternate_paths))
        + length l.written
try_paths-writes frame_fn page_index node l p e =
    let k = length node.alternate_paths in
    let c = times 16 (6 + 3 * k) in
    let counted = times_mul (suc k) c ∙ ap (λ d. suc k * d) (times_mul 16 (6 + 3 * k)) in
    subst (λ d. length p.link.written ≤ d + length l.written) counted
      (tried frame_fn page_index node l p e).kept.writes

-- The pull returns.
abbrev Returns : Option Pulled → Type 0
Returns o = (p : Pulled) × (o ≡ some p)
