-- ===== src/Paths.antt =====
-- The paths of a node, HES/src/client.cpp: reconnection over them, and the reading of a profile page by
-- page on the primary path and, where that fails, on the alternate ones. `none` is the use of a
-- reference into `alternate_paths` whose memory was freed.
pub mod Laws
pub mod Reconnect
pub mod Pages
pub mod Commands
use atlascode.Prelude.{
  ℕ, zero, suc, ◌+◌, Bool, true, false, not, ◌&&◌, List, [], ◌∷◌, ◌++◌, Option, none, some, Bytes,
  ◌==◌, if◌then◌else◌, ◌>>=◌, get_elem?, bytes_eq,
}
use atlascode.Prelude.Signed.{eq_ℤ}
use atlascode.Link.Transmit.{PathInfo}

-- Of `NodeInfo` of HES/inc/pull.h the paths. `buffer` tells the memory of `alternate_paths`: another
-- vector moved into it comes with memory of its own.
pub record NodePaths : Type 0 where
  pub primary_path : PathInfo
  pub alternate_paths : List PathInfo
  pub buffer : ℕ

-- A reference to a path: to `primary_path`, or to an element in a memory.
pub data PathRef : Type 0 where
  at_primary : PathRef
  at_alternate : ℕ → ℕ → PathRef

unfoldable pub deref : PathRef → NodePaths → Option PathInfo
deref at_primary node = some node.primary_path
deref (at_alternate buffer i) node =
    if buffer == node.buffer then get_elem? node.alternate_paths i else none

unfoldable pub same_path : PathInfo → PathInfo → Bool
same_path x y = eq_ℤ x.hop_count y.hop_count && bytes_eq x.path y.path

unfoldable pub others : PathInfo → List PathInfo → List PathInfo
unfolding same_path
others alt [] = []
others alt (x ∷ xs) = if same_path x alt then others alt xs else x ∷ others alt xs

-- The exchange after a reconnection: a new vector is built and moved in.
unfoldable pub exchange : PathInfo → NodePaths → NodePaths
unfolding others
exchange alt node = record {
  primary_path = alt;
  alternate_paths = node.primary_path ∷ others alt node.alternate_paths;
  buffer = suc node.buffer;
}

-- `erase`
abbrev pub remove_at : ℕ → List PathInfo → List PathInfo
remove_at i [] = []
remove_at zero (x ∷ xs) = xs
remove_at (suc i) (x ∷ xs) = x ∷ remove_at i xs

-- The exchange after a command: `erase` and `push_back` within the vector's memory.
unfoldable pub promote : ℕ → PathInfo → NodePaths → NodePaths
promote i alt node = record node {
  primary_path = alt;
  alternate_paths = remove_at i node.alternate_paths ++ node.primary_path ∷ [];
}
