-- ===== src/Paths/Pages.antt =====
-- `pull_profile_pages_on_path` and `try_paths_for_profile_pull` of HES/src/client.cpp. The function that
-- frames the request for a page is an argument, as it is in the source.

pub mod Laws
pub mod Alternates
pub mod Outcome
use atlascode.Prelude.{
  ℕ, zero, suc, ◌+◌, ◌%◌, true, false, Option, some, Bytes, leb, if◌then◌else◌, ◌>>=◌, length,
}
use atlascode.Link.{
  Code, success, failure, next_page_present, dlms_connection_failed, dlms_error, Link,
}
use atlascode.Link.Transmit.{PathInfo, transmit_command_on_path_pmesh}
use atlascode.Paths.{NodePaths, PathRef, at_primary, at_alternate, deref, promote}
use atlascode.Paths.Reconnect.{attempt_dlms_reconnect_all_paths}

-- What a pull comes to: its code, `page_index`, the node's paths and the link.
pub record Pulled : Type 0 where
  pub code : Code
  pub page_index : ℕ
  pub node : NodePaths
  pub link : Link

-- The answer to one request, and how the loop goes on; `loop` takes `page_index`, the paths and the
-- link.
module _ (loop : ℕ → NodePaths → Link → Option Pulled) (page_index : ℕ) where
  abbrev ends : Code → NodePaths → Link → Option Pulled
  ends ret node l = some (record { code = ret; page_index = page_index; node = node; link = l })

  unfoldable pub after_reconnect : Code → NodePaths → Link → Option Pulled
  after_reconnect success node l = loop page_index node l
  after_reconnect _ node l = ends dlms_connection_failed node l

  unfoldable pub next_page : NodePaths → Link → Option Pulled
  next_page node l = elim (leb 16 ((page_index + 1) % 256)) [
    | true ↦
        some (record { code = failure; page_index = (page_index + 1) % 256; node = node; link = l })
    | false ↦ loop ((page_index + 1) % 256) node l
  ]

  unfoldable pub after_page : PathInfo → Code → NodePaths → Link → Option Pulled
  unfolding after_reconnect next_page attempt_dlms_reconnect_all_paths
  after_page path next_page_present node l = next_page node l
  after_page path success node l = ends success node l
  after_page path dlms_connection_failed node l =
      let (rc, node', l') = attempt_dlms_reconnect_all_paths node path l in
      after_reconnect rc node' l'
  after_page path dlms_error node l = ends dlms_error node l
  after_page path _ node l = ends failure node l

  -- A request over a path, with what follows it.
  unfoldable pub request : (ℕ → Bytes) → NodePaths → Link → PathInfo → Option Pulled
  unfolding after_page transmit_command_on_path_pmesh
  request frame_fn node l path =
      let (ret, l') = transmit_command_on_path_pmesh 7 (frame_fn page_index) path 3 l in
      after_page path ret node l'

-- The loop with the rounds left, of which there are 16; each round uses the reference.
unfoldable pub pull_loop : ℕ → PathRef → (ℕ → Bytes) → ℕ → NodePaths → Link → Option Pulled
unfolding request deref
pull_loop zero ref frame_fn page_index node l =
    some (record { code = failure; page_index = page_index; node = node; link = l })
pull_loop (suc rounds) ref frame_fn page_index node l =
    deref ref node >>= request (pull_loop rounds ref frame_fn) page_index frame_fn node l

unfoldable pub pull_profile_pages_on_path :
    PathRef → (ℕ → Bytes) → ℕ → NodePaths → Link → Option Pulled
unfolding pull_loop
pull_profile_pages_on_path ref frame_fn page_index node l =
    pull_loop 16 ref frame_fn page_index node l

-- The alternate path at `ref` took the pull: it becomes the primary path.
unfoldable pub promoted : PathRef → ℕ → Pulled → Option Pulled
unfolding deref promote
promoted ref i p = do alt ← deref ref p.node; some (record p { node = promote i alt p.node })

-- Behind the pull on an alternate path, by its code: `next` tries the following ones, once the
-- iterator, which must still be valid, has moved.
unfoldable pub after_alternate :
    (ℕ → NodePaths → Link → Option Pulled) → PathRef → ℕ → Code → Pulled → Option Pulled
unfolding promoted
after_alternate next ref i success p = promoted ref i p
after_alternate next ref i dlms_error p = some (record p { code = failure })
after_alternate next ref i dlms_connection_failed p = some (record p { code = failure })
after_alternate next ref i _ p =
    deref ref p.node >>= (λ (alt : PathInfo). next p.page_index p.node p.link)

-- The loop over the alternate paths: how many are left, and where it stands.
unfoldable pub pull_alternates : ℕ → ℕ → ℕ → (ℕ → Bytes) → ℕ → NodePaths → Link → Option Pulled
unfolding after_alternate pull_profile_pages_on_path
pull_alternates zero i buffer frame_fn page_index node l =
    some (record { code = failure; page_index = page_index; node = node; link = l })
pull_alternates (suc left) i buffer frame_fn page_index node l = do
  p ← pull_profile_pages_on_path (at_alternate buffer i) frame_fn page_index node l
  after_alternate (pull_alternates left (suc i) buffer frame_fn) (at_alternate buffer i) i p.code p

-- Behind the pull on the primary path, by its code.
unfoldable pub after_primary : (ℕ → Bytes) → Code → Pulled → Option Pulled
unfolding pull_alternates
after_primary frame_fn success p = some p
after_primary frame_fn dlms_error p = some (record p { code = failure })
after_primary frame_fn dlms_connection_failed p = some (record p { code = failure })
after_primary frame_fn _ p =
    if p.link.gateway_status
    then pull_alternates (length p.node.alternate_paths) 0 p.node.buffer frame_fn p.page_index
        p.node p.link
    else some (record p { code = failure })

unfoldable pub try_paths_for_profile_pull : (ℕ → Bytes) → ℕ → NodePaths → Link → Option Pulled
unfolding after_primary
try_paths_for_profile_pull frame_fn page_index node l = do
  p ← pull_profile_pages_on_path at_primary frame_fn page_index node l
  after_primary frame_fn p.code p
