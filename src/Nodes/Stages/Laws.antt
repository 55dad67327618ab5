-- ===== src/Nodes/Stages/Laws.antt =====
-- What `pull_missing_info_for_all_nodes`, HES/src/client.cpp, comes to for the nodes of a gateway.
use atlascode.Prelude.{
  ℕ, ◌≡◌, ◌≢◌, refl, ◌∙◌, Bool, true, false, List, [], ◌∷◌, Option, none, some, Bytes, ◌>>=◌,
  if◌then◌else◌, Bool-cases, inl, inr, ◌⊎◌, arith,
}
use atlascode.Link.{ClientCurrentState, Code, success, enabled, Link}
use atlascode.Paths.{NodePaths}
use atlascode.Paths.Laws.{SamePaths, SamePaths-refl, SamePaths-trans}
use atlascode.Paths.Commands.{
  enter, check_fuota_status, fuota_disable_for_a_node, pull_internal_firmware_version_for_a_node,
}
use atlascode.Paths.Commands.Outcome.{commands-Kept}
use atlascode.Paths.Pages.{Pulled, try_paths_for_profile_pull}
use atlascode.Paths.Pages.Laws.{OnSome, OnSome-bind, OnSome-elim}
use atlascode.Paths.Pages.Outcome.{try_paths-SamePaths}
use atlascode.Nodes.{
  NodeInfo, Saved, delete_node_from_unsilence_nodes, update_internal_firmware_version, Session,
  Step, Result, interrupted, keep_node, after_node, for_nodes,
}
use atlascode.Nodes.Cycles.{pull_profile, pull_missing_instantaneous_for_a_node, cycles-IsAccounted}
use atlascode.Nodes.Stages.{
  put, after_status, unsilence_node, firmware_version_node, profile_node, ip_node,
}

-- The same node, with the same paths.
pub record NodeKept (m n : NodeInfo) : Type 0 where
  pub mac : n.node_mac_address ≡ m.node_mac_address
  pub paths : SamePaths m.paths n.paths

abbrev pub NodesKept : List NodeInfo → List NodeInfo → Type 0
NodesKept [] [] = Unit {0}
NodesKept [] (n ∷ ns) = ⊥
NodesKept (m ∷ ms) [] = ⊥
NodesKept (m ∷ ms) (n ∷ ns) = NodeKept m n × NodesKept ms ns

NodeKept-refl : (n : NodeInfo) → NodeKept n n
NodeKept-refl n = record { mac = refl; paths = SamePaths-refl n.paths }

pub NodesKept-refl : (ns : List NodeInfo) → NodesKept ns ns
NodesKept-refl [] = record {}
NodesKept-refl (n ∷ ns) = (NodeKept-refl n, NodesKept-refl ns)

pub NodesKept-trans :
    (ls ms ns : List NodeInfo) → NodesKept ls ms → NodesKept ms ns → NodesKept ls ns
NodesKept-trans [] [] [] h k = h
NodesKept-trans [] [] (n ∷ ns) h k = k
NodesKept-trans [] (m ∷ ms) ns h k = elim h [ ]
NodesKept-trans (l ∷ ls) [] ns h k = elim h [ ]
NodesKept-trans (l ∷ ls) (m ∷ ms) [] h k = k
NodesKept-trans (l ∷ ls) (m ∷ ms) (n ∷ ns) (h, hs) (k, ks) = (
  record { mac = k.mac ∙ h.mac; paths = SamePaths-trans h.paths k.paths },
  NodesKept-trans ls ms ns hs ks,
)

-- A loop over nodes, or what is left of one: the nodes, and the gateway where all were visited.
pub record IsRun (nodes : List NodeInfo) (s : Session) (r : Result) : Type 0 where
  pub kept : NodesKept nodes r.1
  pub connected :
      r.0 ≡ true → (nodes ≢ []) ⊎ (s.link.gateway_status ≡ true) → r.2.link.gateway_status ≡ true

abbrev pub IsStep : Step → Type 0
IsStep step = (node : NodeInfo) (s : Session) → OnSome (λ r. NodeKept node r.0) (step node s)

interrupted-connected :
    (s : Session) → (interrupted s).0 ≡ false → (interrupted s).1.link.gateway_status ≡ true
unfolding interrupted
interrupted-connected s e = ground arith

unvisited :
    (ns : List NodeInfo) (s : Session)
    → ns ≡ []
    → (ns ≢ []) ⊎ (s.link.gateway_status ≡ true)
    → s.link.gateway_status ≡ true
unvisited ns s e (inl d) = absurd (d e)
unvisited ns s e (inr c) = c

module _ (step : Step) (h : IsStep step) where
  kept_node :
      (m n : NodeInfo) (ns : List NodeInfo) (s t : Session) (o : Option Result)
      → NodeKept m n
      → s.link.gateway_status ≡ true
      → OnSome (IsRun ns s) o
      → OnSome (IsRun (m ∷ ns) t) (o >>= (λ (r : Result). some (keep_node n r)))
  unfolding keep_node
  kept_node m n ns s t none k c i = i
  kept_node m n ns s t (some (ok, ns', s')) k c i = record {
    kept = (k, i.kept);
    connected = λ e d. i.connected e (inr c);
  }

  after_node-IsRun :
      (rest : Session → Option Result) (m n : NodeInfo) (ns : List NodeInfo) (b : Bool)
      (s t : Session)
      → ((s : Session) → OnSome (IsRun ns s) (rest s))
      → NodeKept m n
      → (b ≡ false → s.link.gateway_status ≡ true)
      → OnSome (IsRun (m ∷ ns) t) (after_node rest n ns b s)
  unfolding after_node
  after_node-IsRun rest m n ns true s t i k c = record {
    kept = (k, NodesKept-refl ns);
    connected = λ e. absurd cc;
  }
  after_node-IsRun rest m n ns false s t i k c = kept_node m n ns s t (rest s) k (c refl) (i s)

  pub for_nodes-IsRun :
      (nodes : List NodeInfo) (s : Session) → OnSome (IsRun nodes s) (for_nodes step nodes s)
  unfolding for_nodes
  for_nodes-IsRun [] s = record { kept = record {}; connected = λ e d. unvisited [] s refl d }
  for_nodes-IsRun (node ∷ nodes) s =
      OnSome-bind (step node s)
        (λ (r : NodeInfo × Session).
          after_node (for_nodes step nodes) r.0 nodes (interrupted r.1).0 (interrupted r.1).1)
        (IsRun (node ∷ nodes) s)
        (λ r e.
          after_node-IsRun (for_nodes step nodes) node r.0 nodes (interrupted r.1).0
            (interrupted r.1).1 s (for_nodes-IsRun nodes)
            (OnSome-elim (λ (r : NodeInfo × Session). NodeKept node r.0) e (h node s))
            (interrupted-connected r.1))

put-NodeKept :
    (node : NodeInfo) (s : Session) (c : Saved) (r : Code × NodePaths × Link)
    → SamePaths node.paths r.1
    → NodeKept node (put node s c r).0
unfolding put
put-NodeKept node s c (success, paths, l) h = record { mac = refl; paths = h }
put-NodeKept node s c (_, paths, l) h = record { mac = refl; paths = h }

after_status-NodeKept :
    (node : NodeInfo) (s : Session) (r : Code × NodePaths × Link)
    → SamePaths node.paths r.1
    → NodeKept node (after_status node s r).0
unfolding after_status
after_status-NodeKept node s (enabled, paths, l) h =
    let (status, version, disable) = commands-Kept paths l in
    put-NodeKept node s (delete_node_from_unsilence_nodes node.node_mac_address)
      (fuota_disable_for_a_node paths l) (SamePaths-trans h disable.paths)
after_status-NodeKept node s (ret, paths, l) h =
    put-NodeKept node s (delete_node_from_unsilence_nodes node.node_mac_address) (ret, paths, l) h

either-NodeKept :
    (node : NodeInfo) (b : Bool) (x y : NodeInfo × Session)
    → NodeKept node x.0
    → NodeKept node y.0
    → NodeKept node (if b then x else y).0
either-NodeKept node true x y h k = h
either-NodeKept node false x y h k = k

pub unsilence_node-IsStep : IsStep unsilence_node
unfolding unsilence_node
unsilence_node-IsStep node s =
    let (status, version, disable) = commands-Kept node.paths s.link in
    either-NodeKept node node.missing_info.is_silenced
      (after_status node s (check_fuota_status node.paths s.link)) (node, s)
      (after_status-NodeKept node s (check_fuota_status node.paths s.link) status.paths)
      (NodeKept-refl node)

pub firmware_version_node-IsStep : IsStep firmware_version_node
unfolding firmware_version_node
firmware_version_node-IsStep node s =
    let (status, version, disable) = commands-Kept node.paths s.link in
    let c = update_internal_firmware_version node.node_mac_address in
    let r = pull_internal_firmware_version_for_a_node node.paths s.link in
    either-NodeKept node node.missing_info.verify_ifv_presence (node, s) (put node s c r)
      (NodeKept-refl node) (put-NodeKept node s c r version.paths)

pub profile_node-IsStep :
    (available : NodeInfo → Bool) (state : ClientCurrentState) (frame_fn : ℕ → Bytes)
    (insert : Bytes → Saved)
    → IsStep (profile_node available (pull_profile state frame_fn) insert)
unfolding profile_node pull_profile
profile_node-IsStep available state frame_fn insert node s =
    let l = enter state s.link in
    let pull = try_paths_for_profile_pull frame_fn 0 node.paths l in
    let put_back : Pulled → NodeInfo × Session =
      λ p. put node s (insert node.node_mac_address) (p.code, p.node, p.link) in
    elim (Bool-cases (available node)) [
      | inl e ↦ rw e (NodeKept-refl node)
      | inr e ↦ rw e (
          OnSome-bind pull (λ p. some (put_back p)) (λ r. NodeKept node r.0)
            (λ p d.
              put-NodeKept node s (insert node.node_mac_address) (p.code, p.node, p.link)
                (try_paths-SamePaths frame_fn 0 node.paths l p d).0))
    ]

pub ip_node-IsStep : IsStep ip_node
unfolding ip_node
ip_node-IsStep node s =
    let mac = node.node_mac_address in
    let cycles = node.missing_info.missing_ip_cycles in
    OnSome-bind (pull_missing_instantaneous_for_a_node mac cycles node.paths s) _
      (λ r. NodeKept node r.0)
      (λ d e. record { mac = refl; paths = (cycles-IsAccounted mac cycles node.paths s d e).same })
