-- ===== src/Paths/Reconnect/Laws.antt =====
-- What a reconnection, HES/src/client.cpp, keeps of a node's paths, and what it costs.
use atlascode.Prelude.{
  ℕ, ◌+◌, ◌*◌, ◌≤◌, ◌<◌, ◌≡◌, refl, true, false, inl, inr, List, [], ◌∷◌, length, Bool-cases, arith,
  if◌then◌else◌, Bool, bytes_eq_refl, ==_refl,
}
use atlascode.Prelude.Signed.{ℤ, pos, negsuc, eq_ℤ}
use atlascode.Link.{ClientCurrentState, Code, success, failure, dlms_connection_failed, Link}
use atlascode.Link.Transmit.{PathInfo}
use atlascode.Link.Transmit.OnPath.{Later, Later-refl, Later-trans, on_path-Later, on_path-writes}
use atlascode.Paths.{NodePaths, same_path, others, exchange}
use atlascode.Paths.Laws.{Among, SamePaths, SamePaths-refl, SamePaths-trans, exchange-SamePaths}
use atlascode.Paths.Reconnect.{
  dlms_connect, attempt_dlms_reconnect, reconnect_step, reconnect_alternates, reconnect_behind,
  attempt_dlms_reconnect_all_paths,
}

-- From one state of a node and its link to a later one: the same paths, no more alternate ones, and
-- `w` packets more at most.
pub record Kept (w : ℕ) (m n : NodePaths) (k l : Link) : Type 0 where
  pub paths : SamePaths m n
  pub fewer : length n.alternate_paths ≤ length m.alternate_paths
  pub later : Later k l
  pub writes : length l.written ≤ w + length k.written

pub Kept-refl : (w : ℕ) (n : NodePaths) (l : Link) → Kept w n n l l
Kept-refl w n l = record {
  paths = SamePaths-refl n;
  fewer = omega arith;
  later = Later-refl l;
  writes = omega arith;
}

pub Kept-trans :
    {v w : ℕ} {m n o : NodePaths} {j k l : Link}
    → Kept v m n j k
    → Kept w n o k l
    → Kept (v + w) m o j l
Kept-trans p q = record {
  paths = SamePaths-trans p.paths q.paths;
  fewer = omega (arith, p.fewer, q.fewer);
  later = Later-trans p.later q.later;
  writes = omega (arith, p.writes, q.writes);
}

pub Kept-weaken : {v w : ℕ} {m n : NodePaths} {k l : Link} → v ≤ w → Kept v m n k l → Kept w m n k l
Kept-weaken h p = record {
  paths = p.paths;
  fewer = p.fewer;
  later = p.later;
  writes = omega (arith, p.writes);
}

eq_ℤ_refl : (x : ℤ) → eq_ℤ x x ≡ true
eq_ℤ_refl (pos a) = ==_refl a
eq_ℤ_refl (negsuc a) = ==_refl a

same_path_refl : (x : PathInfo) → same_path x x ≡ true
unfolding same_path
same_path_refl x = rw (eq_ℤ_refl x.hop_count, bytes_eq_refl x.path) refl

others-length : (alt : PathInfo) (xs : List PathInfo) → length (others alt xs) ≤ length xs
unfolding others
others-length alt [] = omega arith
others-length alt (x ∷ xs) =
    let rest = others-length alt xs in
    elim (Bool-cases (same_path x alt)) [
      | inl e ↦ rw (e, others) (omega (arith, rest))
      | inr e ↦ rw (e, others) (omega (arith, rest))
    ]

others-shorter :
    (alt : PathInfo) (xs : List PathInfo) → Among alt xs → length (others alt xs) < length xs
unfolding others
others-shorter alt [] h = elim h [ ]
others-shorter alt (x ∷ xs) (inl e) =
    let s : same_path x alt ≡ true = rw e (same_path_refl x) in
    rw (s, others) (omega (arith, others-length alt xs))
others-shorter alt (x ∷ xs) (inr h) =
    let rest = others-shorter alt xs h in
    elim (Bool-cases (same_path x alt)) [
      | inl e ↦ rw (e, others) (omega (arith, rest))
      | inr e ↦ rw (e, others) (omega (arith, rest))
    ]

exchange-Kept :
    (alt : PathInfo) (node : NodePaths) (l : Link)
    → Among alt node.alternate_paths
    → Kept 0 node (exchange alt node) l l
unfolding exchange
exchange-Kept alt node l h = record {
  paths = exchange-SamePaths alt node h;
  fewer = omega (arith, others-shorter alt node.alternate_paths h);
  later = Later-refl l;
  writes = omega arith;
}

attempt-Kept :
    (path : PathInfo) (node : NodePaths) (l : Link)
    → Kept 3 node node l (attempt_dlms_reconnect path l).1
unfolding attempt_dlms_reconnect
attempt-Kept path node l =
    let m = record l { current_state = ClientCurrentState.dlms_connect } in
    let later = on_path-Later 7 dlms_connect path 2 m in
    record {
      paths = SamePaths-refl node;
      fewer = omega arith;
      later = record {
        same_panid = later.same_panid;
        same_serial = later.same_serial;
        stays = later.stays;
      };
      writes = on_path-writes 7 dlms_connect path 2 m;
    }

module _ (node : NodePaths) where
  step-Kept :
      (w : ℕ) (next : Link → Code × NodePaths × Link) (alt : PathInfo) (ret : Code) (l : Link)
      → Among alt node.alternate_paths
      → Kept w node (next l).1 l (next l).2
      → Kept w node (reconnect_step next alt node ret l).1 l (reconnect_step next alt node ret l).2
  unfolding reconnect_step
  step-Kept w next alt success l h k = Kept-weaken (omega arith) (exchange-Kept alt node l h)
  step-Kept w next alt dlms_connection_failed l h k = Kept-refl w node l
  step-Kept w next alt _ l h k = k

  alternates-Kept :
      (alts : List PathInfo) (l : Link)
      → ((p : PathInfo) → Among p alts → Among p node.alternate_paths)
      → Kept
          (3 * length alts)
          node
          (reconnect_alternates alts node l).1
          l
          (reconnect_alternates alts node l).2
  unfolding reconnect_alternates
  alternates-Kept [] l h = Kept-refl 0 node l
  alternates-Kept (alt ∷ alts) l h =
      let (ret, m) = attempt_dlms_reconnect alt l in
      Kept-weaken (omega arith) (
        Kept-trans (attempt-Kept alt node l) (
          step-Kept (3 * length alts) (reconnect_alternates alts node) alt ret m (h alt (inl refl))
            (alternates-Kept alts m (λ p a. h p (inr a)))))

  either-Kept :
      (w : ℕ) (b : Bool) (x y : Code × NodePaths × Link) (l : Link)
      → Kept w node x.1 l x.2
      → Kept w node y.1 l y.2
      → Kept w node (if b then x else y).1 l (if b then x else y).2
  either-Kept w true x y l h k = h
  either-Kept w false x y l h k = k

  behind-Kept :
      (ret : Code) (l : Link)
      → Kept
          (3 * length node.alternate_paths)
          node
          (reconnect_behind node ret l).1
          l
          (reconnect_behind node ret l).2
  unfolding reconnect_behind
  behind-Kept success l = Kept-refl (3 * length node.alternate_paths) node l
  behind-Kept dlms_connection_failed l = Kept-refl (3 * length node.alternate_paths) node l
  behind-Kept _ l =
      let w = 3 * length node.alternate_paths in
      either-Kept w l.gateway_status (reconnect_alternates node.alternate_paths node l)
        (failure, node, l) l (alternates-Kept node.alternate_paths l (λ p a. a))
        (Kept-refl w node l)

  -- A reconnection costs three packets on each path at most.
  pub reconnect-Kept :
      (failed_path : PathInfo) (l : Link)
      → Kept
          (3 + 3 * length node.alternate_paths)
          node
          (attempt_dlms_reconnect_all_paths node failed_path l).1
          l
          (attempt_dlms_reconnect_all_paths node failed_path l).2
  unfolding attempt_dlms_reconnect_all_paths
  reconnect-Kept failed_path l =
      let (ret, m) = attempt_dlms_reconnect failed_path l in
      Kept-trans (attempt-Kept failed_path node l) (behind-Kept ret m)
