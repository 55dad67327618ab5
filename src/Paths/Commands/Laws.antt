-- ===== src/Paths/Commands/Laws.antt =====
-- What the commands to one node, HES/src/client.cpp, keep of its paths, what they cost, and where the
-- last of their packets went.
use atlascode.Prelude.{
  ℕ, suc, ◌+◌, ◌≤◌, ◌≡◌, refl, sym, ap, ◌∙◌, Bool, true, false, List, [], ◌∷◌, Option, none, some,
  Bytes, if◌then◌else◌, get_elem?, drop, get_elem?-drop, drop-suc, length, arith,
}
use atlascode.Link.{ClientCurrentState, Code, success, Link}
use atlascode.Link.Transmit.{PathInfo}
use atlascode.Link.Transmit.OnPath.{
  Later, Later-refl, Later-trans, LastWritten, on_path-Later, on_path-LastWritten, on_path-writes,
}
use atlascode.Paths.{NodePaths}
use atlascode.Paths.Laws.{SamePaths-refl}
use atlascode.Paths.Reconnect.Laws.{Kept, Kept-refl, Kept-trans, Kept-weaken}
use atlascode.Paths.Pages.Laws.{times}
use atlascode.Paths.Pages.Alternates.{promote-Kept}
use atlascode.Paths.Commands.{
  Attempt, enter, visited, visit, behind_primary, over_paths, commission, ask, and_then,
  flash_write, soft_exit, flash_save, soft_reset, perform_flash_and_reset, confirmed, disable_step,
  disable, fuota_disable,
}

-- A step of one path: it costs `c` packets at most.
pub record Costs (c : ℕ) (k l : Link) : Type 0 where
  pub later : Later k l
  pub writes : length l.written ≤ c + length k.written

pub Costs-trans : {c d : ℕ} {j k l : Link} → Costs c j k → Costs d k l → Costs (c + d) j l
Costs-trans p q = record {
  later = Later-trans p.later q.later;
  writes = omega (arith, p.writes, q.writes);
}

-- What is asked of an attempt: its cost, and what holds where it is taken.
pub record IsAttempt (c : ℕ) (Reached : PathInfo → Link → Type 0) (attempt : Attempt) : Type 0 where
  pub costs : (path : PathInfo) (l : Link) → Costs c l (attempt path l).1
  pub reached :
      (path : PathInfo) (l : Link) (ret : Code)
      → (attempt path l).0 ≡ some ret
      → Reached path (attempt path l).1

-- What a command over all paths comes to.
pub record IsCommand (w : ℕ) (Reached : PathInfo → Link → Type 0) (n : NodePaths) (l : Link)
    (r : Option Code × NodePaths × Link) : Type 0 where
  pub kept : Kept w n r.1 l r.2
  pub reached : (ret : Code) → r.0 ≡ some ret → Reached r.1.primary_path r.2

Costs-Kept : {c : ℕ} {k l : Link} (n : NodePaths) → Costs c k l → Kept c n n k l
Costs-Kept n h = record {
  paths = SamePaths-refl n;
  fewer = omega arith;
  later = h.later;
  writes = h.writes;
}

module _ (c : ℕ) (Reached : PathInfo → Link → Type 0) (attempt : Attempt)
    (h : IsAttempt c Reached attempt) (n : NodePaths) where
  nothing : (w : ℕ) (l : Link) → IsCommand w Reached n l (none, n, l)
  nothing w l = record { kept = Kept-refl w n l; reached = λ ret e. absurd (ground arith) }

  behind :
      (v w : ℕ) (j l : Link) (r : Option Code × NodePaths × Link)
      → Costs v j l
      → IsCommand w Reached n l r
      → IsCommand (v + w) Reached n j r
  behind v w j l r q i = record { kept = Kept-trans (Costs-Kept n q) i.kept; reached = i.reached }

  visited-IsCommand :
      (w i : ℕ) (next : Link → Option Code × NodePaths × Link) (alt : PathInfo) (o : Option Code)
      (l : Link)
      → IsCommand w Reached n l (next l)
      → get_elem? n.alternate_paths i ≡ some alt
      → ((ret : Code) → o ≡ some ret → Reached alt l)
      → IsCommand w Reached n l (visited attempt next i alt n o l)
  unfolding visited
  visited-IsCommand w i next alt none l k e r = k
  visited-IsCommand w i next alt (some ret) l k e r = record {
    kept = Kept-weaken (omega arith) (promote-Kept i alt n l e);
    reached = λ ret' d. r ret refl;
  }

  visit-IsCommand :
      (alts : List PathInfo) (i : ℕ) (l : Link)
      → drop i n.alternate_paths ≡ alts
      → IsCommand (times (length alts) c) Reached n l (visit attempt alts i n l)
  unfolding visit
  visit-IsCommand [] i l e = nothing 0 l
  visit-IsCommand (alt ∷ alts) i l e =
      let (o, m) = attempt alt l in
      let next = visit attempt alts (suc i) n in
      behind c (times (length alts) c) l m (visited attempt next i alt n o m) (h.costs alt l) (
        visited-IsCommand (times (length alts) c) i next alt o m
          (visit-IsCommand alts (suc i) m (drop-suc i n.alternate_paths alt alts e))
          (get_elem?-drop i n.alternate_paths alt alts e) (h.reached alt l))

  either-IsCommand :
      (w : ℕ) (b : Bool) (x y : Option Code × NodePaths × Link) (l : Link)
      → IsCommand w Reached n l x
      → IsCommand w Reached n l y
      → IsCommand w Reached n l (if b then x else y)
  either-IsCommand w true x y l p q = p
  either-IsCommand w false x y l p q = q

  behind_primary-IsCommand :
      (o : Option Code) (l : Link)
      → ((ret : Code) → o ≡ some ret → Reached n.primary_path l)
      → IsCommand (times (length n.alternate_paths) c) Reached n l (behind_primary attempt n o l)
  unfolding behind_primary
  behind_primary-IsCommand none l r =
      let w = times (length n.alternate_paths) c in
      either-IsCommand w l.gateway_status (visit attempt n.alternate_paths 0 n l) (none, n, l) l
        (visit-IsCommand n.alternate_paths 0 l refl) (nothing w l)
  behind_primary-IsCommand (some ret) l r = record {
    kept = Kept-refl (times (length n.alternate_paths) c) n l;
    reached = λ ret' d. r ret refl;
  }

  pub over_paths-IsCommand :
      (first : Attempt) (l : Link)
      → IsAttempt c Reached first
      → IsCommand
          (times (suc (length n.alternate_paths)) c)
          Reached
          n
          l
          (over_paths first attempt n l)
  unfolding over_paths
  over_paths-IsCommand first l k =
      let (o, m) = first n.primary_path l in
      behind c (times (length n.alternate_paths) c) l m (behind_primary attempt n o m)
        (k.costs n.primary_path l) (behind_primary-IsCommand o m (k.reached n.primary_path l))

-- The step from one link to the next in which the state alone changes.
entered : (s : ClientCurrentState) (l : Link) → Costs 0 l (enter s l)
entered s l = record {
  later = record { same_panid = refl; same_serial = refl; stays = λ h. h };
  writes = omega arith;
}

commission-Costs : (cmd : Bytes) (path : PathInfo) (l : Link) → Costs 3 l (commission cmd path l).1
unfolding commission
commission-Costs cmd path l = record {
  later = on_path-Later 3 cmd path 2 l;
  writes = on_path-writes 3 cmd path 2 l;
}

pub ask-IsAttempt :
    (cmd : Bytes) (accept : Code → Option Code) → IsAttempt 3 (LastWritten 3 cmd) (ask cmd accept)
unfolding ask commission
ask-IsAttempt cmd accept = record {
  costs = commission-Costs cmd;
  reached = λ path l ret e. on_path-LastWritten 3 cmd path 2 l;
}

Costs-refl : (c : ℕ) (l : Link) → Costs c l l
Costs-refl c l = record { later = Later-refl l; writes = omega arith }

and_then-Costs :
    (c : ℕ) (r : Code × Link) (next : Link → Code × Link)
    → Costs c r.1 (next r.1).1
    → Costs c r.1 (and_then r next).1
unfolding and_then
and_then-Costs c (success, l) next h = h
and_then-Costs c (_, l) next h = Costs-refl c l

-- A chain that succeeded is its last step.
and_then-success :
    (r : Code × Link) (next : Link → Code × Link)
    → (and_then r next).0 ≡ success
    → and_then r next ≡ next r.1
unfolding and_then
and_then-success (success, l) next e = refl
and_then-success (_, l) next e = absurd cc

single-Costs :
    (s : ClientCurrentState) (cmd : Bytes) (path : PathInfo) (l : Link)
    → Costs 3 l (and_then (commission cmd path (enter s l)) (λ l'. (success, l'))).1
single-Costs s cmd path l =
    let r = commission cmd path (enter s l) in
    Costs-trans (Costs-trans (entered s l) (commission-Costs cmd path (enter s l)))
      (and_then-Costs 0 r (λ l'. (success, l')) (Costs-refl 0 r.1))

perform_flash_and_reset-Costs :
    (path : PathInfo) (l : Link) → Costs 6 l (perform_flash_and_reset path l).1
unfolding perform_flash_and_reset flash_save soft_reset
perform_flash_and_reset-Costs path l =
    let r = flash_save path l in
    Costs-trans (single-Costs ClientCurrentState.flash_save flash_write path l) (
      and_then-Costs 3 r (soft_reset path)
        (single-Costs ClientCurrentState.soft_reset soft_exit path r.1))

perform_flash_and_reset-LastWritten :
    (path : PathInfo) (l : Link)
    → (perform_flash_and_reset path l).0 ≡ success
    → LastWritten 3 soft_exit path (perform_flash_and_reset path l).1
unfolding perform_flash_and_reset soft_reset commission
perform_flash_and_reset-LastWritten path l e =
    let m = (flash_save path l).1 in
    let k = enter ClientCurrentState.soft_reset m in
    let ended = and_then-success (flash_save path l) (soft_reset path) e in
    let sent =
      and_then-success (commission soft_exit path k) (λ l'. (success, l'))
        (ap (λ r. r.0) (sym ended) ∙ e) in
    rw (ended, sent) (on_path-LastWritten 3 soft_exit path 2 k)

confirmed-link : (ret : Code) (r : Code × Link) → (confirmed ret r).1 ≡ r.1
unfolding confirmed
confirmed-link ret (success, l) = refl
confirmed-link ret (_, l) = refl

confirmed-success :
    (ret ret' : Code) (r : Code × Link) → (confirmed ret r).0 ≡ some ret' → r.0 ≡ success
unfolding confirmed
confirmed-success ret ret' (success, l) e = refl
confirmed-success ret ret' (_, l) e = absurd (ground arith)

disable_step-Costs :
    (path : PathInfo) (o : Option Code) (l : Link) → Costs 6 l (disable_step path o l).1
unfolding disable_step
disable_step-Costs path none l = Costs-refl 6 l
disable_step-Costs path (some ret) l =
    rw (confirmed-link ret (perform_flash_and_reset path l)) (perform_flash_and_reset-Costs path l)

disable_step-LastWritten :
    (path : PathInfo) (o : Option Code) (l : Link) (ret : Code)
    → (disable_step path o l).0 ≡ some ret
    → LastWritten 3 soft_exit path (disable_step path o l).1
unfolding disable_step
disable_step-LastWritten path none l ret e = absurd (ground arith)
disable_step-LastWritten path (some r) l ret e =
    let done = perform_flash_and_reset path l in
    rw (confirmed-link r done)
      (perform_flash_and_reset-LastWritten path l (confirmed-success r ret done e))

pub disable-IsAttempt :
    (accept : Code → Option Code) → IsAttempt 9 (LastWritten 3 soft_exit) (disable accept)
unfolding disable
disable-IsAttempt accept =
    let asked = ask-IsAttempt fuota_disable accept in
    record {
      costs = λ path l.
          let (o, m) = ask fuota_disable accept path l in
          Costs-trans (asked.costs path l) (disable_step-Costs path o m);
      reached = λ path l ret e.
          let (o, m) = ask fuota_disable accept path l in disable_step-LastWritten path o m ret e;
    }
