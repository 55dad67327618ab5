-- ===== src/Nodes/Cycles.antt =====
-- The missing cycles of the instantaneous profile, HES/src/client.cpp:
-- `pull_instantaneous_profile_for_cycle` and `pull_missing_instantaneous_for_a_node`.
use atlascode.Prelude.{
  ℕ, ◌≡◌, ◌≢◌, ◌↔◌, refl, Bool, true, false, List, [], ◌∷◌, ◌++◌, Option, none, some, Bytes, ◌>>=◌,
  take, ap, arith,
}
use atlascode.Prelude.Signed.{ℤ}
use atlascode.Link.{ClientCurrentState, Code, success, Link}
use atlascode.Link.Frames.{frame_dlms_ip_command_packet}
use atlascode.Paths.{NodePaths}
use atlascode.Paths.Commands.{enter}
use atlascode.Paths.Laws.{SamePaths, SamePaths-refl, SamePaths-trans}
use atlascode.Paths.Pages.Outcome.{try_paths-SamePaths}
use atlascode.Paths.Pages.{Pulled, try_paths_for_profile_pull}
use atlascode.Paths.Pages.Laws.{OnSome, OnSome-bind, OnSome-elim}
use atlascode.Nodes.{Saved, insert_instantaneous_parameters, Session, save}

-- A pull of the profile with its state, from page 0 on.
unfoldable pub pull_profile : ClientCurrentState → (ℕ → Bytes) → NodePaths → Link → Option Pulled
unfolding try_paths_for_profile_pull
pull_profile state frame_fn paths l = try_paths_for_profile_pull frame_fn 0 paths (enter state l)

unfoldable pub pull_instantaneous_profile_for_cycle : ℤ → NodePaths → Link → Option Pulled
unfolding pull_profile frame_dlms_ip_command_packet
pull_instantaneous_profile_for_cycle cycle paths l =
    pull_profile ClientCurrentState.instantaneous_profile (frame_dlms_ip_command_packet cycle) paths
      l

-- What the loop leaves: whether all cycles came, those that are left, the paths and the session.
pub record Downloaded : Type 0 where
  pub ok : Bool
  pub missing_ip_cycles : List ℤ
  pub paths : NodePaths
  pub session : Session

-- Behind the pull of a cycle, by its code.
unfoldable pub after_cycle :
    (NodePaths → Session → Option Downloaded)
    → Bytes
    → ℤ
    → List ℤ
    → Code
    → Pulled
    → Session
    → Option Downloaded
after_cycle rest mac cycle cycles success p s =
    rest p.node (save (insert_instantaneous_parameters mac cycle) (record s { link = p.link }))
after_cycle rest mac cycle cycles _ p s = some (record {
  ok = false;
  missing_ip_cycles = cycle ∷ cycles;
  paths = p.node;
  session = record s { link = p.link };
})

unfoldable pub cycles_loop : Bytes → List ℤ → NodePaths → Session → Option Downloaded
unfolding pull_instantaneous_profile_for_cycle after_cycle
cycles_loop mac [] paths s =
    some (record { ok = true; missing_ip_cycles = []; paths = paths; session = s })
cycles_loop mac (cycle ∷ cycles) paths s = do
  p ← pull_instantaneous_profile_for_cycle cycle paths s.link
  after_cycle (cycles_loop mac cycles) mac cycle cycles p.code p s

-- At most four cycles are kept.
unfoldable pub pull_missing_instantaneous_for_a_node :
    Bytes → List ℤ → NodePaths → Session → Option Downloaded
unfolding cycles_loop
pull_missing_instantaneous_for_a_node mac cycles paths s = cycles_loop mac (take 4 cycles) paths s

-- The calls that insert these cycles, in this order, on top of others.
abbrev pub inserted : Bytes → List ℤ → List Saved → List Saved
inserted mac [] saved = saved
inserted mac (cycle ∷ cycles) saved =
    inserted mac cycles (insert_instantaneous_parameters mac cycle ∷ saved)

-- The cycles that came are those whose pull succeeded, one after the other, each over the paths and the
-- link that the one before left; the pull of the first cycle that is left did not succeed.
pub data ArePulled : List ℤ → List ℤ → NodePaths → Link → Type 0 where
  none_left : {paths : NodePaths} {l : Link} → ArePulled [] [] paths l
  pulled :
      {cycle : ℤ} {came left : List ℤ} {paths : NodePaths} {l : Link} (p : Pulled)
      → pull_instantaneous_profile_for_cycle cycle paths l ≡ some p
      → p.code ≡ success
      → ArePulled came left p.node p.link
      → ArePulled (cycle ∷ came) left paths l
  not_pulled :
      {cycle : ℤ} {left : List ℤ} {paths : NodePaths} {l : Link} (p : Pulled)
      → pull_instantaneous_profile_for_cycle cycle paths l ≡ some p
      → p.code ≢ success
      → ArePulled [] (cycle ∷ left) paths l

-- What came and what is left are the cycles that were asked for; the paths are those of before.
pub record IsAccounted (mac : Bytes) (cycles : List ℤ) (n : NodePaths) (s : Session)
    (d : Downloaded) : Type 0 where
  pub came : List ℤ
  pub results : ArePulled came d.missing_ip_cycles n s.link
  pub all : came ++ d.missing_ip_cycles ≡ cycles
  pub stored : d.session.saved ≡ inserted mac came s.saved
  pub complete : (d.ok ≡ true) ↔ (d.missing_ip_cycles ≡ [])
  pub same : SamePaths n d.paths

pull-SamePaths :
    (cycle : ℤ) (paths : NodePaths) (l : Link) (p : Pulled)
    → pull_instantaneous_profile_for_cycle cycle paths l ≡ some p
    → SamePaths paths p.node
unfolding pull_instantaneous_profile_for_cycle pull_profile
pull-SamePaths cycle paths l p e =
    (try_paths-SamePaths (frame_dlms_ip_command_packet cycle) 0 paths
      (enter ClientCurrentState.instantaneous_profile l) p e).0

module _ (mac : Bytes) where
  counted :
      (cycle : ℤ) (cycles : List ℤ) (m : NodePaths) (p : Pulled) (s : Session)
      (o : Option Downloaded)
      → pull_instantaneous_profile_for_cycle cycle m s.link ≡ some p
      → p.code ≡ success
      → SamePaths m p.node
      → OnSome
          (IsAccounted mac cycles p.node
            (save (insert_instantaneous_parameters mac cycle) (record s { link = p.link })))
          o
      → OnSome (IsAccounted mac (cycle ∷ cycles) m s) o
  unfolding save
  counted cycle cycles m p s none e k q i = i
  counted cycle cycles m p s (some d) e k q i = record {
    came = cycle ∷ i.came;
    results = pulled p e k i.results;
    all = ap (◌∷◌ cycle) i.all;
    stored = i.stored;
    complete = i.complete;
    same = SamePaths-trans q i.same;
  }

  after_cycle-IsAccounted :
      (rest : NodePaths → Session → Option Downloaded) (cycle : ℤ) (cycles : List ℤ) (n : NodePaths)
      (c : Code) (p : Pulled) (s : Session)
      → pull_instantaneous_profile_for_cycle cycle n s.link ≡ some p
      → p.code ≡ c
      → SamePaths n p.node
      → ((paths : NodePaths) (t : Session) → OnSome (IsAccounted mac cycles paths t) (rest paths t))
      → OnSome (IsAccounted mac (cycle ∷ cycles) n s) (after_cycle rest mac cycle cycles c p s)
  unfolding after_cycle
  after_cycle-IsAccounted rest cycle cycles n success p s e k q h =
      let t = save (insert_instantaneous_parameters mac cycle) (record s { link = p.link }) in
      counted cycle cycles n p s (rest p.node t) e k q (h p.node t)
  after_cycle-IsAccounted rest cycle cycles n _ p s e k q h = record {
    came = [];
    results = not_pulled p e (λ f. cc);
    all = refl;
    stored = refl;
    complete = ground arith;
    same = q;
  }

  cycles_loop-IsAccounted :
      (cycles : List ℤ) (paths : NodePaths) (s : Session)
      → OnSome (IsAccounted mac cycles paths s) (cycles_loop mac cycles paths s)
  unfolding cycles_loop
  cycles_loop-IsAccounted [] paths s = record {
    came = [];
    results = none_left;
    all = refl;
    stored = refl;
    complete = (λ e. refl, λ e. refl);
    same = SamePaths-refl paths;
  }
  cycles_loop-IsAccounted (cycle ∷ cycles) paths s =
      OnSome-bind (pull_instantaneous_profile_for_cycle cycle paths s.link)
        (λ p. after_cycle (cycles_loop mac cycles) mac cycle cycles p.code p s)
        (IsAccounted mac (cycle ∷ cycles) paths s)
        (λ p e.
          after_cycle-IsAccounted (cycles_loop mac cycles) cycle cycles paths p.code p s e refl
            (pull-SamePaths cycle paths s.link p e) (cycles_loop-IsAccounted cycles))

-- When the pull of a node's missing cycles ends with a result: four at most were asked for, in order, and
-- those inserted, once each, are the ones whose pull succeeded. It stopped at the first cycle whose pull
-- did not succeed, which is left with all behind it; the result is a success just when none is left. The
-- node keeps its paths.
pub cycles-IsAccounted :
    (mac : Bytes) (cycles : List ℤ) (paths : NodePaths) (s : Session) (d : Downloaded)
    → pull_missing_instantaneous_for_a_node mac cycles paths s ≡ some d
    → IsAccounted mac (take 4 cycles) paths s d
unfolding pull_missing_instantaneous_for_a_node
cycles-IsAccounted mac cycles paths s d e =
    OnSome-elim (IsAccounted mac (take 4 cycles) paths s) e
      (cycles_loop-IsAccounted mac (take 4 cycles) paths s)
