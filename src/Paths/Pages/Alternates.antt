-- ===== src/Paths/Pages/Alternates.antt =====
-- What a profile pull over all paths of a node, HES/src/client.cpp, comes to.
use mathlib.Core.Path.{subst}
use mathlib.Core.Option.{some-injective}
use atlascode.Prelude.{
  ℕ, zero, suc, ◌+◌, ◌*◌, ◌≤◌, ◌≡◌, ◌⊎◌, refl, sym, ◌∙◌, List, [], ◌∷◌, ◌++◌, length-append, Option,
  none, some, Bytes, length, Bool-cases, inl, inr, arith, get_elem?,
}
use atlascode.Link.{Code, success, failure, dlms_connection_failed, dlms_error, Link}
use atlascode.Link.Transmit.{PathInfo}
use atlascode.Link.Transmit.OnPath.{LastWritten, Later-refl}
use atlascode.Paths.{NodePaths, PathRef, at_primary, at_alternate, deref, remove_at, promote}
use atlascode.Paths.Laws.{promote-SamePaths}
use atlascode.Paths.Reconnect.Laws.{Kept, Kept-refl, Kept-trans, Kept-weaken}
use atlascode.Paths.Pages.{
  Pulled, pull_loop, pull_profile_pages_on_path, promoted, after_alternate, pull_alternates,
  after_primary, try_paths_for_profile_pull,
}
use atlascode.Paths.Pages.Laws.{
  OnSome, OnSome-bind, OnSome-elim, IsServed, IsPull, times, pull_loop-IsPull,
}

-- The result of a pull over all paths: what it keeps, its code, and where the last request went.
pub record IsTried (w : ℕ) (frame_fn : ℕ → Bytes) (n : NodePaths) (l : Link) (p : Pulled)
    : Type 0 where
  pub kept : Kept w n p.node l p.link
  pub code : (p.code ≡ success) ⊎ (p.code ≡ failure)
  pub served : p.code ≡ success → LastWritten 7 (frame_fn p.page_index) p.node.primary_path p.link

deref-alternate :
    (buffer i : ℕ) (alt : PathInfo) (n : NodePaths)
    → deref (at_alternate buffer i) n ≡ some alt
    → get_elem? n.alternate_paths i ≡ some alt
unfolding deref
deref-alternate buffer i alt n e = ground arith

length-remove_at :
    (i : ℕ) (alt last : PathInfo) (xs : List PathInfo)
    → get_elem? xs i ≡ some alt
    → length (remove_at i xs ++ last ∷ []) ≤ length xs
length-remove_at i alt last [] e = absurd (ground arith)
length-remove_at zero alt last (x ∷ xs) e = omega (arith, length-append xs (last ∷ []))
length-remove_at (suc i) alt last (x ∷ xs) e = omega (arith, length-remove_at i alt last xs e)

pub promote-Kept :
    (i : ℕ) (alt : PathInfo) (n : NodePaths) (l : Link)
    → get_elem? n.alternate_paths i ≡ some alt
    → Kept 0 n (promote i alt n) l l
unfolding promote
promote-Kept i alt n l e = record {
  paths = promote-SamePaths i alt n e;
  fewer = length-remove_at i alt n.primary_path n.alternate_paths e;
  later = Later-refl l;
  writes = omega arith;
}

times_le : (m n c : ℕ) → m ≤ n → times m c ≤ times n c
times_le zero n c h = omega arith
times_le (suc m) zero c h = absurd (omega arith)
times_le (suc m) (suc n) c h = omega (arith, times_le m n c (omega arith))

served_at :
    (frame_fn : ℕ → Bytes) (ref : PathRef) (p : Pulled) (path : PathInfo)
    → IsServed frame_fn ref p
    → deref ref p.node ≡ some path
    → LastWritten 7 (frame_fn p.page_index) path p.link
served_at frame_fn ref p path s e =
    let same : s.path ≡ path = some-injective s.path path (sym s.place ∙ e) in
    subst (λ q. LastWritten 7 (frame_fn p.page_index) q p.link) same s.last

module _ (frame_fn : ℕ → Bytes) where
  promoted-IsTried :
      (w buffer i : ℕ) (n : NodePaths) (l : Link) (p : Pulled)
      → p.code ≡ success
      → IsPull w frame_fn (at_alternate buffer i) n l p
      → OnSome (IsTried w frame_fn n l) (promoted (at_alternate buffer i) i p)
  unfolding promoted
  promoted-IsTried w buffer i n l p s h =
      let ref = at_alternate buffer i in
      OnSome-bind (deref ref p.node) (λ alt. some (record p { node = promote i alt p.node }))
        (IsTried w frame_fn n l)
        (λ alt e. record {
          kept = Kept-weaken (omega arith) (
              Kept-trans h.kept
                (promote-Kept i alt p.node p.link (deref-alternate buffer i alt p.node e)));
          code = inl s;
          served = λ d. served_at frame_fn ref p alt (h.served s) e;
        })

  -- A pull that failed, whatever its code was.
  failed-IsTried :
      (w : ℕ) (ref : PathRef) (n : NodePaths) (l : Link) (p : Pulled)
      → IsPull w frame_fn ref n l p
      → IsTried w frame_fn n l (record p { code = failure })
  failed-IsTried w ref n l p h = record { kept = h.kept; code = inr refl; served = λ d. absurd cc }

  -- What a pull over further paths costs behind what was spent before.
  spread :
      (v w : ℕ) (m n : NodePaths) (j l : Link) (o : Option Pulled)
      → Kept v m n j l
      → OnSome (IsTried w frame_fn n l) o
      → OnSome (IsTried (v + w) frame_fn m j) o
  spread v w m n j l none q i = i
  spread v w m n j l (some p) q i = record {
    kept = Kept-trans q i.kept;
    code = i.code;
    served = i.served;
  }

  spared :
      (v w : ℕ) (n : NodePaths) (l : Link) (o : Option Pulled)
      → v ≤ w
      → OnSome (IsTried v frame_fn n l) o
      → OnSome (IsTried w frame_fn n l) o
  spared v w n l none b i = i
  spared v w n l (some p) b i = record {
    kept = Kept-weaken b i.kept;
    code = i.code;
    served = i.served;
  }

  module _ (k : ℕ) where
    after_alternate-IsTried :
        (v w buffer i : ℕ) (next : ℕ → NodePaths → Link → Option Pulled)
        → ((page_index : ℕ) (n : NodePaths) (l : Link)
            → length n.alternate_paths ≤ k
            → OnSome (IsTried w frame_fn n l) (next page_index n l))
        → (n : NodePaths) (l : Link) (c : Code) (p : Pulled) → p.code ≡ c
        → length n.alternate_paths ≤ k
        → IsPull v frame_fn (at_alternate buffer i) n l p
        → OnSome (IsTried (v + w) frame_fn n l) (after_alternate next (at_alternate buffer i) i c p)
    unfolding after_alternate
    after_alternate-IsTried v w buffer i next h n l success p e b q =
        spared v (v + w) n l (promoted (at_alternate buffer i) i p) (omega arith)
          (promoted-IsTried v buffer i n l p e q)
    after_alternate-IsTried v w buffer i next h n l dlms_error p e b q =
        spared v (v + w) n l (some (record p { code = failure })) (omega arith)
          (failed-IsTried v (at_alternate buffer i) n l p q)
    after_alternate-IsTried v w buffer i next h n l dlms_connection_failed p e b q =
        spared v (v + w) n l (some (record p { code = failure })) (omega arith)
          (failed-IsTried v (at_alternate buffer i) n l p q)
    after_alternate-IsTried v w buffer i next h n l _ p e b q =
        OnSome-bind (deref (at_alternate buffer i) p.node)
          (λ (alt : PathInfo). next p.page_index p.node p.link) (IsTried (v + w) frame_fn n l)
          (λ alt d.
            spread v w n p.node l p.link (next p.page_index p.node p.link) q.kept
              (h p.page_index p.node p.link (omega (arith, b, q.kept.fewer))))

    pull_alternates-IsTried :
        (left i buffer page_index : ℕ) (n : NodePaths) (l : Link)
        → length n.alternate_paths ≤ k
        → OnSome
            (IsTried (times left (times 16 (6 + 3 * k))) frame_fn n l)
            (pull_alternates left i buffer frame_fn page_index n l)
    unfolding pull_alternates pull_profile_pages_on_path
    pull_alternates-IsTried zero i buffer page_index n l b = record {
      kept = Kept-refl 0 n l;
      code = inr refl;
      served = λ d. absurd cc;
    }
    pull_alternates-IsTried (suc left) i buffer page_index n l b =
        let c = times 16 (6 + 3 * k) in
        let ref = at_alternate buffer i in
        let next = pull_alternates left (suc i) buffer frame_fn in
        let pulls = pull_loop-IsPull frame_fn ref k 16 page_index n l b in
        OnSome-bind (pull_loop 16 ref frame_fn page_index n l)
          (λ p. after_alternate next ref i p.code p) (IsTried (times (suc left) c) frame_fn n l)
          (λ p e.
            after_alternate-IsTried c (times left c) buffer i next
              (pull_alternates-IsTried left (suc i) buffer) n l p.code p refl b
              (OnSome-elim (IsPull c frame_fn ref n l) e pulls))

    after_primary-IsTried :
        (v : ℕ) (n : NodePaths) (l : Link) (c : Code) (p : Pulled)
        → p.code ≡ c
        → length n.alternate_paths ≤ k
        → IsPull v frame_fn at_primary n l p
        → OnSome
            (IsTried (v + times k (times 16 (6 + 3 * k))) frame_fn n l)
            (after_primary frame_fn c p)
    unfolding after_primary
    after_primary-IsTried v n l success p e b q =
        spared v (v + times k (times 16 (6 + 3 * k))) n l (some p) (omega arith) (record {
          kept = q.kept;
          code = inl e;
          served = λ d. served_at frame_fn at_primary p p.node.primary_path (q.served d) refl;
        })
    after_primary-IsTried v n l dlms_error p e b q =
        spared v (v + times k (times 16 (6 + 3 * k))) n l (some (record p { code = failure }))
          (omega arith) (failed-IsTried v at_primary n l p q)
    after_primary-IsTried v n l dlms_connection_failed p e b q =
        spared v (v + times k (times 16 (6 + 3 * k))) n l (some (record p { code = failure }))
          (omega arith) (failed-IsTried v at_primary n l p q)
    after_primary-IsTried v n l _ p e b q =
        let c = times 16 (6 + 3 * k) in
        let left = length p.node.alternate_paths in
        let run = pull_alternates left 0 p.node.buffer frame_fn p.page_index p.node p.link in
        elim (Bool-cases p.link.gateway_status) [
          | inl s ↦ simp s (
              spared (v + times left c) (v + times k c) n l run
                (omega (arith, times_le left k c (omega (arith, b, q.kept.fewer))))
                (spread v (times left c) n p.node l p.link run q.kept (
                  pull_alternates-IsTried left 0 p.node.buffer p.page_index p.node p.link
                    (omega (arith, b, q.kept.fewer)))))
          | inr s ↦ simp s (
              spared v (v + times k c) n l (some (record p { code = failure })) (omega arith)
                (failed-IsTried v at_primary n l p q))
        ]

    pub try_paths-IsTried :
        (page_index : ℕ) (n : NodePaths) (l : Link)
        → length n.alternate_paths ≤ k
        → OnSome
            (IsTried (times (suc k) (times 16 (6 + 3 * k))) frame_fn n l)
            (try_paths_for_profile_pull frame_fn page_index n l)
    unfolding try_paths_for_profile_pull pull_profile_pages_on_path
    try_paths-IsTried page_index n l b =
        let c = times 16 (6 + 3 * k) in
        let pulls = pull_loop-IsPull frame_fn at_primary k 16 page_index n l b in
        OnSome-bind (pull_loop 16 at_primary frame_fn page_index n l)
          (λ p. after_primary frame_fn p.code p) (IsTried (times (suc k) c) frame_fn n l)
          (λ p e.
            after_primary-IsTried c n l p.code p refl b
              (OnSome-elim (IsPull c frame_fn at_primary n l) e pulls))
