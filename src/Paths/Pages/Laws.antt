-- ===== src/Paths/Pages/Laws.antt =====
-- What a profile pull, HES/src/client.cpp, keeps of a node's paths, what it costs, and where its last
-- request went.
use mathlib.Core.Path.{subst}
use atlascode.Prelude.{
  ℕ, zero, suc, ◌+◌, ◌*◌, ◌%◌, ◌≤◌, ◌≡◌, ◌≢◌, refl, inl, inr, Option, none, some, Bytes, ◌>>=◌, leb,
  length, Bool-cases, arith,
}
use atlascode.Link.{
  Code, success, failure, next_page_present, dlms_connection_failed, dlms_error, Link,
}
use atlascode.Link.Transmit.{PathInfo, transmit_command_on_path_pmesh}
use atlascode.Link.Transmit.OnPath.{LastWritten, on_path-Later, on_path-LastWritten, on_path-writes}
use atlascode.Paths.{NodePaths, PathRef, deref}
use atlascode.Paths.Laws.{SamePaths-refl}
use atlascode.Paths.Reconnect.{attempt_dlms_reconnect_all_paths}
use atlascode.Paths.Reconnect.Laws.{Kept, Kept-refl, Kept-trans, Kept-weaken, reconnect-Kept}
use atlascode.Paths.Pages.{Pulled, after_reconnect, next_page, after_page, request, pull_loop}

-- What holds of a result, where there is one.
abbrev pub OnSome {ℓ κ} : {A : Type ℓ} → (A → Type κ) → Option A → Type κ
OnSome P none = Unit
OnSome P (some a) = P a

pub OnSome-bind {ℓ κ ι} :
    {A : Type ℓ} {B : Type κ} (m : Option A) (f : A → Option B) (P : B → Type ι)
    → ((a : A) → m ≡ some a → OnSome P (f a))
    → OnSome P (m >>= f)
OnSome-bind none f P h = record {}
OnSome-bind (some a) f P h = h a refl

pub OnSome-elim {ℓ κ} :
    {A : Type ℓ} (P : A → Type κ) {m : Option A} {a : A} → m ≡ some a → OnSome P m → P a
OnSome-elim P e h = subst (OnSome P) e h

-- The last request went out over the path that the reference gives, for the page that the pull
-- stands at.
pub record IsServed (frame_fn : ℕ → Bytes) (ref : PathRef) (p : Pulled) : Type 0 where
  pub path : PathInfo
  pub place : deref ref p.node ≡ some path
  pub last : LastWritten 7 (frame_fn p.page_index) path p.link

pub record IsPull (w : ℕ) (frame_fn : ℕ → Bytes) (ref : PathRef) (n : NodePaths) (l : Link)
    (p : Pulled) : Type 0 where
  pub kept : Kept w n p.node l p.link
  pub served : p.code ≡ success → IsServed frame_fn ref p

-- `n` times the cost `c`
abbrev pub times : ℕ → ℕ → ℕ
times zero c = 0
times (suc n) c = c + times n c

module _ (frame_fn : ℕ → Bytes) (ref : PathRef) (k : ℕ) where
  -- What a pull costs behind what was spent before.
  widen :
      (u v w : ℕ) (m n : NodePaths) (j l : Link) (o : Option Pulled)
      → v + w ≤ u
      → Kept v m n j l
      → OnSome (IsPull w frame_fn ref n l) o
      → OnSome (IsPull u frame_fn ref m j) o
  widen u v w m n j l none b q i = i
  widen u v w m n j l (some p) b q i = record {
    kept = Kept-weaken b (Kept-trans q i.kept);
    served = i.served;
  }

  ends-IsPull :
      (w page_index : ℕ) (ret : Code) (n : NodePaths) (l : Link)
      → ret ≢ success
      → IsPull w frame_fn ref n l
          (record { code = ret; page_index = page_index; node = n; link = l })
  ends-IsPull w page_index ret n l d = record { kept = Kept-refl w n l; served = λ e. absurd (d e) }

  module _ (w : ℕ) (loop : ℕ → NodePaths → Link → Option Pulled)
      (h : (page_index : ℕ) (n : NodePaths) (l : Link)
        → length n.alternate_paths ≤ k
        → OnSome (IsPull w frame_fn ref n l) (loop page_index n l))
      (page_index : ℕ) where
    next_page-IsPull :
        (n : NodePaths) (l : Link)
        → length n.alternate_paths ≤ k
        → OnSome (IsPull w frame_fn ref n l) (next_page loop page_index n l)
    unfolding next_page
    next_page-IsPull n l b = elim (Bool-cases (leb 16 ((page_index + 1) % 256))) [
      | inl e ↦ rw (e, next_page) (ends-IsPull w ((page_index + 1) % 256) failure n l (λ d. cc))
      | inr e ↦ rw (e, next_page) (h ((page_index + 1) % 256) n l b)
    ]

    after_reconnect-IsPull :
        (rc : Code) (n : NodePaths) (l : Link)
        → length n.alternate_paths ≤ k
        → OnSome (IsPull w frame_fn ref n l) (after_reconnect loop page_index rc n l)
    unfolding after_reconnect
    after_reconnect-IsPull success n l b = h page_index n l b
    after_reconnect-IsPull _ n l b = ends-IsPull w page_index dlms_connection_failed n l (λ d. cc)

    after_page-IsPull :
        (path : PathInfo) (ret : Code) (n : NodePaths) (l : Link)
        → length n.alternate_paths ≤ k
        → (ret ≡ success
            → IsServed frame_fn ref
                (record { code = success; page_index = page_index; node = n; link = l }))
        → OnSome (IsPull (3 + 3 * k + w) frame_fn ref n l) (after_page loop page_index path ret n l)
    unfolding after_page
    after_page-IsPull path next_page_present n l b s =
        widen (3 + 3 * k + w) 0 w n n l l (next_page loop page_index n l) (omega arith)
          (Kept-refl 0 n l) (next_page-IsPull n l b)
    after_page-IsPull path success n l b s = record {
      kept = Kept-refl (3 + 3 * k + w) n l;
      served = s;
    }
    after_page-IsPull path dlms_connection_failed n l b s =
        let (rc, n', l') = attempt_dlms_reconnect_all_paths n path l in
        let q = reconnect-Kept n path l in
        widen (3 + 3 * k + w) (3 + 3 * length n.alternate_paths) w n n' l l'
          (after_reconnect loop page_index rc n' l') (omega (arith, b)) q
          (after_reconnect-IsPull rc n' l' (omega (arith, b, q.fewer)))
    after_page-IsPull path dlms_error n l b s =
        ends-IsPull (3 + 3 * k + w) page_index dlms_error n l (λ d. cc)
    after_page-IsPull path _ n l b s = ends-IsPull (3 + 3 * k + w) page_index failure n l (λ d. cc)

    request-IsPull :
        (path : PathInfo) (n : NodePaths) (l : Link)
        → deref ref n ≡ some path
        → length n.alternate_paths ≤ k
        → OnSome
            (IsPull (6 + 3 * k + w) frame_fn ref n l)
            (request loop page_index frame_fn n l path)
    unfolding request
    request-IsPull path n l e b =
        let cmd = frame_fn page_index in
        let (ret, l') = transmit_command_on_path_pmesh 7 cmd path 3 l in
        widen (6 + 3 * k + w) 3 (3 + 3 * k + w) n n l l' (after_page loop page_index path ret n l')
          (omega arith)
          (record {
            paths = SamePaths-refl n;
            fewer = omega arith;
            later = on_path-Later 7 cmd path 2 l;
            writes = on_path-writes 7 cmd path 2 l;
          })
          (after_page-IsPull path ret n l' b
            (λ d. record { path = path; place = e; last = on_path-LastWritten 7 cmd path 2 l }))

  pub pull_loop-IsPull :
      (rounds page_index : ℕ) (n : NodePaths) (l : Link)
      → length n.alternate_paths ≤ k
      → OnSome
          (IsPull (times rounds (6 + 3 * k)) frame_fn ref n l)
          (pull_loop rounds ref frame_fn page_index n l)
  unfolding pull_loop
  pull_loop-IsPull zero page_index n l b = ends-IsPull 0 page_index failure n l (λ d. cc)
  pull_loop-IsPull (suc rounds) page_index n l b =
      let loop = pull_loop rounds ref frame_fn in
      OnSome-bind (deref ref n) (request loop page_index frame_fn n l)
        (IsPull (times (suc rounds) (6 + 3 * k)) frame_fn ref n l)
        (λ path e.
          request-IsPull (times rounds (6 + 3 * k)) loop (pull_loop-IsPull rounds) page_index path n
            l e b)
