-- ===== src/Split/Laws.antt =====
-- What splitting gives: pieces free of the delimiter that join to the text.
use atlascode.Prelude.{
  ℕ, zero, suc, ◌<◌, ◌≡◌, ◌≢◌, inl, inr, refl, ap, List, [], ◌∷◌, ◌++◌, none, some, Bytes, arith,
  ◌==◌, ==_refl, length, take, drop, Option-cases, length-drop, length-append, take-append,
  Bool-cases,
}
use atlascode.Split.{find_char, explode_loop, explode, split_loop, split, join, Free, AllFree}

find_char-none : (d : ℕ) (s : Bytes) → find_char d s ≡ none → Free d s
unfolding find_char
find_char-none d [] h = tt
find_char-none d (c ∷ s) h = elim (Option-cases (find_char d s)) [
  | inl e ↦ (ground arith, find_char-none d s e)
  | inr (i, e) ↦ absurd (ground arith)
]

record Found (d : ℕ) (s : Bytes) (i : ℕ) : Type 0 where
  within : i < length s
  free : Free d (take i s)
  parts : take i s ++ d ∷ drop (suc i) s ≡ s

find_char-some : (d : ℕ) (s : Bytes) (i : ℕ) → find_char d s ≡ some i → Found d s i
unfolding find_char
find_char-some d [] i h = absurd (ground arith)
find_char-some d (c ∷ s) zero h = elim (Bool-cases (c == d)) [
  | inl e ↦ record { within = omega arith; free = tt; parts = ground arith }
  | inr e ↦
      absurd
        (elim (Option-cases (find_char d s)) [ inl f ↦ ground arith | inr (j, f) ↦ ground arith ])
]
find_char-some d (c ∷ s) (suc i) h = elim (Bool-cases (c == d)) [
  | inl e ↦ absurd (ground arith)
  | inr e ↦
      let found = find_char-some d s i (elim (Option-cases (find_char d s)) [
        | inl f ↦ ground arith
        | inr (j, f) ↦ ground arith
      ]) in
      record {
        within = omega (arith, found.within);
        free = (ground arith, found.free);
        parts = ap (◌∷◌ c) found.parts;
      }
]

find_char-append : (d : ℕ) (p s : Bytes) → Free d p → find_char d (p ++ d ∷ s) ≡ some (length p)
unfolding find_char
find_char-append d [] s h = ground (arith, ==_refl d)
find_char-append d (c ∷ p) s h = ground (arith, find_char-append d p s h.1)

find_char-Free : (d : ℕ) (p : Bytes) → Free d p → find_char d p ≡ none
unfolding find_char
find_char-Free d [] h = refl
find_char-Free d (c ∷ p) h = ground (arith, find_char-Free d p h.1)

-- The pieces of a text.
pub record IsSplit (d : ℕ) (s : Bytes) (ps : List Bytes) : Type 0 where
  pub nonempty : ps ≢ []
  pub free : AllFree d ps
  pub joined : join d ps ≡ s

drop-append-suc : (p : Bytes) (c : ℕ) (s : Bytes) → drop (suc (length p)) (p ++ c ∷ s) ≡ s
drop-append-suc [] c s = refl
drop-append-suc (x ∷ p) c s = drop-append-suc p c s

join-cons : (d : ℕ) (p : Bytes) (ps : List Bytes) → ps ≢ [] → join d (p ∷ ps) ≡ p ++ d ∷ join d ps
join-cons d p [] h = absurd (h refl)
join-cons d p (q ∷ ps) h = refl

explode_loop-IsSplit :
    (fuel d : ℕ) (s : Bytes) → length s < fuel → IsSplit d s (explode_loop fuel d s)
unfolding explode_loop
explode_loop-IsSplit zero d s h = elim h [ ]
explode_loop-IsSplit (suc fuel) d s h = elim (Option-cases (find_char d s)) [
  | inl e ↦
      rw (e, explode_loop)
        (record { nonempty = λ q. ground arith; free = (find_char-none d s e, tt); joined = refl })
  | inr (i, e) ↦
      let found = find_char-some d s i e in
      let rest =
        explode_loop-IsSplit fuel d (drop (suc i) s)
          (omega (arith, length-drop (suc i) s, found.within)) in
      rw (e, explode_loop)
        (record {
          nonempty = λ q. ground arith;
          free = (found.free, rest.free);
          joined = rw (join-cons d (take i s) _ rest.nonempty, rest.joined) found.parts;
        })
]

-- `explode` returns at least one piece, no piece holds the delimiter, and the pieces joined by it
-- are the text again.
pub explode-IsSplit : (s : Bytes) (d : ℕ) → IsSplit d s (explode s d)
unfolding explode
explode-IsSplit s d = explode_loop-IsSplit (suc (length s)) d s (omega arith)

length-join-cons :
    (d : ℕ) (p q : Bytes) (ps : List Bytes)
    → length (join d (q ∷ ps)) < length (join d (p ∷ q ∷ ps))
length-join-cons d p q ps = omega (arith, length-append p (d ∷ join d (q ∷ ps)))

explode_loop-join :
    (fuel d : ℕ) (p : Bytes) (ps : List Bytes)
    → AllFree d (p ∷ ps)
    → length (join d (p ∷ ps)) < fuel
    → explode_loop fuel d (join d (p ∷ ps)) ≡ p ∷ ps
unfolding explode_loop
explode_loop-join zero d p ps h m = elim m [ ]
explode_loop-join (suc fuel) d p [] h m = rw (find_char-Free d p h.0, explode_loop) refl
explode_loop-join (suc fuel) d p (q ∷ ps) h m =
    rw
      (
        find_char-append d p (join d (q ∷ ps)) h.0,
        explode_loop,
        take-append (length p) p (d ∷ join d (q ∷ ps)) refl,
        drop-append-suc p d (join d (q ∷ ps)),
        explode_loop-join fuel d q ps h.1 (omega (arith, length-join-cons d p q ps)),
      )
      refl

-- A text joined from pieces that are free of the delimiter is split into just these pieces.
pub explode-join :
    (d : ℕ) (p : Bytes) (ps : List Bytes)
    → AllFree d (p ∷ ps)
    → explode (join d (p ∷ ps)) d ≡ p ∷ ps
unfolding explode
explode-join d p ps h = explode_loop-join (suc (length (join d (p ∷ ps)))) d p ps h (omega arith)

-- `std::getline` differs from `explode` in one way: an empty piece at the end is left out.
abbrev pub drop_empty_end : List Bytes → List Bytes
drop_empty_end [] = []
drop_empty_end ([] ∷ []) = []
drop_empty_end ((c ∷ p) ∷ []) = (c ∷ p) ∷ []
drop_empty_end (p ∷ q ∷ ps) = p ∷ drop_empty_end (q ∷ ps)

drop_empty_end-cons :
    (p : Bytes) (ps : List Bytes) → ps ≢ [] → drop_empty_end (p ∷ ps) ≡ p ∷ drop_empty_end ps
drop_empty_end-cons p [] h = absurd (h refl)
drop_empty_end-cons [] (q ∷ ps) h = refl
drop_empty_end-cons (c ∷ p) (q ∷ ps) h = refl

split_loop-explode_loop :
    (fuel d : ℕ) (s : Bytes)
    → length s < fuel
    → split_loop fuel d s ≡ drop_empty_end (explode_loop fuel d s)
unfolding split_loop explode_loop
split_loop-explode_loop zero d s h = elim h [ ]
split_loop-explode_loop (suc fuel) d [] h = ground (arith, find_char-Free d [] tt)
split_loop-explode_loop (suc fuel) d (c ∷ s) h = elim (Option-cases (find_char d (c ∷ s))) [
  | inl e ↦ rw (e, explode_loop, split_loop) refl
  | inr (i, e) ↦
      let found = find_char-some d (c ∷ s) i e in
      let shorter : length (drop (suc i) (c ∷ s)) < fuel =
        omega (arith, length-drop (suc i) (c ∷ s), found.within) in
      rw
        (
          e,
          explode_loop,
          split_loop,
          split_loop-explode_loop fuel d (drop (suc i) (c ∷ s)) shorter,
          drop_empty_end-cons (take i (c ∷ s)) _
              (explode_loop-IsSplit fuel d (drop (suc i) (c ∷ s)) shorter).nonempty,
        )
        refl
]

-- `Client::split` gives the pieces of `explode`, without an empty piece at the end.
pub split-explode : (s : Bytes) (d : ℕ) → split s d ≡ drop_empty_end (explode s d)
unfolding split explode
split-explode s d = split_loop-explode_loop (suc (length s)) d s (omega arith)
