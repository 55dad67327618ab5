-- ===== src/Split.antt =====
-- Splitting at a delimiter: `explode` of HES/src/String_functions.cpp and `Client::split` of
-- HES/src/client.cpp.
pub mod Laws
use atlascode.Prelude.{
  ℕ, zero, suc, ◌+◌, ◌-◌, ◌≤◌, ◌<◌, ◌≡◌, ◌≢◌, refl, ap, Bool, true, false, List, [], ◌∷◌, ◌++◌,
  Option, none, some, Bytes, arith, ◌==◌, if◌then◌else◌, length, take, drop, Option-cases,
  length-drop, length-append,
}

-- `find(delim)`, as the distance from where the search starts.
unfoldable pub find_char : ℕ → Bytes → Option ℕ
find_char d [] = none
find_char d (c ∷ s) =
    if c == d then some 0 else elim (find_char d s) [ none ↦ none | some i ↦ some (suc i) ]

-- The loop of `explode`; `s` is the text from `start` on.
unfoldable pub explode_loop : ℕ → ℕ → Bytes → List Bytes
unfolding find_char
explode_loop zero d s = []
explode_loop (suc fuel) d s = elim (find_char d s) [
  | none ↦ s ∷ []
  | some i ↦ take i s ∷ explode_loop fuel d (drop (suc i) s)
]

unfoldable pub explode : Bytes → ℕ → List Bytes
unfolding explode_loop
explode s d = explode_loop (suc (length s)) d s

-- `Client::split`: `std::getline` takes no piece at the end of the text.
unfoldable pub split_loop : ℕ → ℕ → Bytes → List Bytes
unfolding find_char
split_loop zero d s = []
split_loop (suc fuel) d [] = []
split_loop (suc fuel) d (c ∷ s) = elim (find_char d (c ∷ s)) [
  | none ↦ (c ∷ s) ∷ []
  | some i ↦ take i (c ∷ s) ∷ split_loop fuel d (drop (suc i) (c ∷ s))
]

unfoldable pub split : Bytes → ℕ → List Bytes
unfolding split_loop
split s d = split_loop (suc (length s)) d s

-- The pieces, joined by the delimiter.
abbrev pub join : ℕ → List Bytes → Bytes
join d [] = []
join d (p ∷ []) = p
join d (p ∷ q ∷ ps) = p ++ d ∷ join d (q ∷ ps)

-- No piece holds the delimiter.
abbrev pub Free : ℕ → Bytes → Type 0
Free d [] = Unit {0}
Free d (c ∷ s) = (c ≢ d) × Free d s

abbrev pub AllFree : ℕ → List Bytes → Type 0
AllFree d [] = Unit {0}
AllFree d (p ∷ ps) = Free d p × AllFree d ps
