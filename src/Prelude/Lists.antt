-- ===== src/Prelude/Lists.antt =====
-- Lists measured and indexed by native numbers, under the library's names, and byte strings.
use Prim.Native.Nat.{ℕ, zero, suc, ◌+◌, ◌-◌, ◌≤◌, ◌<◌, min}
use mathlib.Core.Path.{◌≡◌, refl, ap}
use mathlib.Core.List.{List, [], ◌∷◌, ◌++◌}
use mathlib.Core.Option.{Option, none, some}
use native.Mathlib.Omega.{arith}

module _ {ℓ} {A : Type ℓ} where
  abbrev pub length : List A → ℕ
  length [] = 0
  length (x ∷ xs) = suc (length xs)

  abbrev pub get_elem? : List A → ℕ → Option A
  get_elem? [] i = none
  get_elem? (x ∷ xs) zero = some x
  get_elem? (x ∷ xs) (suc i) = get_elem? xs i

  abbrev pub get_or : List A → ℕ → A → A
  get_or [] i d = d
  get_or (x ∷ xs) zero d = x
  get_or (x ∷ xs) (suc i) d = get_or xs i d

  abbrev pub take : ℕ → List A → List A
  take zero xs = []
  take (suc n) [] = []
  take (suc n) (x ∷ xs) = x ∷ take n xs

  abbrev pub drop : ℕ → List A → List A
  drop zero xs = xs
  drop (suc n) [] = []
  drop (suc n) (x ∷ xs) = drop n xs

  pub length-append : (xs ys : List A) → length (xs ++ ys) ≡ length xs + length ys
  length-append [] ys = omega arith
  length-append (x ∷ xs) ys = omega (arith, length-append xs ys)

  pub length-take : (n : ℕ) (xs : List A) → length (take n xs) ≡ min n (length xs)
  length-take zero xs = omega arith
  length-take (suc n) [] = omega arith
  length-take (suc n) (x ∷ xs) = omega (arith, length-take n xs)

  pub length-drop : (n : ℕ) (xs : List A) → length (drop n xs) ≡ length xs - n
  length-drop zero xs = omega arith
  length-drop (suc n) [] = omega arith
  length-drop (suc n) (x ∷ xs) = omega (arith, length-drop n xs)

  -- An index in bounds is read.
  pub get_elem?_in_bounds :
      (xs : List A) (i : ℕ) → i < length xs → (a : A) × (get_elem? xs i ≡ some a)
  get_elem?_in_bounds [] i h = elim h [ ]
  get_elem?_in_bounds (x ∷ xs) zero h = (x, refl)
  get_elem?_in_bounds (x ∷ xs) (suc i) h = get_elem?_in_bounds xs i (omega arith)

  pub get_elem?_out_of_bounds : (xs : List A) (i : ℕ) → length xs ≤ i → get_elem? xs i ≡ none
  get_elem?_out_of_bounds [] i h = refl
  get_elem?_out_of_bounds (x ∷ xs) zero h = absurd (omega arith)
  get_elem?_out_of_bounds (x ∷ xs) (suc i) h = get_elem?_out_of_bounds xs i (omega arith)

  pub take-append : (n : ℕ) (xs ys : List A) → length xs ≡ n → take n (xs ++ ys) ≡ xs
  take-append zero [] ys h = refl
  take-append zero (x ∷ xs) ys h = absurd (omega arith)
  take-append (suc n) [] ys h = absurd (omega arith)
  take-append (suc n) (x ∷ xs) ys h = ap (◌∷◌ x) (take-append n xs ys (omega arith))

  pub drop-append : (n : ℕ) (xs ys : List A) → length xs ≡ n → drop n (xs ++ ys) ≡ ys
  drop-append zero [] ys h = refl
  drop-append zero (x ∷ xs) ys h = absurd (omega arith)
  drop-append (suc n) [] ys h = absurd (omega arith)
  drop-append (suc n) (x ∷ xs) ys h = drop-append n xs ys (omega arith)

  -- What a window on the list, `drop o xs`, says of the reads at `o`.
  pub get_elem?-drop :
      (o : ℕ) (xs : List A) (x : A) (r : List A) → drop o xs ≡ x ∷ r → get_elem? xs o ≡ some x
  get_elem?-drop zero [] x r h = ground arith
  get_elem?-drop zero (y ∷ xs) x r h = ground arith
  get_elem?-drop (suc o) [] x r h = ground arith
  get_elem?-drop (suc o) (y ∷ xs) x r h = get_elem?-drop o xs x r h

  pub drop-suc :
      (o : ℕ) (xs : List A) (x : A) (r : List A) → drop o xs ≡ x ∷ r → drop (suc o) xs ≡ r
  drop-suc zero [] x r h = ground arith
  drop-suc zero (y ∷ xs) x r h = ground arith
  drop-suc (suc o) [] x r h = ground arith
  drop-suc (suc o) (y ∷ xs) x r h = drop-suc o xs x r h

  pub drop-skip :
      (bs : List A) (o : ℕ) (xs r : List A) → drop o xs ≡ bs ++ r → drop (o + length bs) xs ≡ r
  drop-skip [] o xs r h = let e : o + 0 ≡ o = omega arith in rw e h
  drop-skip (b ∷ bs) o xs r h =
      let e : o + length (b ∷ bs) ≡ suc o + length bs = omega arith in
      rw e (drop-skip bs (suc o) xs r (drop-suc o xs b (bs ++ r) h))

  pub drop_all : (n : ℕ) (xs : List A) → length xs ≤ n → drop n xs ≡ []
  drop_all zero [] h = refl
  drop_all zero (x ∷ xs) h = absurd (omega arith)
  drop_all (suc n) [] h = refl
  drop_all (suc n) (x ∷ xs) h = drop_all n xs (omega arith)

  pub take_all : (n : ℕ) (xs : List A) → length xs ≡ n → take n xs ≡ xs
  take_all zero [] h = refl
  take_all zero (x ∷ xs) h = absurd (omega arith)
  take_all (suc n) [] h = refl
  take_all (suc n) (x ∷ xs) h = ap (◌∷◌ x) (take_all n xs (omega arith))
