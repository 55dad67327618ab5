-- ===== src/Prelude/Assoc.antt =====
-- A `std::map` as a list of pairs with one pair for each key.
use mathlib.Core.Path.{◌≡◌, refl}
use mathlib.Core.Bool.{Bool, true, false}
use mathlib.Core.List.{List, [], ◌∷◌}
use mathlib.Core.Option.{Option, none, some}
use native.Mathlib.Omega.{arith}
use atlascode.Prelude.Tests.{if◌then◌else◌}

-- Equality of keys, as the client decides it.
pub record Key {ℓ} (K : Type ℓ) : Type ℓ where
  pub same : K → K → Bool
  pub same_sound : (a b : K) → same a b ≡ true → a ≡ b
  pub same_refl : (a : K) → same a a ≡ true

module _ {ℓ κ} {K : Type ℓ} {V : Type κ} ⦃k : Key K⦄ where
  unfoldable pub find : List (K × V) → K → Option V
  find [] a = none
  find ((b, v) ∷ m) a = if k.same b a then some v else find m a

  -- `m[a] = v`
  unfoldable pub insert : List (K × V) → K → V → List (K × V)
  insert [] a v = (a, v) ∷ []
  insert ((b, w) ∷ m) a v = if k.same b a then (b, v) ∷ m else (b, w) ∷ insert m a v

  -- `erase(a)`: every pair with this key goes.
  unfoldable pub erase : List (K × V) → K → List (K × V)
  erase [] a = []
  erase ((b, w) ∷ m) a = if k.same b a then erase m a else (b, w) ∷ erase m a

  pub find-insert_self : (m : List (K × V)) (a : K) (v : V) → find (insert m a v) a ≡ some v
  unfolding find insert
  find-insert_self [] a v = ground (arith, k.same_refl a)
  find-insert_self ((b, w) ∷ m) a v = ground (arith, find-insert_self m a v)

  pub find-insert_other :
      (m : List (K × V)) (a b : K) (v : V) → k.same a b ≡ false → find (insert m a v) b ≡ find m b
  unfolding find insert
  find-insert_other [] a b v h = ground arith
  find-insert_other ((c, w) ∷ m) a b v h =
      ground (arith, find-insert_other m a b v h, k.same_sound c a)

  pub find-erase_self : (m : List (K × V)) (a : K) → find (erase m a) a ≡ none
  unfolding find erase
  find-erase_self [] a = refl
  find-erase_self ((b, w) ∷ m) a = ground (arith, find-erase_self m a)

  pub find-erase_other :
      (m : List (K × V)) (a b : K) → k.same a b ≡ false → find (erase m a) b ≡ find m b
  unfolding find erase
  find-erase_other [] a b h = refl
  find-erase_other ((c, w) ∷ m) a b h = ground (arith, find-erase_other m a b h, k.same_sound c a)
