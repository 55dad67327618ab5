-- ===== src/Ondemand/Buffer.antt =====
-- Writes into a packet in memory, and reads and writes at a known place of it.
use atlascode.Prelude.{
  ℕ, zero, suc, ◌≡◌, refl, ap, [], ◌∷◌, ◌++◌, Option, none, some, Bytes, ◌>>=◌, get_elem?, length,
  arith, bind-eq-some,
}

-- `buf[i] = x`; `none` is a write behind the packet.
unfoldable pub write_at : ℕ → ℕ → Bytes → Option Bytes
write_at i x [] = none
write_at zero x (b ∷ bs) = some (x ∷ bs)
write_at (suc i) x (b ∷ bs) = do bs' ← write_at i x bs; some (b ∷ bs')

-- The write at the place behind a prefix.
pub write_at-append :
    (xs ys : Bytes) (i b x : ℕ) → length xs ≡ i → write_at i x (xs ++ b ∷ ys) ≡ some (xs ++ x ∷ ys)
unfolding write_at
write_at-append [] ys zero b x h = refl
write_at-append [] ys (suc i) b x h = absurd (omega arith)
write_at-append (a ∷ xs) ys zero b x h = absurd (omega arith)
write_at-append (a ∷ xs) ys (suc i) b x h = rw (write_at-append xs ys i b x (omega arith)) refl

-- The read at the place behind a prefix, and in the prefix.
pub get_elem?-behind :
    (xs ys : Bytes) (i b : ℕ) → length xs ≡ i → get_elem? (xs ++ b ∷ ys) i ≡ some b
get_elem?-behind [] ys zero b h = refl
get_elem?-behind [] ys (suc i) b h = absurd (omega arith)
get_elem?-behind (a ∷ xs) ys zero b h = absurd (omega arith)
get_elem?-behind (a ∷ xs) ys (suc i) b h = get_elem?-behind xs ys i b (omega arith)

pub get_elem?-prefix :
    (xs ys : Bytes) (i b : ℕ) → get_elem? xs i ≡ some b → get_elem? (xs ++ ys) i ≡ some b
get_elem?-prefix [] ys i b h = absurd (ground arith)
get_elem?-prefix (a ∷ xs) ys zero b h = h
get_elem?-prefix (a ∷ xs) ys (suc i) b h = get_elem?-prefix xs ys i b h

-- A write into a prefix does not see what follows it.
pub write_at-prefix :
    (i x : ℕ) (xs xs' ys : Bytes)
    → write_at i x xs ≡ some xs'
    → write_at i x (xs ++ ys) ≡ some (xs' ++ ys)
unfolding write_at
write_at-prefix i x [] xs' ys h = absurd (ground arith)
write_at-prefix zero x (b ∷ xs) xs' ys h =
    ap (λ (zs : Option Bytes). zs >>= (λ v. some (v ++ ys))) h
write_at-prefix (suc i) x (b ∷ xs) xs' ys h =
    let (zs, e, k) = bind-eq-some (write_at i x xs) (λ v. some (b ∷ v)) h in
    rw (write_at-prefix i x xs zs ys e) (ap (λ (o : Option Bytes). o >>= (λ v. some (v ++ ys))) k)
