-- ===== src/Checksum.antt =====
-- `calculate_checksum` of HES/src/push.cpp and HES/src/pull.cpp, the same text in both.
use atlascode.Prelude.{
  ℕ, zero, suc, ◌+◌, ◌%◌, ◌<◌, ◌≤◌, ◌≡◌, refl, [], ◌∷◌, Option, none, some, Bytes, arith, ◌>>=◌,
  length, take,
}

-- The loop: `sum` is a `uint16_t`. `none` is a read behind the end of the memory that holds `buff`.
unfoldable pub checksum_loop : ℕ → ℕ → Bytes → Option ℕ
checksum_loop zero sum buff = some sum
checksum_loop (suc len) sum [] = none
checksum_loop (suc len) sum (b ∷ buff) = checksum_loop len ((sum + b) % 65536) buff

unfoldable pub calculate_checksum : Bytes → ℕ → Option ℕ
unfolding checksum_loop
calculate_checksum buff len = do sum ← checksum_loop len 0 buff; some (sum % 256)

-- The sum of a byte string, without wrapping.
abbrev pub total : Bytes → ℕ
total [] = 0
total (b ∷ bs) = b + total bs

checksum_loop_lem :
    (len sum : ℕ) (buff : Bytes)
    → len ≤ length buff
    → (r : ℕ) × (checksum_loop len sum buff ≡ some r)
      × (r % 256 ≡ (sum + total (take len buff)) % 256)
unfolding checksum_loop
checksum_loop_lem zero sum buff h = (sum, refl, omega arith)
checksum_loop_lem (suc len) sum [] h = absurd (omega arith)
checksum_loop_lem (suc len) sum (b ∷ buff) h =
    let (r, e, c) = checksum_loop_lem len ((sum + b) % 65536) buff (omega arith) in
    (r, e, omega arith)

-- On a range inside the memory the checksum is the sum of its bytes modulo 256: the wrapping of the
-- 16-bit accumulator does not show.
pub calculate_checksum_lem :
    (buff : Bytes) (len : ℕ)
    → len ≤ length buff
    → calculate_checksum buff len ≡ some (total (take len buff) % 256)
unfolding calculate_checksum
calculate_checksum_lem buff len h =
    let (r, e, c) = checksum_loop_lem len 0 buff h in rw (e, c) (ground arith)

checksum_loop_fault :
    (len sum : ℕ) (buff : Bytes) → length buff < len → checksum_loop len sum buff ≡ none
unfolding checksum_loop
checksum_loop_fault zero sum buff h = elim h [ ]
checksum_loop_fault (suc len) sum [] h = refl
checksum_loop_fault (suc len) sum (b ∷ buff) h =
    checksum_loop_fault len ((sum + b) % 65536) buff (omega arith)

-- A length that goes past the memory makes the loop read out of bounds.
pub calculate_checksum_fault :
    (buff : Bytes) (len : ℕ) → length buff < len → calculate_checksum buff len ≡ none
unfolding calculate_checksum
calculate_checksum_fault buff len h = rw (checksum_loop_fault len 0 buff h) refl
