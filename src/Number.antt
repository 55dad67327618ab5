-- ===== src/Number.antt =====
-- `std::stoi` and the `strtol` below it, as HES/src/mqtt.cpp, HES/src/pull.cpp and HES/src/server.cpp
-- use them. Texts are byte strings in the C locale.
use atlascode.Prelude.{
  ℕ, ◌+◌, ◌*◌, ◌-◌, ◌^◌, Bool, ◌&&◌, ◌||◌, [], ◌∷◌, Option, none, some, Bytes, ltb, leb, ◌==◌,
  if◌then◌else◌, ◌>>=◌,
}
use atlascode.Prelude.Signed.{ℤ, pos, negsuc}

abbrev is_space : ℕ → Bool
is_space c = c == 32 || (leb 9 c && leb c 13)

skip_space : Bytes → Bytes
skip_space [] = []
skip_space (c ∷ s) = if is_space c then skip_space s else c ∷ s

-- The value of a character as a digit of any base up to 36.
any_digit : ℕ → Option ℕ
any_digit c =
    if leb 48 c && leb c 57
    then some (c - 48)
    else if leb 65 c && leb c 90
    then some (c - 55)
    else if leb 97 c && leb c 122
    then some (c - 87)
    else none

digit_value : ℕ → ℕ → Option ℕ
unfolding any_digit
digit_value base c = do d ← any_digit c; if ltb d base then some d else none

-- The digits that follow, up to the first other character.
digits : ℕ → ℕ → Bytes → ℕ
unfolding digit_value
digits base acc [] = acc
digits base acc (c ∷ s) = elim (digit_value base c) [
  | none ↦ acc
  | some d ↦ digits base (acc * base + d) s
]

magnitude : ℕ → Bytes → Option ℕ
unfolding digits
magnitude base [] = none
magnitude base (c ∷ s) = do d ← digit_value base c; some (digits base d s)

-- `0x` is skipped in base 16 where a digit follows it.
skip_prefix : ℕ → Bytes → Bytes
unfolding digit_value
skip_prefix base (z ∷ x ∷ c ∷ s) =
    if base == 16 && z == b'0' && (x == b'x' || x == b'X')
    then elim (digit_value 16 c) [ none ↦ z ∷ x ∷ c ∷ s | some _ ↦ c ∷ s ]
    else z ∷ x ∷ c ∷ s
skip_prefix base s = s

abbrev negate : ℕ → ℤ
negate n = if n == 0 then pos 0 else negsuc (n - 1)

with_sign : ℕ → Bytes → Option ℤ
unfolding magnitude skip_prefix
with_sign base [] = none
with_sign base (c ∷ s) =
    if c == b'-'
    then (do n ← magnitude base (skip_prefix base s); some (negate n))
    else (do n ← magnitude base (skip_prefix base (if c == b'+' then s else c ∷ s)); some (pos n))

-- The number that a text begins with; `none` if there is none.
unfoldable pub strtol : ℕ → Bytes → Option ℤ
unfolding skip_space with_sign
strtol base s = with_sign base (skip_space s)

abbrev is_int : ℤ → Bool
is_int (pos n) = ltb n (2 ^ 31)
is_int (negsuc n) = ltb n (2 ^ 31)

-- `none` is `std::invalid_argument` or `std::out_of_range`.
unfoldable pub stoi : ℕ → Bytes → Option ℤ
unfolding strtol
stoi base s = do z ← strtol base s; if is_int z then some z else none
