-- ===== src/Hex.antt =====
-- HES/src/utility.cpp, HES/src/pull.cpp and HES/src/mqtt.cpp: bytes as hexadecimal text, both
-- ways. A `std::stoi` that throws is `none`.
pub mod RoundTrip
use atlascode.Prelude.{
  ℕ, Bool, true, false, zero, suc, ◌+◌, ◌*◌, ◌/◌, ◌%◌, List, [], ◌∷◌, ◌++◌, Option, none, some,
  Bytes, ltb, ◌==◌, if◌then◌else◌, ◌>>=◌, take, drop, length,
}
use atlascode.Prelude.Signed.{ℤ, pos, negsuc, to_u8}
use atlascode.Number.{stoi}

-- A digit of `%X`.
unfoldable pub upper_digit : ℕ → ℕ
upper_digit d = if ltb d 10 then d + 48 else d + 55

-- `%02X` of one byte.
unfoldable pub print_byte : ℕ → Bytes
unfolding upper_digit
print_byte b = upper_digit (b / 16) ∷ upper_digit (b % 16) ∷ []

-- `Utility::convert_bytes_to_asc_hex_string`, which ends the text with a NUL that is not shown here
unfoldable pub convert_bytes_to_asc_hex_string : Bytes → Bytes
unfolding print_byte
convert_bytes_to_asc_hex_string [] = []
convert_bytes_to_asc_hex_string (b ∷ bs) = print_byte b ++ convert_bytes_to_asc_hex_string bs

-- `Utility::bin_to_hex_upper`. The text and its NUL must fit `buf[64]`: `none` is a write past it.
unfoldable pub bin_to_hex_upper : Bytes → Option Bytes
unfolding convert_bytes_to_asc_hex_string
bin_to_hex_upper mac =
    if ltb (2 * length mac) 64 then some (convert_bytes_to_asc_hex_string mac) else none

-- `Utility::mac_to_string`
unfoldable pub mac_to_string : Bytes → Bytes
unfolding print_byte
mac_to_string [] = []
mac_to_string (b ∷ []) = print_byte b
mac_to_string (b ∷ c ∷ bs) = print_byte b ++ b':' ∷ mac_to_string (c ∷ bs)

-- One byte of text read in base 16 and cast to `uint8_t`.
unfoldable pub read_byte : Bytes → Option ℕ
unfolding stoi to_u8
read_byte s = do z ← stoi 16 s; some (to_u8 z)

-- The loop of `MQTTClient::hex_to_bytes` behind its test for an even length.
unfoldable pub hex_pairs : Bytes → Option Bytes
unfolding read_byte
hex_pairs [] = some []
hex_pairs (a ∷ []) = do b ← read_byte (a ∷ []); some (b ∷ [])
hex_pairs (a ∷ c ∷ s) = do b ← read_byte (a ∷ c ∷ []); bs ← hex_pairs s; some (b ∷ bs)

-- `MQTTClient::hex_to_bytes`: the inner option is the `bool` with `out`, the outer one an exception.
unfoldable pub hex_to_bytes : Bytes → Option (Option Bytes)
unfolding hex_pairs
hex_to_bytes s = if length s % 2 == 0 then (do bs ← hex_pairs s; some (some bs)) else some none

-- `PullData::mac_from_hex` with `n` bytes to go: `none` is an exception, or text that is too short.
unfoldable pub mac_from_hex_loop : ℕ → Bytes → Option Bytes
unfolding read_byte
mac_from_hex_loop zero s = some []
mac_from_hex_loop (suc n) [] = none
mac_from_hex_loop (suc n) (a ∷ []) = none
mac_from_hex_loop (suc n) (a ∷ c ∷ s) = do
  b ← read_byte (a ∷ c ∷ [])
  bs ← mac_from_hex_loop n s
  some (b ∷ bs)

unfoldable pub mac_from_hex : Bytes → Option Bytes
unfolding mac_from_hex_loop
mac_from_hex s = mac_from_hex_loop 8 s

-- `PullData::mac_to_hex`, its NUL left off
unfoldable pub mac_to_hex : Bytes → Bytes
unfolding convert_bytes_to_asc_hex_string
mac_to_hex mac = convert_bytes_to_asc_hex_string mac

-- The loop of `PullData::extract_path`: `n` pieces of eight characters are left, and `take` of the
-- source says whether this one is read or skipped.
unfoldable pub extract_path_loop : ℕ → Bool → Bytes → Option Bytes
unfolding hex_pairs
extract_path_loop zero taken s = some []
extract_path_loop (suc n) false s = extract_path_loop n true (drop 8 s)
extract_path_loop (suc n) true s = do
  here ← hex_pairs (take 8 s)
  rest ← extract_path_loop n false (drop 8 s)
  some (here ++ rest)

-- `PullData::extract_path`: the returned `bool` and `out`; `none` is an exception.
unfoldable pub extract_path : Bytes → ℤ → Option (Bool × Bytes)
unfolding extract_path_loop
extract_path s (negsuc _) = some (false, [])
extract_path s (pos hops) =
    if length s == hops * 16
    then (do out ← extract_path_loop (2 * hops) false s; some (true, out))
    else some (false, [])
