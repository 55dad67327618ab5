-- ===== src/Hex/RoundTrip.antt =====
-- Printing bytes and reading them back.
use atlascode.Prelude.{
  ℕ, zero, suc, ◌*◌, ◌%◌, ◌<◌, ◌≡◌, refl, Bool, true, false, ◌&&◌, List, [], ◌∷◌, ◌++◌, Option,
  none, some, Bytes, arith, ◌==◌, ==_iff, Bool-cases, inl, inr, length, take-append, drop-append,
  length-append, ◌≢◌,
}
use atlascode.Prelude.Signed.{pos}
use atlascode.Hex.{
  print_byte, convert_bytes_to_asc_hex_string, read_byte, hex_pairs, hex_to_bytes, mac_to_hex,
  mac_from_hex_loop, mac_from_hex, extract_path_loop, extract_path,
}

-- Every element is a byte.
abbrev pub AreBytes : Bytes → Type 0
AreBytes [] = Unit {0}
AreBytes (b ∷ bs) = (b < 256) × AreBytes bs

abbrev is_some_of : Option ℕ → ℕ → Bool
is_some_of none b = false
is_some_of (some c) b = c == b

is_some_of_sound : (o : Option ℕ) (b : ℕ) → is_some_of o b ≡ true → o ≡ some b
is_some_of_sound none b h = ground arith
is_some_of_sound (some c) b h = ground (arith, ==_iff c b)

-- The bytes below a bound, each printed and read back.
unfoldable reads_back : ℕ → Bool
unfolding read_byte print_byte
reads_back zero = true
reads_back (suc bound) = is_some_of (read_byte (print_byte bound)) bound && reads_back bound

reads_back_below :
    (b bound : ℕ) → b < bound → reads_back bound ≡ true → read_byte (print_byte b) ≡ some b
unfolding reads_back
reads_back_below b zero h e = elim h [ ]
reads_back_below b (suc bound) h e = elim (Bool-cases (b == bound)) [
  | inl here ↦
      let same : b ≡ bound = ground arith in
      rw same (is_some_of_sound (read_byte (print_byte bound)) bound (ground arith))
  | inr below ↦ reads_back_below b bound (ground arith) (ground arith)
]

all_read_back : reads_back 256 ≡ true
unfolding reads_back
all_read_back = refl

pub read_byte-print_byte : (b : ℕ) → b < 256 → read_byte (print_byte b) ≡ some b
read_byte-print_byte b h = reads_back_below b 256 h all_read_back

pub hex_pairs-convert :
    (bs : Bytes) → AreBytes bs → hex_pairs (convert_bytes_to_asc_hex_string bs) ≡ some bs
unfolding hex_pairs convert_bytes_to_asc_hex_string print_byte
hex_pairs-convert [] h = refl
hex_pairs-convert (b ∷ bs) h = rw (read_byte-print_byte b h.0, hex_pairs-convert bs h.1) refl

pub length-convert : (bs : Bytes) → length (convert_bytes_to_asc_hex_string bs) ≡ 2 * length bs
unfolding convert_bytes_to_asc_hex_string print_byte
length-convert [] = omega arith
length-convert (b ∷ bs) = omega (arith, length-convert bs)

-- Text printed from bytes below 256 is decoded to the same bytes, and any text of odd length is
-- refused.
pub hex_to_bytes-convert :
    (bs : Bytes) (s : Bytes)
    → AreBytes bs
    → (hex_to_bytes (convert_bytes_to_asc_hex_string bs) ≡ some (some bs))
      × (length s % 2 ≡ 1 → hex_to_bytes s ≡ some none)
unfolding hex_to_bytes
hex_to_bytes-convert bs s h =
    let even : length (convert_bytes_to_asc_hex_string bs) % 2 ≡ 0 =
      omega (arith, length-convert bs) in
    (rw (even, hex_pairs-convert bs h) refl, λ e. rw e refl)

mac_from_hex_loop-convert :
    (n : ℕ) (bs rest : Bytes)
    → length bs ≡ n
    → AreBytes bs
    → mac_from_hex_loop n (convert_bytes_to_asc_hex_string bs ++ rest) ≡ some bs
unfolding mac_from_hex_loop convert_bytes_to_asc_hex_string print_byte
mac_from_hex_loop-convert zero [] rest e h = refl
mac_from_hex_loop-convert zero (b ∷ bs) rest e h = absurd (omega arith)
mac_from_hex_loop-convert (suc n) [] rest e h = absurd (omega arith)
mac_from_hex_loop-convert (suc n) (b ∷ bs) rest e h =
    rw (read_byte-print_byte b h.0, mac_from_hex_loop-convert n bs rest (omega arith) h.1) refl

-- An address of eight bytes below 256 that is printed and read again is the same address, whatever
-- text follows it.
pub mac_from_hex-mac_to_hex :
    (mac rest : Bytes)
    → length mac ≡ 8
    → AreBytes mac
    → mac_from_hex (mac_to_hex mac ++ rest) ≡ some mac
unfolding mac_from_hex mac_to_hex
mac_from_hex-mac_to_hex mac rest e h = mac_from_hex_loop-convert 8 mac rest e h

-- A hop of a stored path: the four bytes that all addresses share, and the four that differ.
pub record Hop : Type 0 where
  pub shared : Bytes
  pub own : Bytes

abbrev pub AreHops : List Hop → Type 0
AreHops [] = Unit {0}
AreHops (h ∷ hs) = (length h.shared ≡ 4) × (length h.own ≡ 4) × AreBytes h.own × AreHops hs

abbrev pub path_text : List Hop → Bytes
path_text [] = []
path_text (h ∷ hs) =
    convert_bytes_to_asc_hex_string h.shared
    ++ (convert_bytes_to_asc_hex_string h.own ++ path_text hs)

abbrev pub own_addresses : List Hop → Bytes
own_addresses [] = []
own_addresses (h ∷ hs) = h.own ++ own_addresses hs

extract_path_loop-path_text :
    (hs : List Hop)
    → AreHops hs
    → extract_path_loop (2 * length hs) false (path_text hs) ≡ some (own_addresses hs)
unfolding extract_path_loop
extract_path_loop-path_text [] h = refl
extract_path_loop-path_text (x ∷ hs) h =
    let twice : 2 * length (x ∷ hs) ≡ suc (suc (2 * length hs)) = omega arith in
    rw
      (
        twice,
        drop-append 8 (convert_bytes_to_asc_hex_string x.shared) _
            (omega (arith, length-convert x.shared)),
        take-append 8 (convert_bytes_to_asc_hex_string x.own) (path_text hs)
            (omega (arith, length-convert x.own)),
        drop-append 8 (convert_bytes_to_asc_hex_string x.own) (path_text hs)
            (omega (arith, length-convert x.own)),
        hex_pairs-convert x.own h.2,
        extract_path_loop-path_text hs h.3,
      )
      refl

length-path_text : (hs : List Hop) → AreHops hs → length (path_text hs) ≡ length hs * 16
length-path_text [] h = omega arith
length-path_text (x ∷ hs) h = omega (
  arith,
  length-append (convert_bytes_to_asc_hex_string x.shared)
      (convert_bytes_to_asc_hex_string x.own ++ path_text hs),
  length-append (convert_bytes_to_asc_hex_string x.own) (path_text hs),
  length-convert x.shared,
  length-convert x.own,
  length-path_text hs h.3,
)

-- The text of a path of hops, each four shared bytes and four of its own, is reduced to the own
-- bytes of each hop, in order; with any other hop count from 0 on the text is refused and the path
-- is empty.
pub extract_path-path_text :
    (hs : List Hop) (n : ℕ)
    → AreHops hs
    → (extract_path (path_text hs) (pos (length hs)) ≡ some (true, own_addresses hs))
      × (n ≢ length hs → extract_path (path_text hs) (pos n) ≡ some (false, []))
unfolding extract_path
extract_path-path_text hs n h = (
  ground (arith, length-path_text hs h, extract_path_loop-path_text hs h),
  λ e. ground (arith, length-path_text hs h),
)
