-- ===== src/Tests/Texts.antt =====
-- Texts: addresses, paths, pieces.
use atlascode.Prelude.{
  ℕ, ◌%◌, ◌≡◌, ◌≢◌, refl, true, false, List, [], ◌∷◌, ◌++◌, none, some, Bytes, codes, length, take,
  arith,
}
use atlascode.Prelude.Signed.{pos}
use atlascode.Hex.{
  convert_bytes_to_asc_hex_string, hex_to_bytes, mac_to_hex, mac_from_hex, extract_path,
}
use atlascode.Hex.RoundTrip.{
  AreBytes, Hop, AreHops, path_text, own_addresses, hex_to_bytes-convert, mac_from_hex-mac_to_hex,
  extract_path-path_text,
}
use atlascode.Split.{explode, split, join}
use atlascode.Split.Laws.{IsSplit, explode-IsSplit, explode-join, drop_empty_end, split-explode}
use atlascode.Checksum.{calculate_checksum, total, calculate_checksum_lem}

abbrev mac : Bytes
mac = 60 ∷ 193 ∷ 246 ∷ 1 ∷ 171 ∷ 0 ∷ 9 ∷ 255 ∷ []

mac-AreBytes : AreBytes mac
mac-AreBytes = ground arith

mac_to_hex_run : mac_to_hex mac ≡ codes "3CC1F601AB0009FF"
unfolding mac_to_hex
mac_to_hex_run = refl

mac_and_rest_read :
    (hex_to_bytes (convert_bytes_to_asc_hex_string mac) ≡ some (some mac))
    × (length (codes "3CC") % 2 ≡ 1 → hex_to_bytes (codes "3CC") ≡ some none)
mac_and_rest_read = hex_to_bytes-convert mac (codes "3CC") mac-AreBytes

mac_read_back : mac_from_hex (mac_to_hex mac ++ codes ":00") ≡ some mac
mac_read_back = mac_from_hex-mac_to_hex mac (codes ":00") refl mac-AreBytes

abbrev hops : List Hop
hops =
    record { shared = 60 ∷ 193 ∷ 246 ∷ 1 ∷ []; own = 1 ∷ 2 ∷ 3 ∷ 4 ∷ [] }
    ∷ record { shared = 60 ∷ 193 ∷ 246 ∷ 1 ∷ []; own = 5 ∷ 6 ∷ 7 ∷ 8 ∷ [] }
    ∷ []

hops-AreHops : AreHops hops
hops-AreHops = ground arith

hops_of_path :
    (extract_path (path_text hops) (pos 2) ≡ some (true, own_addresses hops))
    × (◌≢◌ {A = ℕ} 3 2 → extract_path (path_text hops) (pos 3) ≡ some (false, []))
hops_of_path = extract_path-path_text hops 3 hops-AreHops

colons_and_fields : IsSplit b':' (codes "a::b:") (explode (codes "a::b:") b':')
colons_and_fields = explode-IsSplit (codes "a::b:") b':'

text_taken_apart :
    explode (join b':' (codes "a" ∷ [] ∷ codes "b" ∷ [])) b':' ≡ codes "a" ∷ [] ∷ codes "b" ∷ []
text_taken_apart = explode-join b':' (codes "a") ([] ∷ codes "b" ∷ []) (ground arith)

split_pieces : split (codes "a::b:") b':' ≡ drop_empty_end (explode (codes "a::b:") b':')
split_pieces = split-explode (codes "a::b:") b':'

split_run : split (codes "a::b:") b':' ≡ codes "a" ∷ [] ∷ codes "b" ∷ []
unfolding split
split_run = refl

checksum_of_mac : calculate_checksum mac 8 ≡ some (total (take 8 mac) % 256)
checksum_of_mac = calculate_checksum_lem mac 8 (omega arith)
