-- ===== src/Mqtt/Commands/Laws.antt =====
-- What `Validate_command` accepts.
use atlascode.Prelude.{
  ℕ, zero, suc, ◌+◌, ◌-◌, ◌≤◌, ◌<◌, ◌≡◌, ◌≢◌, inl, inr, refl, Bool, true, false, ◌||◌, List, [],
  Option, none, some, Bytes, codes, arith, ltb, ◌==◌, if◌then◌else◌, get_or, length, bytes_eq,
  bytes_eq_sound, Bool-cases, bind-eq-some,
}
use atlascode.Prelude.Signed.{ℤ, pos, to_u8}
use atlascode.Number.{stoi}
use atlascode.Hex.{hex_to_bytes}
use atlascode.Mqtt.Commands.{command_matches, validate_command}

events :
    (k command sub_command packet_type : ℕ)
    → k ≤ 7
    → command_matches (5 + k) command sub_command packet_type ≡ (command == 8 || sub_command == k)
unfolding command_matches
events zero command sub_command packet_type h = ground arith
events (suc zero) command sub_command packet_type h = ground arith
events (suc (suc zero)) command sub_command packet_type h = ground arith
events (suc (suc (suc zero))) command sub_command packet_type h = ground arith
events (suc (suc (suc (suc zero)))) command sub_command packet_type h = ground arith
events (suc (suc (suc (suc (suc zero))))) command sub_command packet_type h = ground arith
events (suc (suc (suc (suc (suc (suc zero)))))) command sub_command packet_type h = ground arith
events (suc (suc (suc (suc (suc (suc (suc zero))))))) command sub_command packet_type h =
    ground arith
events (suc (suc (suc (suc (suc (suc (suc (suc k)))))))) command sub_command packet_type h =
    absurd (omega arith)

-- For the event types 5 to 12 a command is accepted exactly if it is command 8 or has the sub-
-- command of the type: one of the two is enough.
pub command_matches_events :
    (t command sub_command packet_type : ℕ)
    → 5 ≤ t
    → t ≤ 12
    → command_matches t command sub_command packet_type ≡ (command == 8 || sub_command == t - 5)
command_matches_events t command sub_command packet_type low high =
    let same : 5 + (t - 5) ≡ t = omega arith in
    rw same at (events (t - 5) command sub_command packet_type (omega arith))

above : (t m : ℕ) → m < t → (t == m) ≡ false
above t m h = ground arith

command_matches_above :
    (t command sub_command packet_type : ℕ)
    → 26 ≤ t
    → command_matches t command sub_command packet_type ≡ false
unfolding command_matches
command_matches_above t command sub_command packet_type h =
    let no : (m : ℕ) → m ≤ 25 → (t == m) ≡ false = λ m q. above t m (omega arith) in
    rw
      (
        no 0 (omega arith),
        no 1 (omega arith),
        no 2 (omega arith),
        no 3 (omega arith),
        no 4 (omega arith),
        no 5 (omega arith),
        no 6 (omega arith),
        no 7 (omega arith),
        no 8 (omega arith),
        no 9 (omega arith),
        no 10 (omega arith),
        no 11 (omega arith),
        no 12 (omega arith),
        no 13 (omega arith),
        no 14 (omega arith),
        no 15 (omega arith),
        no 16 (omega arith),
        no 17 (omega arith),
        no 18 (omega arith),
        no 19 (omega arith),
        no 20 (omega arith),
        no 21 (omega arith),
        no 22 (omega arith),
        no 23 (omega arith),
        no 24 (omega arith),
        no 25 (omega arith),
      )
      refl

validate_command_above :
    (parts : List Bytes) (z : ℤ)
    → stoi 10 (get_or parts 4 []) ≡ some z
    → 26 ≤ to_u8 z
    → validate_command parts ≢ some true
unfolding validate_command
validate_command_above parts z e h valid =
    let (z', e', rest) = bind-eq-some (stoi 10 (get_or parts 4 [])) _ valid in
    let (decoded, _, last) = bind-eq-some (hex_to_bytes (get_or parts 5 [])) _ rest in
    let same : z' ≡ z = ground arith in finish decoded z' (rw same h) last
  where
    finish :
        (decoded : Option (List ℕ)) (z : ℤ)
        → 26 ≤ to_u8 z
        → ◌≡◌ {A = Option Bool}
            (elim decoded [
              | none ↦ some false
              | some cmd_bytes ↦ some (
                  if ltb (length cmd_bytes) 8
                  then false
                  else command_matches
                      (to_u8 z)
                      (get_or cmd_bytes 4 0)
                      (get_or cmd_bytes 5 0)
                      (get_or cmd_bytes 2 0))
            ])
            (some true)
        → ⊥
    finish none z h e = ground arith
    finish (some bs) z h e =
        ground
          (arith, command_matches_above (to_u8 z) (get_or bs 4 0) (get_or bs 5 0) (get_or bs 2 0) h)

twenty_seven : stoi 10 (codes "27") ≡ some (pos 27)
unfolding stoi
twenty_seven = refl

twenty_eight : stoi 10 (codes "28") ≡ some (pos 28)
unfolding stoi
twenty_eight = refl

-- A command of type 27 or 28 never passes.
pub validate_command_fuota :
    (parts : List Bytes)
    → (bytes_eq (get_or parts 4 []) (codes "27") || bytes_eq (get_or parts 4 []) (codes "28"))
      ≡ true
    → validate_command parts ≢ some true
unfolding to_u8
validate_command_fuota parts h = elim (Bool-cases (bytes_eq (get_or parts 4 []) (codes "27"))) [
  | inl e ↦
      let same = bytes_eq_sound (get_or parts 4 []) (codes "27") e in
      validate_command_above parts (pos 27) (rw same twenty_seven) (omega arith)
  | inr e ↦
      let e' : bytes_eq (get_or parts 4 []) (codes "28") ≡ true = rw e at h in
      let same = bytes_eq_sound (get_or parts 4 []) (codes "28") e' in
      validate_command_above parts (pos 28) (rw same twenty_eight) (omega arith)
]
