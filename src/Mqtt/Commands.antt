-- ===== src/Mqtt/Commands.antt =====
-- `MQTTClient::Validate_command` of HES/src/mqtt.cpp, over the download data types of HES/inc/client.h.
pub mod Laws
use atlascode.Prelude.{
  ℕ, Bool, true, false, not, ◌&&◌, ◌||◌, List, [], Option, none, some, Bytes, ltb, ◌==◌,
  if◌then◌else◌, ◌>>=◌, get_or, length,
}
use atlascode.Prelude.Signed.{to_u8}
use atlascode.Number.{stoi}
use atlascode.Hex.{hex_to_bytes}

-- `command != a && sub_command != b`
abbrev pub both_differ : ℕ → ℕ → ℕ → ℕ → Bool
both_differ command a sub_command b = not (command == a) && not (sub_command == b)

-- The switch: is the command accepted for the download data type?
unfoldable pub command_matches : ℕ → ℕ → ℕ → ℕ → Bool
command_matches t command sub_command packet_type =
    -- nameplate, instantaneous, billing history, daily load, block load
    if t == 0 || t == 1 || t == 2 || t == 3 || t == 4
    then command == t
    -- events: all, voltage, current, power, transactional, other, non-roll-over, control
    else if t == 5
    then not (both_differ command 0x08 sub_command 0x00)
    else if t == 6
    then not (both_differ command 0x08 sub_command 0x01)
    else if t == 7
    then not (both_differ command 0x08 sub_command 0x02)
    else if t == 8
    then not (both_differ command 0x08 sub_command 0x03)
    else if t == 9
    then not (both_differ command 0x08 sub_command 0x04)
    else if t == 10
    then not (both_differ command 0x08 sub_command 0x05)
    else if t == 11
    then not (both_differ command 0x08 sub_command 0x06)
    else if t == 12
    then not (both_differ command 0x08 sub_command 0x07)
    -- ping node
    else if t == 13
    then packet_type == 0x0D
    -- clock: read, write
    else if t == 15
    then not (both_differ command 0x00 sub_command 0x02)
    else if t == 16
    then not (both_differ command 0x01 sub_command 0x02)
    -- demand integration period and capture period: read, write
    else if t == 17 || t == 19
    then not (both_differ command 0x00 sub_command 0x01)
    else if t == 18 || t == 20
    then not (both_differ command 0x01 sub_command 0x01)
    -- load limit: read, write
    else if t == 21
    then not (both_differ command 0x00 sub_command 0x08)
    else if t == 22
    then not (both_differ command 0x01 sub_command 0x08)
    -- load status read, ping meter
    else if t == 23 || t == 14
    then not (both_differ command 0x00 sub_command 0x09)
    -- load status write
    else if t == 24
    then not (both_differ command 0x01 sub_command 0x09)
    -- action scheduler read
    else if t == 25
    then not (both_differ command 0x01 sub_command 0x07)
    else false

-- Part 4 is the download data type and part 5 the command; the caller has seen to it that they exist.
unfoldable pub validate_command : List Bytes → Option Bool
unfolding command_matches
validate_command parts = do
  t ← stoi 10 (get_or parts 4 [])
  decoded ← hex_to_bytes (get_or parts 5 [])
  elim decoded [
    | none ↦ some false
    | some cmd_bytes ↦ some (
        if ltb (length cmd_bytes) 8
        then false
        else command_matches (to_u8 t) (get_or cmd_bytes 4 0) (get_or cmd_bytes 5 0)
            (get_or cmd_bytes 2 0))
  ]
