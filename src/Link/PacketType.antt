-- ===== src/Link/PacketType.antt =====
-- The kind of a packet: `processPacketType` of HES/src/client.cpp, behind the checks of Link.Validation.
use atlascode.Prelude.{
  ℕ, ◌-◌, ◌≡◌, ◌≢◌, refl, Bool, true, false, ◌||◌, ◌&&◌, Bytes, ◌==◌, if◌then◌else◌, get_or,
}
use atlascode.Link.{Arrived, Link}
use atlascode.Link.Validation.{is_framed, validate_source_address, is_valid_packet}
use atlascode.Link.Laws.{IsReply, is_valid_packet-disarms}

-- The codes that it returns.
pub data PacketType : Type 0 where
  timeout_received dlms_checksum_error dlms_connection_failed dlms_success dlms_error : PacketType
  command_in_progress pmesh_error success invalid_response failure : PacketType

-- The check of the source, where it is still due.
unfoldable pub checked_source : Bytes → Link → PacketType × Link
unfolding validate_source_address
checked_source rx_buf l =
    if l.need_to_validate_src_addr
    then (
      if validate_source_address rx_buf l then success else invalid_response,
      record l { need_to_validate_src_addr = false },
    )
    else (success, l)

-- The byte at an index, and that many bytes before the end of the packet, which has four at least.
abbrev pub at : Arrived → ℕ → ℕ
at p i = get_or p.rx_buf i 0

abbrev pub from_end : Arrived → ℕ → ℕ
from_end p i = at p (p.length - i)

-- The answer to a command of the mesh, with its last byte.
unfoldable pub mesh_answer : Arrived → ℕ → Bool
mesh_answer p status = (at p 2 == 7 || at p 2 == 3) && from_end p 1 == status

-- An error of a meter: type 8, with the code in the last byte but one.
unfoldable pub meter_error : Arrived → ℕ → Bool
meter_error p code = at p 2 == 8 && from_end p 3 == 1 && from_end p 2 == code && from_end p 4 == 14

-- The answer to the connection of a meter, with either of two states.
unfoldable pub connection : Arrived → ℕ → ℕ → Bool
connection p a b = at p 2 == 8 && (at p 23 == 2 && (at p 24 == a || at p 24 == b)) && at p 21 == 0

-- The branches from the general answers of the mesh on.
unfoldable pub other_type : Arrived → Link → PacketType × Link
unfolding is_framed checked_source
other_type p l =
    if at p 2 == 7 || at p 2 == 13 || at p 2 == 3
    then (pmesh_error, l)
    else if is_framed p && (at p 2 == 8 || at p 2 == 14)
    then checked_source p.rx_buf l
    else if at p 2 == 4 && at p 0 == 46
    then checked_source p.rx_buf l
    else (failure, l)

unfoldable pub process_packet_type : Arrived → Link → PacketType × Link
unfolding mesh_answer meter_error connection other_type
process_packet_type p l =
    if mesh_answer p 6
    then (timeout_received, l)
    else if meter_error p 41
    then (dlms_checksum_error, l)
    else if meter_error p 37
    then (dlms_connection_failed, l)
    else if connection p 0 2
    then (dlms_success, l)
    else if connection p 1 3
    then (dlms_connection_failed, l)
    else if at p 2 == 8 && at p 24 == 14
    then (dlms_error, l)
    else if mesh_answer p 7
    then (command_in_progress, l)
    else other_type p l

checked_source-disarmed :
    (rx_buf : Bytes) (l : Link)
    → l.need_to_validate_src_addr ≡ false
    → checked_source rx_buf l ≡ (success, l)
unfolding checked_source
checked_source-disarmed rx_buf l e = rw e refl

-- The link is as it was, and the source was not found wrong.
record IsSettled (l : Link) (r : PacketType × Link) : Type 0 where
  same : r.1 ≡ l
  taken : r.0 ≢ invalid_response

module _ (p : Arrived) (l : Link) (disarmed : l.need_to_validate_src_addr ≡ false) where
  settled : (t : PacketType) → t ≢ invalid_response → IsSettled l (t, l)
  settled t d = record { same = refl; taken = d }

  checked-IsSettled : IsSettled l (checked_source p.rx_buf l)
  checked-IsSettled = rw (checked_source-disarmed p.rx_buf l disarmed) (settled success (λ d. cc))

  -- One of the branches of the chain, before those that follow.
  branch :
      (b : Bool) {x y : PacketType × Link}
      → IsSettled l x
      → IsSettled l y
      → IsSettled l (if b then x else y)
  branch true h k = h
  branch false h k = k

  other_type-IsSettled : IsSettled l (other_type p l)
  unfolding other_type
  other_type-IsSettled =
      branch (at p 2 == 7 || at p 2 == 13 || at p 2 == 3) (settled pmesh_error (λ d. cc)) (
        branch (is_framed p && (at p 2 == 8 || at p 2 == 14)) checked-IsSettled
          (branch (at p 2 == 4 && at p 0 == 46) checked-IsSettled (settled failure (λ d. cc))))

  process_packet_type-IsSettled : IsSettled l (process_packet_type p l)
  unfolding process_packet_type
  process_packet_type-IsSettled = branch (mesh_answer p 6) (settled timeout_received (λ d. cc)) (
      branch (meter_error p 41) (settled dlms_checksum_error (λ d. cc)) (
        branch (meter_error p 37) (settled dlms_connection_failed (λ d. cc)) (
          branch (connection p 0 2) (settled dlms_success (λ d. cc)) (
            branch (connection p 1 3) (settled dlms_connection_failed (λ d. cc)) (
              branch (at p 2 == 8 && at p 24 == 14) (settled dlms_error (λ d. cc)) (
                branch (mesh_answer p 7) (settled command_in_progress (λ d. cc))
                  other_type-IsSettled))))))

-- The source of a reply is checked once: behind `is_valid_packet`, `processPacketType` never finds it
-- wrong, and leaves the client as it is.
pub source_checked_once :
    (p : Arrived) (l : Link)
    → IsReply p
    → (let m = (is_valid_packet p l).1 in
        ((process_packet_type p m).1 ≡ m) × ((process_packet_type p m).0 ≢ invalid_response))
source_checked_once p l h =
    let m = (is_valid_packet p l).1 in
    let s = process_packet_type-IsSettled p m (is_valid_packet-disarms p l h) in (s.same, s.taken)
