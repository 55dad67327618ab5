-- ===== src/Engine/Answer.antt =====
-- `client_process_data` of HES/src/client.cpp, whole: the packet behind the switch of Engine is the answer
-- to a request on demand. What the scalar profiles keep of an answer is not part of the state.
use atlascode.Prelude.{
  ℕ, zero, suc, ◌+◌, ◌-◌, ◌*◌, ◌%◌, Bool, not, ◌&&◌, ◌||◌, [], ◌∷◌, Option, none, some, Bytes, ltb,
  leb, ◌==◌, if◌then◌else◌, ◌>>=◌, get_or, take, drop,
}
use atlascode.Checksum.{total}
use atlascode.Link.{Arrived, Link}
use atlascode.Link.PacketType.{PacketType, at, process_packet_type}
use atlascode.Ondemand.Values.{Clock}
use atlascode.Ondemand.Profiles.{ProfileData, parse_profile}
use atlascode.Ondemand.Events.{parse_events_profile}
use atlascode.Ondemand.SingleObis.{handle_single_obis_read}
use atlascode.Engine.{
  ProcessCode, success, failure, invalid_response, failed_response, succes_next_page,
  push_data_received, Client, Switch, return, leave, pull_answer,
}

-- `ret` of `processPacketType`
unfoldable pub of_packet_type : PacketType → ProcessCode
of_packet_type PacketType.timeout_received = ProcessCode.timeout_received
of_packet_type PacketType.dlms_checksum_error = ProcessCode.dlms_checksum_error
of_packet_type PacketType.dlms_connection_failed = ProcessCode.dlms_connection_failed
of_packet_type PacketType.dlms_success = ProcessCode.dlms_success
of_packet_type PacketType.dlms_error = ProcessCode.dlms_error
of_packet_type PacketType.command_in_progress = ProcessCode.command_in_progress
of_packet_type PacketType.pmesh_error = ProcessCode.pmesh_error
of_packet_type PacketType.success = success
of_packet_type PacketType.invalid_response = invalid_response
of_packet_type PacketType.failure = failure

-- `memchr`: the place of a byte among the first `n`.
unfoldable pub memchr : ℕ → ℕ → Bytes → Option ℕ
memchr b zero bs = none
memchr b (suc n) [] = none
memchr b (suc n) (c ∷ bs) = if c == b then some 0 else (do i ← memchr b n bs; some (suc i))

-- The DLMS answer from its start byte on fills the rest of the packet, `left` bytes, and its last byte
-- is the sum of the others.
unfoldable pub dlms_length : Bytes → ℕ
dlms_length dlms_data = get_or dlms_data 1 0 * 256 + get_or dlms_data 2 0

unfoldable pub is_whole : Bytes → ℕ → Bool
unfolding dlms_length
is_whole dlms_data left =
    (leb (dlms_length dlms_data + 1) left
      && total (take (dlms_length dlms_data) dlms_data) % 256
        == get_or dlms_data (dlms_length dlms_data) 0)
    && dlms_length dlms_data + 1 == left

unfoldable pub next_page_or_success : Arrived → ProcessCode
next_page_or_success p = if ltb 0 (at p 24) then succes_next_page else success

unfoldable pub kept :
    Arrived → (ProfileData → Client) → Option ProfileData → Option (ProcessCode × Client)
unfolding next_page_or_success
kept p f none = none
kept p f (some m) = some (next_page_or_success p, f m)

unfoldable pub scalar_answer : Arrived → Client → ProcessCode × Client
unfolding next_page_or_success
scalar_answer p c =
    if at p 22 == 1 || at p 22 == 2 || at p 22 == 3 || at p 22 == 4
    then (next_page_or_success p, c)
    else (invalid_response, c)

unfoldable pub counted_packets : Arrived → Client → Client
counted_packets p c = record c {
  remaining_pkt_cnt = if not (at p 15 == 0) && at p 24 == 1 then at p 15 else c.remaining_pkt_cnt;
}

-- MESH_COMMISSION_PACKET_RESPONSE
unfoldable pub commission_answer : Arrived → ProcessCode
commission_answer p =
    if at p 18 == 1 && at p 17 == 0x9D
    then success
    else if at p 18 == 0 && at p 17 == 0x9D
    then success
    else if at p 17 == 0x9B && at p 18 == 0
    then success
    else if at p 18 == 1
    then failed_response
    else failure

module _ {Tm : Type 0} (clock : Clock Tm) where
  -- The switch on the command of a profile.
  unfoldable pub profile_answer : Arrived → Bytes → Client → Option (ProcessCode × Client)
  unfolding dlms_length kept parse_profile parse_events_profile next_page_or_success
  profile_answer p dlms_data c =
      let n = dlms_length dlms_data in
      let command = get_or dlms_data 5 0 in
      if get_or dlms_data 8 0 == 0
      then some (invalid_response, c)
      else if command == 0
      then kept p (λ m. record c { name_plate = m }) (parse_profile clock dlms_data n c.name_plate)
      else if command == 1
      then kept p (λ m. record c { ip = m }) (parse_profile clock dlms_data n c.ip)
      else if command == 3
      then kept p (λ m. record c { dlp = m }) (parse_profile clock dlms_data n c.dlp)
      else if command == 4
      then kept p (λ m. record c { blp = m }) (parse_profile clock dlms_data n c.blp)
      else if command == 2
      then kept p (λ m. record c { bh = m }) (parse_profile clock dlms_data n c.bh)
      else if command == 8
      then (do
        es ← parse_events_profile clock dlms_data n c.events
        some (next_page_or_success p, record c { events = es }))
      else some (invalid_response, c)

  unfoldable pub obis_answer : Arrived → Client → ProcessCode × Client
  unfolding handle_single_obis_read
  obis_answer p c =
      let r = handle_single_obis_read clock (drop 17 p.rx_buf) c.single_obis_data in
      (if r.0 then success else invalid_response, record c { single_obis_data = r.1 })

  -- An answer from its start byte on. The frame of a profile is looked for there, the others where the
  -- mesh header ends.
  unfoldable pub dlms_answer : Arrived → Bytes → ℕ → Client → Option (ProcessCode × Client)
  unfolding is_whole profile_answer obis_answer scalar_answer
  dlms_answer p dlms_data left c =
      if not (is_whole dlms_data left)
      then some (invalid_response, c)
      else if get_or dlms_data 4 0 == 0x0E
      then profile_answer p dlms_data c
      else if at p 21 == 0x0F
      then some (obis_answer p c)
      else if at p 21 == 0x0A
      then some (scalar_answer p c)
      else some (invalid_response, c)

  -- MESH_DATA_RESPONSE
  unfoldable pub data_answer : Arrived → Client → Option (ProcessCode × Client)
  unfolding counted_packets memchr dlms_answer
  data_answer p c = elim (memchr 0x2D (p.length - 17) (drop 17 p.rx_buf)) [
    | none ↦ some (invalid_response, counted_packets p c)
    | some dlms_offset ↦
        dlms_answer p (drop (17 + dlms_offset) p.rx_buf) (p.length - 17 - dlms_offset)
          (counted_packets p c)
  ]

  -- Behind the switch; 0x0E answers a ping.
  unfoldable pub other_answer : Arrived → Client → Option (ProcessCode × Client)
  unfolding data_answer commission_answer
  other_answer p c =
      if at p 2 == 0x0E
      then some (success, c)
      else if ltb p.length 17
      then some (invalid_response, c)
      else if not (c.tx_page_index == at p 20)
      then some (invalid_response, c)
      else if at p 2 == 8
      then data_answer p c
      else if at p 2 == 4
      then some (commission_answer p, c)
      else some (failure, c)

  unfoldable pub behind_switch : Arrived → Client → Switch → Option (ProcessCode × Client)
  unfolding other_answer
  behind_switch p c (return r c') = some (r, c')
  behind_switch p c leave = other_answer p c

  unfoldable pub answer_state : ℕ → Arrived → Client → Option (ProcessCode × Client)
  unfolding behind_switch pull_answer other_answer
  answer_state now p c =
      if c.pulls
      then (do r ← pull_answer now c.link.current_state p c; behind_switch p c r)
      else other_answer p c

  unfoldable pub typed_answer :
      ℕ → Arrived → PacketType × Link → Client → Option (ProcessCode × Client)
  unfolding answer_state of_packet_type
  typed_answer now p (PacketType.success, l) c = answer_state now p (record c { link = l })
  typed_answer now p (t, l) c = some (of_packet_type t, record c { link = l })

  -- `now` is the time at which a page is kept. What push data do besides is in Push.
  unfoldable pub client_process_data : ℕ → Arrived → Client → Option (ProcessCode × Client)
  unfolding process_packet_type typed_answer
  client_process_data now p c =
      if (ltb 17 p.length && at p 0 == 0x2E) && at p 17 == 0x2C
      then some (push_data_received, c)
      else typed_answer now p (process_packet_type p c.link) c
