-- ===== src/Tests/Links.antt =====
-- The link to a gateway: frames, and commands with their answers.
use atlascode.Prelude.{
  Bytes, ℕ, ◌+◌, ◌≤◌, ◌≡◌, ◌≢◌, refl, true, false, List, [], ◌∷◌, length, bytes_eq,
}
use atlascode.Prelude.Signed.{pos}
use atlascode.Link.{
  write_to_client_vector, ClientCurrentState, Code, success, failure, command_in_progress,
  invalid_src_addr, push_data_received, other, Arrived, Arrival, silence, hang_up, block, Link,
}
use atlascode.Link.Frames.{
  IsFrame, frames-IsFrame, frame_dlms_nameplate_command_packet, frame_dlms_ip_command_packet,
  frame_dlms_dlp_command_packet, frame_dlms_blp_command_packet, frame_dlms_bhp_command_packet,
}
use atlascode.Link.Validation.{is_framed, is_valid_packet, validate_source_address, receive_block}
use atlascode.Link.PacketType.{
  PacketType, invalid_response, process_packet_type, source_checked_once,
}
use atlascode.Link.Transmit.Reply.{IsPush, before_reply, taken, transmit_replied}
use atlascode.Link.Laws.{IsReply, second_reply_refused}
use atlascode.Link.Transmit.{
  expected, judge, PathInfo, transmit_command_and_validate_response, transmit_command_on_path_pmesh,
}
use atlascode.Link.Transmit.OnPath.{on_path-writes}
use atlascode.Link.Transmit.Outcome.{
  IsFinal, transmit-IsFinal, IsLost, transmit_silence, nothing_yet, nothing_more,
}

-- A path of one hop.
abbrev pub hop : ℕ → PathInfo
hop n = record { hop_count = pos 1; path = n ∷ 0 ∷ 0 ∷ 1 ∷ [] }

-- A reply of the node behind a path, of 18 bytes.
abbrev pub reply : ℕ → Code → Arrived
reply n c = record {
  rx_buf = 46 ∷ 17 ∷ 8 ∷ 0 ∷ 0 ∷ 0 ∷ 0 ∷ 0 ∷ 0 ∷ 0 ∷ 0 ∷ n ∷ 0 ∷ 0 ∷ 1 ∷ 0 ∷ 0 ∷ 0 ∷ [];
  length = 18;
  answer = c;
}

abbrev pub replies : ℕ → Code → Arrival
replies n c = block (reply n c ∷ [])

abbrev pub link : List Arrival → Link
link arrivals = record {
  gateway_status = true;
  need_to_validate_src_addr = false;
  src_addr_check_buffer = 0 ∷ 0 ∷ 0 ∷ 0 ∷ [];
  current_state = ClientCurrentState.idle;
  rollback = false;
  panid = 1 ∷ 2 ∷ 3 ∷ 4 ∷ [];
  serial_number = 60 ∷ 193 ∷ 246 ∷ 1 ∷ 171 ∷ 0 ∷ 9 ∷ 255 ∷ [];
  written = [];
  sends = [];
  arrivals = arrivals;
}

-- The answer of a transmission over path 7, which gets these arrivals.
abbrev asked : List Arrival → Code
asked arrivals = (transmit_command_on_path_pmesh 7 (43 ∷ []) (hop 7) 3 (link arrivals)).0

reply_taken : asked (replies 7 success ∷ []) ≡ success
unfolding transmit_command_on_path_pmesh write_to_client_vector bytes_eq
reply_taken = refl

-- A reply of another node is passed over, and the next one of the right node is taken.
other_node : asked (replies 9 success ∷ replies 7 success ∷ []) ≡ success
unfolding transmit_command_on_path_pmesh write_to_client_vector bytes_eq
other_node = refl

-- The reply that follows a "command in progress" is lost; one more is taken.
after_progress : asked (replies 7 command_in_progress ∷ replies 7 success ∷ []) ≡ failure
unfolding transmit_command_on_path_pmesh write_to_client_vector bytes_eq
after_progress = refl

after_progress_again :
    asked (replies 7 command_in_progress ∷ replies 7 success ∷ replies 7 success ∷ []) ≡ success
unfolding transmit_command_on_path_pmesh write_to_client_vector bytes_eq
after_progress_again = refl

frames-IsFrame_example :
    IsFrame (frame_dlms_nameplate_command_packet 0)
    × IsFrame (frame_dlms_ip_command_packet (pos 3) 0)
    × IsFrame (frame_dlms_dlp_command_packet 820454400 820540799 0)
    × IsFrame (frame_dlms_blp_command_packet 820454400 820540799 0)
    × IsFrame (frame_dlms_bhp_command_packet 0)
frames-IsFrame_example = frames-IsFrame 0 820454400 820540799 (pos 3)

nameplate_frame : frame_dlms_nameplate_command_packet 2 ≡ 43 ∷ 7 ∷ 2 ∷ 14 ∷ 0 ∷ 0 ∷ 0 ∷ 66 ∷ []
unfolding frame_dlms_nameplate_command_packet
nameplate_frame = refl

reply-IsReply : (c : Code) → IsReply (reply 7 c)
unfolding is_framed
reply-IsReply c = record { framed = refl; unmarked = refl }

second_reply_refused_example :
    (receive_block
      (reply 7 success ∷ [])
      (receive_block (reply 7 command_in_progress ∷ []) (link [])).1).0
    ≡ invalid_src_addr
second_reply_refused_example =
    second_reply_refused (reply 7 command_in_progress) (reply 7 success) (link [])
      (reply-IsReply command_in_progress) (reply-IsReply success)

answer_of_another_kind :
    IsFinal (transmit_command_and_validate_response (46 ∷ 1 ∷ []) 3 (link (replies 7 other ∷ []))).0
answer_of_another_kind = transmit-IsFinal (46 ∷ 1 ∷ []) 3 (link (replies 7 other ∷ []))

transmit_silence_example :
    IsLost
      (transmit_command_and_validate_response (46 ∷ 1 ∷ []) 3 (link (silence false ∷ hang_up ∷ [])))
transmit_silence_example =
    transmit_silence (46 ∷ 1 ∷ []) 2 (link (silence false ∷ hang_up ∷ []))
      (nothing_yet false, (nothing_more, record {}))

on_path-writes_example :
    length
      (transmit_command_on_path_pmesh 7
        (43 ∷ [])
        (hop 7)
        3
        (link (replies 7 other ∷ replies 7 other ∷ []))).1.written
    ≤ 3 + 0
on_path-writes_example =
    on_path-writes 7 (43 ∷ []) (hop 7) 2 (link (replies 7 other ∷ replies 7 other ∷ []))

one_source_check :
    (let m = (is_valid_packet (reply 7 success) (link [])).1 in
      ((process_packet_type (reply 7 success) m).1 ≡ m)
      × ((process_packet_type (reply 7 success) m).0 ≢ invalid_response))
one_source_check = source_checked_once (reply 7 success) (link []) (reply-IsReply success)

-- The answer of the mesh that a command is in progress, which follows a reply in the same state.
in_progress_type :
    (process_packet_type
      (record { rx_buf = 46 ∷ 3 ∷ 7 ∷ 7 ∷ []; length = 4; answer = command_in_progress })
      (link [])).0
    ≡ PacketType.command_in_progress
unfolding process_packet_type
in_progress_type = refl

-- A packet of push data, in whatever state of its node.
abbrev push : Arrived
push = record {
  rx_buf = 46 ∷ 17 ∷ 8 ∷ 0 ∷ 0 ∷ 0 ∷ 0 ∷ 0 ∷ 0 ∷ 0 ∷ 0 ∷ 9 ∷ 0 ∷ 0 ∷ 1 ∷ 0 ∷ 0 ∷ 44 ∷ [];
  length = 18;
  answer = push_data_received;
}

-- A request to the node behind path 7.
abbrev to_7 : Bytes
to_7 = 46 ∷ 17 ∷ 7 ∷ 1 ∷ 2 ∷ 3 ∷ 4 ∷ 171 ∷ 0 ∷ 9 ∷ 255 ∷ 0 ∷ 1 ∷ 7 ∷ 0 ∷ 0 ∷ 1 ∷ 43 ∷ []

abbrev pushed_first : Link
pushed_first = link (before_reply (push ∷ push ∷ []) (reply 7 success) (hang_up ∷ []))

push-IsPush : IsPush push
unfolding is_framed
push-IsPush = record { framed = refl; marked = refl; pushed = refl }

to_7_sent :
    ((write_to_client_vector to_7 pushed_first).0 ≡ true)
    × ((write_to_client_vector to_7 pushed_first).1.need_to_validate_src_addr ≡ true)
    × (validate_source_address (reply 7 success).rx_buf (write_to_client_vector to_7 pushed_first).1
        ≡ true)
unfolding write_to_client_vector validate_source_address bytes_eq
to_7_sent = (refl, refl, refl)

success_expected : judge success ≡ expected
unfolding judge
success_expected = refl

transmit_replied_example :
    transmit_command_and_validate_response to_7 3 pushed_first
    ≡ taken (reply 7 success) (hang_up ∷ []) (write_to_client_vector to_7 pushed_first).1
transmit_replied_example =
    transmit_replied to_7 (push ∷ push ∷ []) (reply 7 success) (hang_up ∷ []) 2 pushed_first refl
      (push-IsPush, (push-IsPush, record {})) (reply-IsReply success) success_expected to_7_sent.0
      to_7_sent.1 to_7_sent.2
