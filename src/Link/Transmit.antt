-- ===== src/Link/Transmit.antt =====
-- The transmission of a command over a path: `frame_pmesh_command_packet`,
-- `transmit_command_and_validate_response` and `transmit_command_on_path_pmesh` of HES/src/client.cpp,
-- with `PathInfo` of HES/inc/pull.h.
pub mod Laws
pub mod Outcome
pub mod Reply
pub mod OnPath
use atlascode.Prelude.{
  ℕ, zero, suc, ◌%◌, Bool, true, false, not, ◌||◌, ◌&&◌, List, [], ◌∷◌, ◌++◌, Bytes, if◌then◌else◌,
  length, drop,
}
use atlascode.Prelude.Signed.{ℤ, to_u8}
use atlascode.Link.{
  Code, success, failure, enabled, next_page_present, dlms_connection_failed, dlms_error,
  dlms_success, command_in_progress, invalid_src_addr, push_data_received, other, Arrival, silence,
  hang_up, receive_error, block, Link, write_to_client_vector,
}
use atlascode.Link.Validation.{receive_block}

pub record PathInfo : Type 0 where
  pub hop_count : ℤ
  pub path : Bytes

-- Behind the length byte.
unfoldable pub pmesh_body : ℕ → PathInfo → Bytes → Link → Bytes
unfolding to_u8
pmesh_body packet_type path_info cmd l =
    packet_type ∷ l.panid
    ++ drop 4 l.serial_number
    ++ 0 ∷ to_u8 path_info.hop_count ∷ path_info.path
    ++ cmd

-- The length byte counts the packet without its start byte.
unfoldable pub frame_pmesh_command_packet : ℕ → PathInfo → Bytes → Link → Bytes
unfolding pmesh_body
frame_pmesh_command_packet packet_type path_info cmd l =
    46
    ∷ suc (length (pmesh_body packet_type path_info cmd l)) % 256
    ∷ pmesh_body packet_type path_info cmd l

-- What the answer to a block makes of the attempt.
pub data Verdict : Type 0 where
  expected same_attempt next_attempt : Verdict

unfoldable pub judge : Code → Verdict
judge success = expected
judge enabled = expected
judge next_page_present = expected
judge dlms_connection_failed = expected
judge dlms_error = expected
judge dlms_success = expected
judge command_in_progress = same_attempt
judge invalid_src_addr = same_attempt
judge push_data_received = same_attempt
judge failure = next_attempt
judge other = next_attempt

-- The next response is checked for its source again.
unfoldable pub rearm : Code → Link → Link
rearm invalid_src_addr l = record l { need_to_validate_src_addr = true }
rearm _ l = l

-- The end without an answer: a gateway that sent nothing counts as disconnected.
unfoldable pub give_up : Bool → Link → Code × Link
give_up got l = (failure, if got then l else record l { gateway_status = false })

unfoldable pub write_if : Bool → Bytes → Link → Bool × Link
write_if need buff l = if need then write_to_client_vector buff l else (true, l)

-- No call of `recv` brings anything any more: with the attempts left.
unfoldable pub silent_loop : Bytes → ℕ → Bool → Bool → Link → Code × Link
unfolding give_up write_if
silent_loop buff zero need got l = give_up got l
silent_loop buff (suc retries) need got l =
    let (sent, l') = write_if need buff l in
    elim (sent && l'.gateway_status) [
      | true ↦ silent_loop buff retries true got l'
      | false ↦ give_up got l'
    ]

-- What a call of `recv` comes to: the end of the loop, or an answer to judge.
pub data Round : Type 0 where
  stopped waited : Link → Round
  answered : Code → Link → Round

unfoldable pub receive : Arrival → Link → Round
unfolding receive_block
receive (silence duplicate) l = if not l.gateway_status || duplicate then stopped l else waited l
receive hang_up l = stopped (record l { gateway_status = false })
receive receive_error l = stopped (record l { gateway_status = false })
receive (block ps) l = let (ret, l') = receive_block ps l in answered ret l'

-- The write of a round, where one is due, and its receive.
unfoldable pub attempt : Bool → Bytes → Arrival → List Arrival → Link → Round × List Arrival
unfolding receive write_if
attempt need buff a arrivals l =
    let (sent, l') = write_if need buff l in
    if sent then (receive a l', arrivals) else (stopped l', a ∷ arrivals)

-- How a round goes on, with the attempts left behind it; `loop` continues with the attempts left,
-- `need_to_write` and `got_any_response`.
module _ (loop : ℕ → Bool → Bool → Link → Code × Link) (retries : ℕ) where
  unfoldable pub conclude : Verdict → Code → List Arrival → Link → Code × Link
  unfolding rearm
  conclude expected ret left l = (ret, record l { arrivals = left })
  conclude same_attempt ret left l = loop (suc retries) false true (rearm ret l)
  conclude next_attempt ret left l = loop retries true true l

  unfoldable pub settle : Bool → Round → List Arrival → Code × Link
  unfolding give_up judge conclude
  settle got (stopped l) left = give_up got (record l { arrivals = left })
  settle got (waited l) left = loop retries true got l
  settle got (answered ret l) left = conclude (judge ret) ret left l

-- The loop with what the calls of `recv` bring.
unfoldable pub transmit_loop : Bytes → List Arrival → ℕ → Bool → Bool → Link → Code × Link
unfolding silent_loop attempt settle
transmit_loop buff [] retries need got l =
    silent_loop buff retries need got (record l { arrivals = [] })
transmit_loop buff (a ∷ arrivals) zero need got l =
    give_up got (record l { arrivals = a ∷ arrivals })
transmit_loop buff (a ∷ arrivals) (suc retries) need got l =
    settle (transmit_loop buff arrivals) retries got (attempt need buff a arrivals l).0
      (attempt need buff a arrivals l).1

-- Without attempts nothing is sent, and the gateway's status stays.
unfoldable pub transmit_command_and_validate_response : Bytes → ℕ → Link → Code × Link
unfolding transmit_loop
transmit_command_and_validate_response buff zero l = (failure, l)
transmit_command_and_validate_response buff (suc retries) l =
    transmit_loop buff l.arrivals (suc retries) true false l

unfoldable pub transmit_command_on_path_pmesh : ℕ → Bytes → PathInfo → ℕ → Link → Code × Link
unfolding transmit_command_and_validate_response frame_pmesh_command_packet
transmit_command_on_path_pmesh packet_type cmd path timeout_retries l =
    transmit_command_and_validate_response (frame_pmesh_command_packet packet_type path cmd l)
      timeout_retries l
