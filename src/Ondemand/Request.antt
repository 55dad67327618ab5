-- ===== src/Ondemand/Request.antt =====
-- `Process_ODM_request` of HES/src/client.cpp with `handle_success`, `handle_next_page` and
-- `handle_connection_failed`. What `receive_data_and_validate_response` returns, call by call, is part
-- of the state; what a receive does to the link besides is in Link.Validation. Times and the timeout of
-- the socket are left out, and so is `DB_parameter`, which is for the database.
pub mod Steps
pub mod Laws
use atlascode.Prelude.{
  ℕ, zero, suc, ◌+◌, ◌-◌, ◌*◌, ◌%◌, Bool, true, false, not, ◌&&◌, List, [], ◌∷◌, ◌++◌, Option, none,
  some, Bytes, ltb, ◌==◌, if◌then◌else◌, ◌>>=◌, get_elem?, get_or, length,
}
use atlascode.Link.{Link, write_to_client_vector}

-- Of the status codes of a request those that are written here.
pub data RequestStatus : Type 0 where
  success_status retry_in_progress failed_rf_timeout failed_no_gw_response : RequestStatus
  dlms_failed failed_pmesh_error : RequestStatus

-- `Update_dlms_on_demand_request_status` with an error code, and `Update_Insert_Ping_request`.
pub data Update : Type 0 where
  request_status : RequestStatus → ℕ → Update
  ping_request : RequestStatus → Update

-- An answer, with `client_rx_buffer` where the request reads it. For a success also what
-- `update_odm_db` returns if it is called; for a timeout whether the connection is lost. `other` stands
-- for the codes that the request does not name.
pub data Answer : Type 0 where
  success : Bytes → Bool → Answer
  dlms_success pmesh_error timeout_received dlms_connection_failed failed_pmesh_error : Answer
  dlms_error : Bytes → Answer
  poll_timeout : Bool → Answer
  succes_next_page invalid_response command_in_progress dlms_checksum_error other : Answer

-- `updates` are the calls on the database, the last one first.
pub record Odm : Type 0 where
  pub link : Link
  pub retry : ℕ
  pub tx_page_index : ℕ
  pub pp_write_payload_tail : ℕ
  pub pmesh_header : Bytes
  pub answers : List Answer
  pub updates : List Update

-- The variables of the function.
pub record Locals : Type 0 where
  pub buf : Bytes
  pub page_index : ℕ
  pub poll_retry : ℕ
  pub once : Bool
  pub invalid_resp : Bool
  pub dlms_checksum_error_retry : ℕ

pub data Flow : Type 0 where
  again : Locals → Odm → Flow
  stop : Odm → Flow

unfoldable pub log : Update → Odm → Odm
log u s = record s { updates = u ∷ s.updates }

-- `memset(this->src_addr_check_buffer, 0, ...)`
unfoldable pub forget_source : Odm → Odm
forget_source s = record s { link = record s.link { src_addr_check_buffer = 0 ∷ 0 ∷ 0 ∷ 0 ∷ [] } }

unfoldable pub disconnect : Bool → Odm → Odm
disconnect gone s = record s {
  link = record s.link { gateway_status = s.link.gateway_status && not gone };
}

-- The text of `write_to_client` is that of `write_to_client_vector`, with other logging and no pause.
unfoldable pub write_to_client : Bytes → Odm → Bool × Odm
write_to_client buf s = (
  (write_to_client_vector buf s.link).0,
  record s { link = (write_to_client_vector buf s.link).1 },
)

-- When the list is at its end, nothing comes any more.
unfoldable pub receive_from : List Answer → Odm → Answer × Odm
receive_from [] s = (poll_timeout false, s)
receive_from (a ∷ answers) s = (a, record s { answers = answers })

unfoldable pub receive_data_and_validate_response : Odm → Answer × Odm
unfolding receive_from
receive_data_and_validate_response s = receive_from s.answers s

-- `resend_packet`; where it fails, the request is left.
unfoldable pub resend_packet : Locals → Odm → Flow
unfolding write_to_client
resend_packet l s =
    if (write_to_client l.buf s).0
    then again l (write_to_client l.buf s).1
    else stop (write_to_client l.buf s).1

-- `none` is a read behind the packet. The receive buffer has room, and zeros behind what came.
unfoldable pub validate_response_frame : Bytes → Bytes → Option Bool
validate_response_frame buf rx = do
  frame_id ← get_elem? buf 20
  if frame_id == 14
      then (do
        command ← get_elem? buf 21
        if not (get_or rx 22 0 == command)
            then some false
            else if command == 8
            then (do sub_command ← get_elem? buf 22; some (get_or rx 23 0 == sub_command))
            else some true)
      else if frame_id == 15
      then (do
        sub_command ← get_elem? buf 22
        if get_or rx 23 0 == sub_command
            then some true
            else (do command ← get_elem? buf 21; some (get_or rx 22 0 == command)))
      else some true

-- The answer to a ping is not compared. `stored` is what `update_odm_db` returns.
unfoldable pub handle_success : Bytes → Bytes → Bool → Option Bool
unfolding validate_response_frame
handle_success buf rx stored = do
  packet_type ← get_elem? buf 2
  if packet_type == 14
      then some stored
      else (do valid ← validate_response_frame buf rx; some (valid && stored))

unfoldable pub dlms_enable : Bytes
dlms_enable = 0x2B ∷ 0x07 ∷ 0x00 ∷ 0x00 ∷ 0x00 ∷ 0x02 ∷ 0x01 ∷ 0x35 ∷ []

-- What an answer makes of the loop of `handle_connection_failed`.
unfoldable pub connect_answer : (Odm → Bool × Odm) → Answer → Odm → Bool × Odm
unfolding disconnect
connect_answer loop dlms_success s = (true, record s { retry = 1 })
connect_answer loop (poll_timeout gone) s = loop (disconnect gone s)
connect_answer loop _ s = loop s

unfoldable pub connect_round : (Odm → Bool × Odm) → Bool × Odm → Bool × Odm
unfolding connect_answer receive_data_and_validate_response
connect_round loop (false, s) = (false, s)
connect_round loop (true, s) =
    connect_answer loop (receive_data_and_validate_response s).0
      (receive_data_and_validate_response s).1

-- With the rounds that `retry` leaves.
unfoldable pub connect_loop : ℕ → Odm → Bool × Odm
unfolding connect_round write_to_client log
connect_loop zero s = (false, log (request_status dlms_failed 0) s)
connect_loop (suc rounds) s =
    connect_round (connect_loop rounds)
      (write_to_client s.pmesh_header (record s { retry = s.retry + 1 }))

unfoldable pub handle_connection_failed : Odm → Bool × Odm
unfolding dlms_enable connect_loop
handle_connection_failed s =
    connect_loop (3 - s.retry) (record s { pmesh_header = s.pmesh_header ++ dlms_enable })
