-- ===== src/Ondemand/Request/Steps.antt =====
-- The loop of `Process_ODM_request`, HES/src/client.cpp: what each answer makes of the request.
use atlascode.Prelude.{
  ℕ, zero, suc, ◌+◌, ◌-◌, ◌*◌, ◌%◌, Bool, true, false, not, ◌&&◌, ◌∷◌, Option, some, Bytes, ltb,
  ◌==◌, if◌then◌else◌, ◌>>=◌, get_or, length,
}
use atlascode.Ondemand.Frame.{recalculate_dlms_checksum, next_frame}
use atlascode.Ondemand.Request.{
  success_status, retry_in_progress, failed_rf_timeout, failed_no_gw_response, dlms_failed,
  failed_pmesh_error, request_status, ping_request, Answer, Odm, Locals, Flow, again, stop, log,
  forget_source, disconnect, write_to_client, receive_data_and_validate_response, resend_packet,
  handle_success, handle_connection_failed,
}

-- `ret == SUCCESS`
unfoldable pub on_success : Bytes → Bool → Locals → Odm → Option Flow
unfolding handle_success
on_success rx stored l s = do
  handled ← handle_success l.buf rx stored
  some (if handled then stop (record s { retry = 1 }) else again l (record s { retry = 1 }))

-- A failure of the mesh; 13 is `PING_NODE`.
unfoldable pub on_pmesh_error : ℕ → Odm → Flow
unfolding log
on_pmesh_error download_data_type s =
    if download_data_type == 13
    then stop (log (ping_request failed_pmesh_error) s)
    else stop (log (request_status failed_pmesh_error 0) s)

-- The third failure in a row ends the request.
unfoldable pub give_up : Odm → Flow
unfolding log
give_up s = stop (record (log (request_status failed_rf_timeout 0) s) { retry = 1 })

unfoldable pub on_timeout : Locals → Odm → Flow
unfolding give_up resend_packet
on_timeout l s =
    if s.retry == 3
    then give_up s
    else resend_packet (record l { once = false })
        (record s {
          retry = (s.retry + 1) % 256;
          updates = if l.once then request_status retry_in_progress 0 ∷ s.updates else s.updates;
        })

unfoldable pub on_connection_failed : Locals → Odm → Flow
unfolding give_up handle_connection_failed
on_connection_failed l s =
    if s.retry == 3
    then give_up s
    else if (handle_connection_failed s).0
    then again l (handle_connection_failed s).1
    else stop (handle_connection_failed s).1

-- The code of the error stands before the last byte.
unfoldable pub dlms_error_code : Bytes → ℕ
dlms_error_code rx = get_or rx (length rx - 3) 0 * 256 + get_or rx (length rx - 2) 0

unfoldable pub on_poll_timeout : ℕ → Locals → Odm → Flow
unfolding log forget_source disconnect resend_packet
on_poll_timeout download_data_type l s =
    if download_data_type == 13
    then stop (log (ping_request failed_no_gw_response) s)
    else if ltb l.poll_retry 3
    then resend_packet (record l { poll_retry = l.poll_retry + 1 }) s
    else stop (
        forget_source
          (log (request_status failed_no_gw_response 0) (disconnect (not l.invalid_resp) s)))

-- The page index is counted once the request for the page is sent.
unfoldable pub on_next_page : ℕ → Locals → Odm → Option Flow
unfolding next_frame resend_packet
on_next_page download_data_type l s = do
  buf ← next_frame download_data_type l.page_index l.buf
  some (
      resend_packet (record l { buf = buf; page_index = (l.page_index + 1) % 256; poll_retry = 1 })
        (record s { retry = 1; tx_page_index = (s.tx_page_index + 1) % 256 }))

-- The repaired packet goes out before the retries are compared.
unfoldable pub repaired : Locals → Bool × Odm → Flow
unfolding log forget_source
repaired l w =
    if not w.0
    then stop (forget_source (log (request_status failed_pmesh_error 0) w.1))
    else if ltb 3 l.dlms_checksum_error_retry
    then stop (log (request_status dlms_failed 0) w.1)
    else again l w.1

unfoldable pub on_checksum_error : Locals → Odm → Option Flow
unfolding recalculate_dlms_checksum write_to_client repaired
on_checksum_error l s = do
  buf ← recalculate_dlms_checksum l.buf
  some (
      repaired
        (record l {
          buf = buf;
          dlms_checksum_error_retry = (l.dlms_checksum_error_retry + 1) % 256;
        })
        (write_to_client buf s))

unfoldable pub on_answer : ℕ → Answer → Locals → Odm → Option Flow
unfolding on_success on_pmesh_error on_timeout on_connection_failed dlms_error_code on_poll_timeout
    on_next_page on_checksum_error
on_answer t (Answer.success rx stored) l s = on_success rx stored l s
on_answer t Answer.dlms_success l s = some (resend_packet l s)
on_answer t Answer.pmesh_error l s = some (on_pmesh_error t s)
on_answer t Answer.timeout_received l s = some (on_timeout l s)
on_answer t Answer.dlms_connection_failed l s = some (on_connection_failed l s)
on_answer t Answer.failed_pmesh_error l s =
    some (stop (forget_source (log (request_status failed_pmesh_error 0) s)))
on_answer t (Answer.dlms_error rx) l s =
    some (stop (forget_source (log (request_status success_status (dlms_error_code rx)) s)))
on_answer t (Answer.poll_timeout gone) l s = some (on_poll_timeout t l (disconnect gone s))
on_answer t Answer.succes_next_page l s = on_next_page t l s
on_answer t Answer.invalid_response l s = some (again (record l { invalid_resp = true }) s)
on_answer t Answer.command_in_progress l s = some (again (record l { invalid_resp = true }) s)
on_answer t Answer.dlms_checksum_error l s = on_checksum_error l s
on_answer t Answer.other l s = some (again l s)

-- A turn of the loop.
unfoldable pub turn : ℕ → Locals → Odm → Option Flow
unfolding receive_data_and_validate_response on_answer
turn download_data_type l s =
    let r = receive_data_and_validate_response s in on_answer download_data_type r.0 l r.1

-- At most `fuel` turns: `again` where that is too few.
unfoldable pub odm_loop : ℕ → ℕ → Locals → Odm → Option Flow
unfolding turn
odm_loop zero t l s = some (again l s)
odm_loop (suc fuel) t l s = do
  flow ← turn t l s
  elim flow [ again l' s' ↦ odm_loop fuel t l' s' | stop s' ↦ some (stop s') ]

abbrev pub first_locals : Bytes → Locals
first_locals buf = record {
  buf = buf;
  page_index = 1;
  poll_retry = 1;
  once = true;
  invalid_resp = false;
  dlms_checksum_error_retry = 1;
}

-- The last word of a request that writes, without its checksum.
unfoldable pub keep_tail : Bytes → ℕ → Odm → Odm
keep_tail buf download_data_type s = record s {
  pp_write_payload_tail =
      if not (ltb (length buf) 5) && ltb 0x0F download_data_type
      then ((get_or buf (length buf - 5) 0 * 256 + get_or buf (length buf - 4) 0) * 256
            + get_or buf (length buf - 3) 0)
          * 256
        + get_or buf (length buf - 2) 0
      else s.pp_write_payload_tail;
}

-- Behind the first write.
unfoldable pub answers_loop : ℕ → ℕ → Bytes → Bool × Odm → Option Flow
unfolding keep_tail odm_loop
answers_loop fuel t buf (false, s) = some (stop s)
answers_loop fuel t buf (true, s) = odm_loop fuel t (first_locals buf) (keep_tail buf t s)

unfoldable pub process_odm_request : ℕ → Bytes → ℕ → Odm → Option Flow
unfolding write_to_client answers_loop
process_odm_request fuel buf download_data_type s =
    answers_loop fuel download_data_type buf (write_to_client buf (record s { tx_page_index = 0 }))
