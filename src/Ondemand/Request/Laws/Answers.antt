-- ===== src/Ondemand/Request/Laws/Answers.antt =====
-- What each answer makes of a request of Ondemand.Request.Steps.
use atlascode.Prelude.{
  ℕ, zero, suc, ◌+◌, ◌*◌, ◌%◌, ◌≤◌, ◌<◌, ◌≡◌, refl, Bool, true, false, not, List, [], ◌∷◌, ◌++◌,
  some, Bytes, length, arith, ltb, sym, ap, ◌∙◌, get_elem?, get_or, get_elem?_in_bounds,
  returned-bind, returned-if, ◌==◌,
}
use mathlib.Core.Path.{subst⁻¹}
use atlascode.Ondemand.Frame.{recalculate_dlms_checksum, next_frame}
use atlascode.Ondemand.Frame.Packets.{
  packet, right_checksum, packet_long, recalculate_dlms_checksum-packet,
}
use atlascode.Ondemand.Frame.Laws.{next_frame-IsTurned}
use atlascode.Ondemand.Request.{
  validate_response_frame, handle_success, Answer, Odm, Locals, log, forget_source, disconnect,
  write_to_client, receive_data_and_validate_response, connect_loop, connect_answer, connect_round,
  receive_from, dlms_enable,
}
use atlascode.Ondemand.Request.Steps.{
  on_success, on_pmesh_error, give_up, on_timeout, on_poll_timeout, on_next_page, repaired,
  on_checksum_error,
}
use atlascode.Ondemand.Request.Laws.{
  Sent, connection, same_written-write_to_client, measure, IsSound, IsSoundFlow, continues, stops,
  IsSound-keep, Sent-write_to_client, branch, resend_packet-IsSoundFlow,
}

handle_success-returns :
    (buf rx : Bytes) (stored : Bool)
    → 23 ≤ length buf
    → (b : Bool) × (handle_success buf rx stored ≡ some b)
unfolding handle_success validate_response_frame
handle_success-returns buf rx stored long =
    let read = λ (i : ℕ) (h : i < length buf). get_elem?_in_bounds buf i h in
    returned-bind (get_elem? buf 2) _ (read 2 (omega arith)) (λ packet_type.
      returned-if (packet_type == 14) (stored, refl)
        (returned-bind (validate_response_frame buf rx) _
          (returned-bind (get_elem? buf 20) _ (read 20 (omega arith)) (λ frame_id.
            returned-if (frame_id == 14)
              (returned-bind (get_elem? buf 21) _ (read 21 (omega arith)) (λ command.
                returned-if (not (get_or rx 22 0 == command)) (false, refl)
                  (returned-if (command == 8)
                    (returned-bind (get_elem? buf 22) _ (read 22 (omega arith)) (λ sub. (_, refl)))
                    (true, refl))))
              (returned-if (frame_id == 15)
                (returned-bind (get_elem? buf 22) _ (read 22 (omega arith)) (λ sub.
                  returned-if (get_or rx 23 0 == sub) (true, refl)
                    (returned-bind (get_elem? buf 21) _ (read 21 (omega arith))
                      (λ command. (_, refl)))))
                (true, refl))))
          (λ valid. (_, refl))))

module _ (hop_count download_data_type : ℕ) (before : List Bytes) where
  module _ (l : Locals) (s : Odm) (m : ℕ) (h : IsSound hop_count download_data_type before l s)
      (k : 3 * length s.answers + 3 < m) where
    pub decreases : measure l s < m
    decreases = let p = h.polled in omega arith

    pub on_pmesh_error-IsSoundFlow :
        IsSoundFlow hop_count download_data_type before m
          (some (on_pmesh_error download_data_type s))
    unfolding on_pmesh_error log
    on_pmesh_error-IsSoundFlow =
        branch hop_count download_data_type before (download_data_type == 13) (λ e. stops h.sent)
          (λ e. stops h.sent)

    pub on_timeout-IsSoundFlow :
        IsSoundFlow hop_count download_data_type before m (some (on_timeout l s))
    unfolding on_timeout give_up log
    on_timeout-IsSoundFlow =
        branch hop_count download_data_type before (s.retry == 3) (λ e. stops h.sent)
          (λ e.
            resend_packet-IsSoundFlow hop_count download_data_type before m
              (IsSound-keep hop_count download_data_type before h refl refl h.polled h.polls
                (omega arith) h.sent)
              decreases)

    pub on_success-IsSoundFlow :
        (rx : Bytes) (stored : Bool)
        → IsSoundFlow hop_count download_data_type before m (on_success rx stored l s)
    unfolding on_success
    on_success-IsSoundFlow rx stored =
        let long =
          subst⁻¹ (λ b. 23 ≤ length b) h.checked
            (packet_long hop_count h.parts h.routed (right_checksum h.parts)) in
        let (b, e) = handle_success-returns l.buf rx stored long in
        rw (e, handle_success)
          (branch hop_count download_data_type before b (λ f. stops h.sent)
            (λ f.
              continues
                (IsSound-keep hop_count download_data_type before h refl refl h.polled h.polls
                  (omega arith) h.sent)
                decreases))

    pub on_next_page-IsSoundFlow :
        h.parts.page + 1 + length s.answers < 255
        → IsSoundFlow hop_count download_data_type before m (on_next_page download_data_type l s)
    unfolding on_next_page
    on_next_page-IsSoundFlow room =
        let small : h.parts.page < 256 = omega arith in
        let turned =
          next_frame-IsTurned hop_count h.parts h.routed small download_data_type h.ranged in
        let now = turned.asks in
        let p = now.asks in
        let i = h.index in
        let made : next_frame download_data_type l.page_index l.buf ≡ some turned.buf =
          ap (next_frame download_data_type l.page_index) h.checked
          ∙ ap (λ q. next_frame download_data_type q (packet h.parts (right_checksum h.parts))) i
          ∙ turned.made in
        rw (made, next_frame)
          (resend_packet-IsSoundFlow hop_count download_data_type before m
            (record {
              parts = now.parts;
              routed = now.routed;
              checked = now.checked;
              index = omega arith;
              room = omega arith;
              ranged = λ zero_page. absurd (omega arith);
              polled = omega arith;
              polls = omega arith;
              sent = h.sent;
            })
            (omega arith))

    pub on_checksum_error-IsSoundFlow :
        IsSoundFlow hop_count download_data_type before m (on_checksum_error l s)
    unfolding on_checksum_error repaired log forget_source write_to_client
    on_checksum_error-IsSoundFlow =
        let made : recalculate_dlms_checksum l.buf ≡ some l.buf =
          ap recalculate_dlms_checksum h.checked
          ∙ recalculate_dlms_checksum-packet hop_count h.parts h.routed (right_checksum h.parts)
          ∙ ap some (sym h.checked) in
        let written = Sent-write_to_client hop_count download_data_type before h in
        rw (made, recalculate_dlms_checksum)
          (branch hop_count download_data_type before (not (write_to_client l.buf s).0)
            (λ e. stops written)
            (λ e.
              branch hop_count download_data_type before
                (ltb 3 ((l.dlms_checksum_error_retry + 1) % 256)) (λ f. stops written)
                (λ f.
                  continues
                    (IsSound-keep hop_count download_data_type before h refl refl h.polled h.polls
                      (omega arith) written)
                    decreases)))

  pub on_poll_timeout-IsSoundFlow :
      (l : Locals) (s : Odm) (m : ℕ)
      → IsSound hop_count download_data_type before l s
      → measure l s ≤ m
      → IsSoundFlow hop_count download_data_type before m
          (some (on_poll_timeout download_data_type l s))
  unfolding on_poll_timeout log forget_source disconnect
  on_poll_timeout-IsSoundFlow l s m h k =
      branch hop_count download_data_type before (download_data_type == 13) (λ e. stops h.sent)
        (λ e.
          branch hop_count download_data_type before (ltb l.poll_retry 3)
            (λ f.
              resend_packet-IsSoundFlow hop_count download_data_type before m
                (IsSound-keep hop_count download_data_type before h refl refl (omega arith)
                  (ground arith) (omega arith) h.sent)
                (ground arith))
            (λ f. stops h.sent))

  -- The connection of a meter writes its command and reads answers.
  pub record IsConnecting (s : Odm) (r : Bool × Odm) : Type 0 where
    pub fewer : length r.1.answers ≤ length s.answers
    pub sent : Sent hop_count before r.1.link.written

  -- What the loop needs: its command behind a mesh header.
  pub record IsReady (header : Bytes) (s : Odm) : Type 0 where
    pub command : s.pmesh_header ≡ header ++ dlms_enable
    pub sent : Sent hop_count before s.link.written

  module _ (header : Bytes) (loop : Odm → Bool × Odm)
      (good : (s : Odm) → IsReady header s → IsConnecting s (loop s)) where
    connect_answer-IsConnecting :
        (a : Answer) (s : Odm) → IsReady header s → IsConnecting s (connect_answer loop a s)
    unfolding connect_answer disconnect
    connect_answer-IsConnecting Answer.dlms_success s h = record {
      fewer = omega arith;
      sent = h.sent;
    }
    connect_answer-IsConnecting (Answer.poll_timeout gone) s h =
        let g = good (disconnect gone s) (record { command = h.command; sent = h.sent }) in
        record { fewer = g.fewer; sent = g.sent }
    connect_answer-IsConnecting _ s h = good s h

    receive_from-IsConnecting :
        (answers : List Answer) (s : Odm)
        → s.answers ≡ answers
        → IsReady header s
        → IsConnecting s (connect_answer loop (receive_from answers s).0 (receive_from answers s).1)
    unfolding receive_from
    receive_from-IsConnecting [] s e h = connect_answer-IsConnecting (Answer.poll_timeout false) s h
    receive_from-IsConnecting (a ∷ answers) s e h =
        let s' = record s { answers = answers } in
        let g = connect_answer-IsConnecting a s' (record { command = h.command; sent = h.sent }) in
        let f = g.fewer in record { fewer = rw e (omega arith); sent = g.sent }

    connect_round-IsConnecting :
        (w : Bool × Odm) → IsReady header w.1 → IsConnecting w.1 (connect_round loop w)
    unfolding connect_round receive_data_and_validate_response
    connect_round-IsConnecting (false, s) h = record { fewer = omega arith; sent = h.sent }
    connect_round-IsConnecting (true, s) h = receive_from-IsConnecting s.answers s refl h

  pub connect_loop-IsConnecting :
      (rounds : ℕ) (header : Bytes) (s : Odm)
      → IsReady header s
      → IsConnecting s (connect_loop rounds s)
  unfolding connect_loop log
  connect_loop-IsConnecting zero header s h = record { fewer = omega arith; sent = h.sent }
  connect_loop-IsConnecting (suc rounds) header s h =
      let s' = record s { retry = s.retry + 1 } in
      let written : Sent hop_count before (write_to_client s.pmesh_header s').1.link.written =
        rw (same_written-write_to_client s.pmesh_header s', h.command) (connection header h.sent) in
      let c =
        connect_round-IsConnecting header (connect_loop rounds)
          (connect_loop-IsConnecting rounds header) (write_to_client s.pmesh_header s')
          (record { command = h.command; sent = written }) in
      record { fewer = c.fewer; sent = c.sent }
