-- ===== src/Ondemand/Request/Laws/Ends.antt =====
-- A request of Ondemand.Request.Steps ends, and what it has sent by then.
use atlascode.Prelude.{
  ℕ, zero, suc, ◌+◌, ◌-◌, ◌*◌, ◌≤◌, ◌<◌, ◌≡◌, refl, Bool, true, false, List, [], ◌∷◌, Option, some,
  Bytes, length, arith, ◌>>=◌, ◌++◌, ◌==◌,
}
use atlascode.Ondemand.Frame.Packets.{Parts, packet, right_checksum, IsRouted}
use atlascode.Ondemand.Frame.Laws.{has_range}
use atlascode.Ondemand.Request.{
  Answer, Odm, Locals, Flow, again, stop, log, forget_source, disconnect, write_to_client,
  dlms_enable, receive_from, receive_data_and_validate_response, handle_connection_failed,
}
use atlascode.Ondemand.Request.Steps.{
  give_up, on_connection_failed, on_answer, first_locals, turn, odm_loop, keep_tail, answers_loop,
  process_odm_request,
}
use atlascode.Ondemand.Request.Laws.{
  Sent, start, page, same_written-write_to_client, measure, IsSound, IsSoundFlow, continues, stops,
  IsSound-keep, branch, resend_packet-IsSoundFlow,
}
use atlascode.Ondemand.Request.Laws.Answers.{
  decreases, on_pmesh_error-IsSoundFlow, on_timeout-IsSoundFlow, on_success-IsSoundFlow,
  on_next_page-IsSoundFlow, on_checksum_error-IsSoundFlow, on_poll_timeout-IsSoundFlow,
  connect_loop-IsConnecting,
}

module _ (hop_count download_data_type : ℕ) (before : List Bytes) where
  on_connection_failed-IsSoundFlow :
      (l : Locals) (s : Odm) (m : ℕ)
      → IsSound hop_count download_data_type before l s
      → 3 * length s.answers + 3 < m
      → IsSoundFlow hop_count download_data_type before m (some (on_connection_failed l s))
  unfolding on_connection_failed give_up handle_connection_failed log
  on_connection_failed-IsSoundFlow l s m h k =
      let c =
        connect_loop-IsConnecting hop_count download_data_type before (3 - s.retry) s.pmesh_header
          (record s { pmesh_header = s.pmesh_header ++ dlms_enable })
          (record { command = refl; sent = h.sent }) in
      let f = c.fewer in
      let p = h.polled in
      branch hop_count download_data_type before (s.retry == 3) (λ e. stops h.sent)
        (λ e.
          branch hop_count download_data_type before (handle_connection_failed s).0
            (λ g.
              continues
                (IsSound-keep hop_count download_data_type before h refl refl h.polled h.polls
                  c.fewer c.sent)
                (omega arith))
            (λ g. stops c.sent))

  on_answer-IsSoundFlow :
      (a : Answer) (l : Locals) (s : Odm) (m : ℕ)
      → (h : IsSound hop_count download_data_type before l s)
      → h.parts.page + 1 + length s.answers < 255
      → 3 * length s.answers + 3 < m
      → IsSoundFlow hop_count download_data_type before m (on_answer download_data_type a l s)
  unfolding on_answer log forget_source disconnect
  on_answer-IsSoundFlow (Answer.success rx stored) l s m h room k =
      on_success-IsSoundFlow hop_count download_data_type before l s m h k rx stored
  on_answer-IsSoundFlow Answer.dlms_success l s m h room k =
      resend_packet-IsSoundFlow hop_count download_data_type before m h
        (decreases hop_count download_data_type before l s m h k)
  on_answer-IsSoundFlow Answer.pmesh_error l s m h room k =
      on_pmesh_error-IsSoundFlow hop_count download_data_type before l s m h k
  on_answer-IsSoundFlow Answer.timeout_received l s m h room k =
      on_timeout-IsSoundFlow hop_count download_data_type before l s m h k
  on_answer-IsSoundFlow Answer.dlms_connection_failed l s m h room k =
      on_connection_failed-IsSoundFlow l s m h k
  on_answer-IsSoundFlow Answer.failed_pmesh_error l s m h room k = stops h.sent
  on_answer-IsSoundFlow (Answer.dlms_error rx) l s m h room k = stops h.sent
  on_answer-IsSoundFlow (Answer.poll_timeout gone) l s m h room k =
      let p = h.polled in
      on_poll_timeout-IsSoundFlow hop_count download_data_type before l (disconnect gone s) m
        (IsSound-keep hop_count download_data_type before h refl refl h.polled h.polls (omega arith)
          h.sent)
        (omega arith)
  on_answer-IsSoundFlow Answer.succes_next_page l s m h room k =
      on_next_page-IsSoundFlow hop_count download_data_type before l s m h k room
  on_answer-IsSoundFlow Answer.invalid_response l s m h room k =
      continues
        (IsSound-keep hop_count download_data_type before h refl refl h.polled h.polls (omega arith)
          h.sent)
        (decreases hop_count download_data_type before l s m h k)
  on_answer-IsSoundFlow Answer.command_in_progress l s m h room k =
      continues
        (IsSound-keep hop_count download_data_type before h refl refl h.polled h.polls (omega arith)
          h.sent)
        (decreases hop_count download_data_type before l s m h k)
  on_answer-IsSoundFlow Answer.dlms_checksum_error l s m h room k =
      on_checksum_error-IsSoundFlow hop_count download_data_type before l s m h k
  on_answer-IsSoundFlow Answer.other l s m h room k =
      continues h (decreases hop_count download_data_type before l s m h k)

  receive_from-IsSoundFlow :
      (answers : List Answer) (l : Locals) (s : Odm)
      → s.answers ≡ answers
      → IsSound hop_count download_data_type before l s
      → IsSoundFlow hop_count download_data_type before
          (measure l s)
          (on_answer download_data_type (receive_from answers s).0 l (receive_from answers s).1)
  unfolding receive_from on_answer disconnect
  receive_from-IsSoundFlow [] l s e h =
      on_poll_timeout-IsSoundFlow hop_count download_data_type before l (disconnect false s)
        (measure l s)
        (IsSound-keep hop_count download_data_type before h refl refl h.polled h.polls (omega arith)
          h.sent)
        (omega arith)
  receive_from-IsSoundFlow (a ∷ answers) l s e h =
      let n : length s.answers ≡ suc (length answers) = rw e refl in
      let r = h.room in
      let p = h.polls in
      let s' = record s { answers = answers } in
      on_answer-IsSoundFlow a l s' (measure l s)
        (record {
          parts = h.parts;
          routed = h.routed;
          checked = h.checked;
          index = h.index;
          room = omega arith;
          ranged = h.ranged;
          polled = h.polled;
          polls = h.polls;
          sent = h.sent;
        })
        (omega arith) (omega arith)

  -- The request has ended, and has sent only such packets.
  pub record IsEnded (o : Option Flow) : Type 0 where
    pub final : Odm
    pub ended : o ≡ some (stop final)
    pub sent : Sent hop_count before final.link.written

  -- The turns that are left, behind one.
  IsEnded-bind :
      (fuel m : ℕ) (o : Option Flow)
      → IsSoundFlow hop_count download_data_type before m o
      → m ≤ suc fuel
      → ((l : Locals) (s : Odm)
          → IsSound hop_count download_data_type before l s
          → measure l s ≤ fuel
          → IsEnded (odm_loop fuel download_data_type l s))
      → IsEnded (
          o >>= (λ flow. elim flow [
            | again l s ↦ odm_loop fuel download_data_type l s
            | stop s ↦ some (stop s)
          ]))
  IsEnded-bind fuel m o (continues {l} {s} h k) b f = f l s h (omega arith)
  IsEnded-bind fuel m o (stops {s} h) b f = record { final = s; ended = refl; sent = h }

  odm_loop-IsEnded :
      (fuel : ℕ) (l : Locals) (s : Odm)
      → IsSound hop_count download_data_type before l s
      → measure l s ≤ fuel
      → IsEnded (odm_loop fuel download_data_type l s)
  unfolding odm_loop turn receive_data_and_validate_response
  odm_loop-IsEnded zero l s h b = let p = h.polls in absurd (omega arith)
  odm_loop-IsEnded (suc fuel) l s h b =
      IsEnded-bind fuel (measure l s) (turn download_data_type l s)
        (receive_from-IsSoundFlow s.answers l s refl h) b (odm_loop-IsEnded fuel)

  answers_loop-IsEnded :
      (fuel : ℕ) (buf : Bytes) (w : Bool × Odm)
      → Sent hop_count before w.1.link.written
      → IsSound hop_count download_data_type before
          (first_locals buf)
          (keep_tail buf download_data_type w.1)
      → measure (first_locals buf) w.1 ≤ fuel
      → IsEnded (answers_loop fuel download_data_type buf w)
  unfolding answers_loop keep_tail
  answers_loop-IsEnded fuel buf (false, s) written sound enough = record {
    final = s;
    ended = refl;
    sent = written;
  }
  answers_loop-IsEnded fuel buf (true, s) written sound enough =
      odm_loop-IsEnded fuel (first_locals buf) (keep_tail buf download_data_type s) sound enough

-- A request on demand ends: when the gateway gives fewer than 255 answers before it falls silent, three
-- turns for each answer and three more are enough, and no read or write goes behind the packet. All that
-- it sends are requests for pages with the right checksum, and the command that connects the meter. The
-- first packet asks for page 0 with the right checksum, over 60 hops at most, and has the range that its
-- type of data needs.
pub process_odm_request-IsEnded :
    (hop_count download_data_type fuel : ℕ) (r : Parts) (s : Odm)
    → IsRouted hop_count r
    → r.page ≡ 0
    → has_range download_data_type (length r.arguments) ≡ true
    → length s.answers < 255
    → 3 * length s.answers + 3 ≤ fuel
    → IsEnded hop_count download_data_type s.link.written
        (process_odm_request fuel (packet r (right_checksum r)) download_data_type s)
unfolding process_odm_request write_to_client keep_tail
process_odm_request-IsEnded hop_count t fuel r s routed first ranged few enough =
    let buf = packet r (right_checksum r) in
    let s0 = record s { tx_page_index = 0 } in
    let w = (write_to_client buf s0).1 in
    let l = first_locals buf in
    let written : Sent hop_count s.link.written w.link.written =
      rw (same_written-write_to_client buf s0)
        (page 0 (record { parts = r; routed = routed; asks = first; checked = refl }) start) in
    let sound : IsSound hop_count t s.link.written l (keep_tail buf t w) = record {
      parts = r;
      routed = routed;
      checked = refl;
      index = omega arith;
      room = omega arith;
      ranged = λ e. ranged;
      polled = omega arith;
      polls = omega arith;
      sent = written;
    } in
    answers_loop-IsEnded hop_count t s.link.written fuel buf (write_to_client buf s0) written sound
      (omega arith)
