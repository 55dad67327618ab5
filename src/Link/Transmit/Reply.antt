-- ===== src/Link/Transmit/Reply.antt =====
-- A transmission, HES/src/client.cpp, that is answered.
use atlascode.Prelude.{
  ℕ, suc, ◌≡◌, refl, ap, ◌∙◌, Bool, true, false, List, [], ◌∷◌, Bytes, ◌==◌, get_or,
}
use atlascode.Link.{Code, push_data_received, Arrived, Arrival, block, Link, write_to_client_vector}
use atlascode.Link.Validation.{
  is_framed, validate_source_address, check_source, is_valid_packet, validate_received_data,
  received_loop, receive_block,
}
use atlascode.Link.Laws.{IsReply}
use atlascode.Link.Transmit.{
  judge, expected, answered, receive, write_if, attempt, rearm, conclude, settle, transmit_loop,
  transmit_command_and_validate_response,
}

-- A packet of push data, which is taken whatever is waited for.
pub record IsPush (p : Arrived) : Type 0 where
  pub framed : is_framed p ≡ true
  pub marked : (get_or p.rx_buf 17 0 == 44) ≡ true
  pub pushed : p.answer ≡ push_data_received

abbrev pub ArePushes : List Arrived → Type 0
ArePushes [] = Unit {0}
ArePushes (p ∷ ps) = IsPush p × ArePushes ps

-- Packets of push data, each in a block of its own, and then a reply.
abbrev pub before_reply : List Arrived → Arrived → List Arrival → List Arrival
before_reply [] reply later = block (reply ∷ []) ∷ later
before_reply (p ∷ ps) reply later = block (p ∷ []) ∷ before_reply ps reply later

receive_push :
    (p : Arrived) (l : Link) → IsPush p → receive (block (p ∷ [])) l ≡ answered push_data_received l
unfolding receive receive_block received_loop validate_received_data is_valid_packet
receive_push p l h = rw (h.framed, h.marked, h.pushed) refl

receive_reply :
    (p : Arrived) (l : Link)
    → IsReply p
    → l.need_to_validate_src_addr ≡ true
    → validate_source_address p.rx_buf l ≡ true
    → receive (block (p ∷ [])) l
      ≡ answered p.answer (record l { need_to_validate_src_addr = false })
unfolding receive receive_block received_loop validate_received_data is_valid_packet check_source
receive_reply p l h n v = rw (h.framed, h.unmarked, n, v) refl

-- What the reply comes to.
abbrev pub taken : Arrived → List Arrival → Link → Code × Link
taken reply later l =
    (reply.answer, record l { need_to_validate_src_addr = false; arrivals = later })

module _ (buff : Bytes) (reply : Arrived) (later : List Arrival) (l : Link)
    (is_reply : IsReply reply) (final : judge reply.answer ≡ expected)
    (due : l.need_to_validate_src_addr ≡ true)
    (right : validate_source_address reply.rx_buf l ≡ true) (retries : ℕ) where
  reply_round :
      (got : Bool)
      → transmit_loop buff (block (reply ∷ []) ∷ later) (suc retries) false got l
        ≡ taken reply later l
  unfolding transmit_loop attempt write_if settle conclude
  reply_round got =
      let loop = transmit_loop buff later in
      let m = record l { need_to_validate_src_addr = false } in
      ap (λ round. settle loop retries got round later) (receive_reply reply l is_reply due right)
      ∙ ap (λ v. conclude loop retries v reply.answer later m) final

  waiting :
      (ps : List Arrived) (got : Bool)
      → ArePushes ps
      → transmit_loop buff (before_reply ps reply later) (suc retries) false got l
        ≡ taken reply later l
  unfolding transmit_loop attempt write_if settle conclude judge rearm
  waiting [] got h = reply_round got
  waiting (p ∷ ps) got (h, hs) =
      let rest = before_reply ps reply later in
      ap (λ round. settle (transmit_loop buff rest) retries got round rest) (receive_push p l h)
      ∙ waiting ps true hs

-- With the first write behind it a loop goes on as one that has nothing to write.
written_first :
    (buff : Bytes) (a : Arrival) (arrivals : List Arrival) (retries : ℕ) (got : Bool) (l : Link)
    → (write_to_client_vector buff l).0 ≡ true
    → transmit_loop buff (a ∷ arrivals) (suc retries) true got l
      ≡ transmit_loop buff (a ∷ arrivals) (suc retries) false got (write_to_client_vector buff l).1
unfolding transmit_loop attempt write_if
written_first buff a arrivals retries got l e = rw e refl

-- When the packet can be written, and what comes first is packets of push data, however many, and
-- then a reply of the node asked with an answer to the command, the transmission ends with this
-- answer, at its first attempt: the packet was written once, and what comes later is left.
pub transmit_replied :
    (buff : Bytes) (ps : List Arrived) (reply : Arrived) (later : List Arrival) (retries : ℕ)
    (l : Link)
    → l.arrivals ≡ before_reply ps reply later
    → ArePushes ps
    → IsReply reply
    → judge reply.answer ≡ expected
    → (write_to_client_vector buff l).0 ≡ true
    → (write_to_client_vector buff l).1.need_to_validate_src_addr ≡ true
    → validate_source_address reply.rx_buf (write_to_client_vector buff l).1 ≡ true
    → transmit_command_and_validate_response buff (suc retries) l
      ≡ taken reply later (write_to_client_vector buff l).1
unfolding transmit_command_and_validate_response
transmit_replied buff ps reply later retries l e hs h f w n v =
    let m = (write_to_client_vector buff l).1 in
    ap (λ arrivals. transmit_loop buff arrivals (suc retries) true false l) e
    ∙ first ps
    ∙ waiting buff reply later m h f n v retries ps false hs
  where
    first :
        (ps : List Arrived)
        → transmit_loop buff (before_reply ps reply later) (suc retries) true false l
          ≡ transmit_loop buff
              (before_reply ps reply later)
              (suc retries)
              false
              false
              (write_to_client_vector buff l).1
    first [] = written_first buff (block (reply ∷ [])) later retries false l w
    first (p ∷ ps) =
        written_first buff (block (p ∷ [])) (before_reply ps reply later) retries false l w
