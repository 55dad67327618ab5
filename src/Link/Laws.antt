-- ===== src/Link/Laws.antt =====
-- What the steps on the link to a gateway, HES/src/client.cpp, leave as it was.
use atlascode.Prelude.{
  ℕ, zero, suc, ◌-◌, ◌≡◌, refl, ◌∙◌, true, false, ◌==◌, get_or, List, [], ◌∷◌, Option, none, some,
  Bytes, length, arith,
}
use atlascode.Link.{
  Code, invalid_src_addr, Arrived, Link, get_destination_address, send_loop, write_to_client_vector,
}
use atlascode.Link.Validation.{
  is_framed, check_source, is_valid_packet, validate_received_data, received_loop, receive_block,
}

-- From one link to a later one: nothing was written, the gateway's details are the same, and a
-- disconnected gateway stays so.
pub record Quiet (l l' : Link) : Type 0 where
  pub same_written : l'.written ≡ l.written
  pub same_panid : l'.panid ≡ l.panid
  pub same_serial : l'.serial_number ≡ l.serial_number
  pub stays : l'.gateway_status ≡ true → l.gateway_status ≡ true

pub Quiet-refl : (l : Link) → Quiet l l
Quiet-refl l = record { same_written = refl; same_panid = refl; same_serial = refl; stays = λ h. h }

pub Quiet-trans : {l m n : Link} → Quiet l m → Quiet m n → Quiet l n
Quiet-trans p q = record {
  same_written = q.same_written ∙ p.same_written;
  same_panid = q.same_panid ∙ p.same_panid;
  same_serial = q.same_serial ∙ p.same_serial;
  stays = λ h. p.stays (q.stays h);
}

is_valid_packet-Quiet : (p : Arrived) (l : Link) → Quiet l (is_valid_packet p l).1
unfolding is_valid_packet check_source
is_valid_packet-Quiet p l = ground arith

pub received_loop-Quiet :
    (rounds : ℕ) (ps : List Arrived) (ret : Code) (l : Link)
    → Quiet l (received_loop rounds ps ret l).1
unfolding received_loop validate_received_data
received_loop-Quiet zero ps ret l = Quiet-refl l
received_loop-Quiet (suc rounds) [] ret l = Quiet-refl l
received_loop-Quiet (suc rounds) (p ∷ ps) ret l =
    Quiet-trans (is_valid_packet-Quiet p l)
      (received_loop-Quiet rounds ps (validate_received_data p l).0 (validate_received_data p l).1)

send_loop-Quiet :
    (sends : List (Option ℕ)) (left : ℕ) (l : Link) → Quiet l (send_loop sends left l).1
unfolding send_loop
send_loop-Quiet [] left l = ground arith
send_loop-Quiet (none ∷ sends) left l = ground arith
send_loop-Quiet (some zero ∷ sends) left l = ground arith
send_loop-Quiet (some (suc n) ∷ sends) left l =
    ground (arith, send_loop-Quiet sends (left - suc n) l)

get_destination_address-Quiet : (buff : Bytes) (l : Link) → Quiet l (get_destination_address buff l)
unfolding get_destination_address
get_destination_address-Quiet buff l = ground arith

pub write_to_client_vector-Quiet :
    (buff : Bytes) (l : Link)
    → Quiet (record l { written = buff ∷ l.written }) (write_to_client_vector buff l).1
unfolding write_to_client_vector
write_to_client_vector-Quiet buff l =
    let l1 = record l { written = buff ∷ l.written } in
    Quiet-trans (get_destination_address-Quiet buff l1)
      (send_loop-Quiet l.sends (length buff) (get_destination_address buff l1))

-- A packet as a node answers it: framed, and without the mark of push data.
pub record IsReply (p : Arrived) : Type 0 where
  pub framed : is_framed p ≡ true
  pub unmarked : (get_or p.rx_buf 17 0 == 44) ≡ false

pub is_valid_packet-disarms :
    (p : Arrived) (l : Link) → IsReply p → (is_valid_packet p l).1.need_to_validate_src_addr ≡ false
unfolding is_valid_packet check_source
is_valid_packet-disarms p l h = rw (h.framed, h.unmarked) (ground arith)

is_valid_packet-disarmed :
    (p : Arrived) (l : Link)
    → IsReply p
    → l.need_to_validate_src_addr ≡ false
    → (is_valid_packet p l).0 ≡ false
unfolding is_valid_packet check_source
is_valid_packet-disarmed p l h e = rw (h.framed, h.unmarked, e) refl

-- When two replies come one after the other, with nothing written in between and no refused one to
-- arm the check again, the second is answered as one from a wrong source, whatever its source is.
pub second_reply_refused :
    (p q : Arrived) (l : Link)
    → IsReply p
    → IsReply q
    → (receive_block (q ∷ []) (receive_block (p ∷ []) l).1).0 ≡ invalid_src_addr
unfolding receive_block received_loop validate_received_data
second_reply_refused p q l h k =
    rw (is_valid_packet-disarmed q (is_valid_packet p l).1 k (is_valid_packet-disarms p l h)) refl
