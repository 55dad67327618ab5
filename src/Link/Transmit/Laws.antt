-- ===== src/Link/Transmit/Laws.antt =====
-- How often a transmission, HES/src/client.cpp, writes its packet.
use atlascode.Prelude.{
  ℕ, zero, suc, ◌≤◌, ◌≡◌, refl, ◌∙◌, ap, Bool, true, false, ◌&&◌, inl, inr, List, [], ◌∷◌, Bytes,
  if◌then◌else◌, Bool-cases, arith,
}
use atlascode.Link.{Code, success, Arrival, silence, hang_up, receive_error, block, Link}
use atlascode.Link.Validation.{receive_block}
use atlascode.Link.Laws.{
  Quiet, Quiet-refl, Quiet-trans, received_loop-Quiet, write_to_client_vector-Quiet,
}
use atlascode.Link.Transmit.{
  Verdict, expected, same_attempt, next_attempt, judge, rearm, give_up, write_if, silent_loop,
  Round, stopped, waited, answered, receive, attempt, conclude, settle, transmit_loop,
  transmit_command_and_validate_response,
}

-- `n` copies of a packet written on top of what was.
abbrev pub copies : ℕ → Bytes → List Bytes → List Bytes
copies zero buff written = written
copies (suc n) buff written = buff ∷ copies n buff written

copies_suc :
    (n : ℕ) (buff : Bytes) (written : List Bytes)
    → copies n buff (buff ∷ written) ≡ buff ∷ copies n buff written
copies_suc zero buff written = refl
copies_suc (suc n) buff written = ap (◌∷◌ buff) (copies_suc n buff written)

-- The later link, `n` copies of the packet later.
pub record Sent (n : ℕ) (buff : Bytes) (l l' : Link) : Type 0 where
  pub same_written : l'.written ≡ copies n buff l.written
  pub same_panid : l'.panid ≡ l.panid
  pub same_serial : l'.serial_number ≡ l.serial_number
  pub stays : l'.gateway_status ≡ true → l.gateway_status ≡ true

-- From `l` to `l'` the packet was written `m` times at most.
pub record AtMost (m : ℕ) (buff : Bytes) (l l' : Link) : Type 0 where
  pub count : ℕ
  pub bound : count ≤ m
  pub sent : Sent count buff l l'

module _ (buff : Bytes) where
  Sent-refl : (l : Link) → Sent 0 buff l l
  Sent-refl l = record {
    same_written = refl;
    same_panid = refl;
    same_serial = refl;
    stays = λ h. h;
  }

  Sent-after : {n : ℕ} {l m l' : Link} → Quiet l m → Sent n buff m l' → Sent n buff l l'
  Sent-after {n} q s = record {
    same_written = s.same_written ∙ ap (copies n buff) q.same_written;
    same_panid = s.same_panid ∙ q.same_panid;
    same_serial = s.same_serial ∙ q.same_serial;
    stays = λ h. q.stays (s.stays h);
  }

  Sent-write :
      {n : ℕ} {l m l' : Link}
      → Quiet (record l { written = buff ∷ l.written }) m
      → Sent n buff m l'
      → Sent (suc n) buff l l'
  Sent-write {n} {l} q s = record {
    same_written = s.same_written ∙ ap (copies n buff) q.same_written ∙ copies_suc n buff l.written;
    same_panid = s.same_panid ∙ q.same_panid;
    same_serial = s.same_serial ∙ q.same_serial;
    stays = λ h. q.stays (s.stays h);
  }

  give_up-Sent : (got : Bool) (l : Link) → Sent 0 buff l (give_up got l).1
  unfolding give_up
  give_up-Sent got l = ground arith

  -- The attempts in which a loop may still write.
  abbrev due : Bool → ℕ → ℕ
  due true retries = retries
  due false zero = 0
  due false (suc retries) = retries

  start : Bool → Link → Link
  start need l = if need then record l { written = buff ∷ l.written } else l

  AtMost-after : {m : ℕ} {l k l' : Link} → Quiet l k → AtMost m buff k l' → AtMost m buff l l'
  AtMost-after q a = record { count = a.count; bound = a.bound; sent = Sent-after q a.sent }

  AtMost-start :
      (need : Bool) (retries : ℕ) {l k l' : Link}
      → Quiet (start need l) k
      → AtMost retries buff k l'
      → AtMost (due need (suc retries)) buff l l'
  unfolding start
  AtMost-start true retries q a = record {
    count = suc a.count;
    bound = omega (arith, a.bound);
    sent = Sent-write q a.sent;
  }
  AtMost-start false retries q a = AtMost-after q a

  give_up-AtMost : (m : ℕ) (got : Bool) (l : Link) → AtMost m buff l (give_up got l).1
  give_up-AtMost m got l = record { count = 0; bound = omega arith; sent = give_up-Sent got l }

  write_if-Quiet : (need : Bool) (l : Link) → Quiet (start need l) (write_if need buff l).1
  unfolding write_if start
  write_if-Quiet true l = write_to_client_vector-Quiet buff l
  write_if-Quiet false l = Quiet-refl l

  -- Behind the write of the first attempt.
  silent_loop-rest :
      (retries : ℕ) (need got : Bool) (l : Link)
      → AtMost retries buff
          (write_if need buff l).1
          (silent_loop buff retries true got (write_if need buff l).1).1
      → AtMost retries buff (write_if need buff l).1 (silent_loop buff (suc retries) need got l).1
  unfolding silent_loop
  silent_loop-rest retries need got l again =
      let (sent, m) = write_if need buff l in
      elim (Bool-cases (sent && m.gateway_status)) [
        | inl e ↦ rw (e, silent_loop) again
        | inr e ↦ rw (e, silent_loop) (give_up-AtMost retries got m)
      ]

  silent_loop-AtMost :
      (retries : ℕ) (need got : Bool) (l : Link)
      → AtMost (due need retries) buff l (silent_loop buff retries need got l).1
  unfolding silent_loop
  silent_loop-AtMost zero need got l = give_up-AtMost (due need 0) got l
  silent_loop-AtMost (suc retries) need got l = AtMost-start need retries (write_if-Quiet need l) (
      silent_loop-rest retries need got l
        (silent_loop-AtMost retries true got (write_if need buff l).1))

  link_of : Round → Link
  link_of (stopped l) = l
  link_of (waited l) = l
  link_of (answered ret l) = l

  receive-Quiet : (a : Arrival) (l : Link) → Quiet l (link_of (receive a l))
  unfolding receive link_of receive_block
  receive-Quiet (silence duplicate) l = ground arith
  receive-Quiet hang_up l = ground arith
  receive-Quiet receive_error l = ground arith
  receive-Quiet (block ps) l = received_loop-Quiet 11 ps success l

  attempt-Quiet :
      (need : Bool) (a : Arrival) (arrivals : List Arrival) (l : Link)
      → Quiet (start need l) (link_of (attempt need buff a arrivals l).0)
  unfolding attempt link_of
  attempt-Quiet need a arrivals l =
      let (sent, m) = write_if need buff l in
      Quiet-trans (write_if-Quiet need l)
        (elim (Bool-cases sent) [ inl e ↦ rw e (receive-Quiet a m) | inr e ↦ rw e (Quiet-refl m) ])

  aside : (l : Link) (arrivals : List Arrival) → Quiet l (record l { arrivals = arrivals })
  aside l arrivals = ground arith

  nothing : (m : ℕ) (l : Link) → AtMost m buff l l
  nothing m l = record { count = 0; bound = omega arith; sent = Sent-refl l }

  rearm-Quiet : (ret : Code) (l : Link) → Quiet l (rearm ret l)
  unfolding rearm
  rearm-Quiet ret l = ground arith

  module _ (loop : ℕ → Bool → Bool → Link → Code × Link)
      (h : (retries : ℕ) (need got : Bool) (l : Link)
        → AtMost (due need retries) buff l (loop retries need got l).1)
      (retries : ℕ) (left : List Arrival) where
    conclude-AtMost :
        (v : Verdict) (ret : Code) (l : Link)
        → AtMost retries buff l (conclude loop retries v ret left l).1
    unfolding conclude
    conclude-AtMost expected ret l =
        AtMost-after (aside l left) (nothing retries (record l { arrivals = left }))
    conclude-AtMost same_attempt ret l =
        AtMost-after (rearm-Quiet ret l) (h (suc retries) false true (rearm ret l))
    conclude-AtMost next_attempt ret l = h retries true true l

    settle-AtMost :
        (got : Bool) (round : Round)
        → AtMost retries buff (link_of round) (settle loop retries got round left).1
    unfolding settle link_of
    settle-AtMost got (stopped l) =
        AtMost-after (aside l left) (give_up-AtMost retries got (record l { arrivals = left }))
    settle-AtMost got (waited l) = h retries true got l
    settle-AtMost got (answered ret l) = conclude-AtMost (judge ret) ret l

  transmit_loop-AtMost :
      (arrivals : List Arrival) (retries : ℕ) (need got : Bool) (l : Link)
      → AtMost (due need retries) buff l (transmit_loop buff arrivals retries need got l).1
  unfolding transmit_loop
  transmit_loop-AtMost [] retries need got l =
      AtMost-after (aside l []) (silent_loop-AtMost retries need got (record l { arrivals = [] }))
  transmit_loop-AtMost (a ∷ arrivals) zero need got l =
      AtMost-after (aside l (a ∷ arrivals))
        (give_up-AtMost (due need 0) got (record l { arrivals = a ∷ arrivals }))
  transmit_loop-AtMost (a ∷ arrivals) (suc retries) need got l =
      AtMost-start need retries (attempt-Quiet need a arrivals l) (
        settle-AtMost (transmit_loop buff arrivals) (transmit_loop-AtMost arrivals) retries
          (attempt need buff a arrivals l).1 got (attempt need buff a arrivals l).0)

  AtMost-first :
      {retries : ℕ} {l k l' : Link}
      → Quiet (start true l) k
      → AtMost retries buff k l'
      → (n : ℕ) × (n ≤ retries) × Sent (suc n) buff l l'
  unfolding start
  AtMost-first q a = (a.count, a.bound, Sent-write q a.sent)

  start-aside :
      (l : Link) {m : Link}
      → Quiet (start true (record l { arrivals = [] })) m
      → Quiet (start true l) m
  unfolding start
  start-aside l q = Quiet-trans (aside (record l { written = buff ∷ l.written }) []) q

  transmit_loop-first :
      (arrivals : List Arrival) (retries : ℕ) (got : Bool) (l : Link)
      → (n : ℕ) × (n ≤ retries)
        × Sent (suc n) buff l (transmit_loop buff arrivals (suc retries) true got l).1
  unfolding transmit_loop
  transmit_loop-first [] retries got l =
      let m = record l { arrivals = [] } in
      AtMost-first (start-aside l (write_if-Quiet true m)) (
        silent_loop-rest retries true got m
          (silent_loop-AtMost retries true got (write_if true buff m).1))
  transmit_loop-first (a ∷ arrivals) retries got l =
      AtMost-first (attempt-Quiet true a arrivals l) (
        settle-AtMost (transmit_loop buff arrivals) (transmit_loop-AtMost arrivals) retries
          (attempt true buff a arrivals l).1 got (attempt true buff a arrivals l).0)

  -- A command is written at least once and at most as often as it has attempts, whatever comes in
  -- between.
  pub transmit-Sent :
      (retries : ℕ) (l : Link)
      → (n : ℕ) × (n ≤ retries)
        × Sent (suc n) buff l (transmit_command_and_validate_response buff (suc retries) l).1
  unfolding transmit_command_and_validate_response
  transmit-Sent retries l = transmit_loop-first l.arrivals retries false l
