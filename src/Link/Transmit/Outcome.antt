-- ===== src/Link/Transmit/Outcome.antt =====
-- What a transmission, HES/src/client.cpp, answers.
use atlascode.Prelude.{
  ℕ, zero, suc, ◌≡◌, refl, Bool, true, false, not, ◌||◌, ◌&&◌, inl, inr, List, [], ◌∷◌, Bytes,
  Bool-cases,
}
use atlascode.Link.{Code, failure, Arrival, silence, hang_up, receive_error, block, Link}
use atlascode.Link.Transmit.{
  Verdict, expected, same_attempt, next_attempt, judge, rearm, give_up, write_if, silent_loop,
  Round, stopped, waited, answered, receive, attempt, conclude, settle, transmit_loop,
  transmit_command_and_validate_response,
}

-- The codes that a transmission ends with.
pub data IsFinal : Code → Type 0 where
  gave_up : IsFinal failure
  came : {c : Code} → judge c ≡ expected → IsFinal c

module _ (buff : Bytes) where
  silent_loop-IsFinal :
      (retries : ℕ) (need got : Bool) (l : Link) → (silent_loop buff retries need got l).0 ≡ failure
  unfolding silent_loop give_up
  silent_loop-IsFinal zero need got l = refl
  silent_loop-IsFinal (suc retries) need got l =
      let (sent, m) = write_if need buff l in
      let again = silent_loop-IsFinal retries true got m in
      elim (Bool-cases (sent && m.gateway_status)) [
        | inl e ↦ rw (e, silent_loop) again
        | inr e ↦ rw (e, silent_loop) refl
      ]

  module _ (loop : ℕ → Bool → Bool → Link → Code × Link)
      (h : (retries : ℕ) (need got : Bool) (l : Link) → IsFinal (loop retries need got l).0)
      (retries : ℕ) (left : List Arrival) where
    conclude-IsFinal :
        (v : Verdict) (ret : Code) (l : Link)
        → judge ret ≡ v
        → IsFinal (conclude loop retries v ret left l).0
    unfolding conclude
    conclude-IsFinal expected ret l e = came e
    conclude-IsFinal same_attempt ret l e = h (suc retries) false true (rearm ret l)
    conclude-IsFinal next_attempt ret l e = h retries true true l

    settle-IsFinal : (got : Bool) (round : Round) → IsFinal (settle loop retries got round left).0
    unfolding settle give_up
    settle-IsFinal got (stopped l) = gave_up
    settle-IsFinal got (waited l) = h retries true got l
    settle-IsFinal got (answered ret l) = conclude-IsFinal (judge ret) ret l refl

  transmit_loop-IsFinal :
      (arrivals : List Arrival) (retries : ℕ) (need got : Bool) (l : Link)
      → IsFinal (transmit_loop buff arrivals retries need got l).0
  unfolding transmit_loop give_up
  transmit_loop-IsFinal [] retries need got l =
      rw (silent_loop-IsFinal retries need got (record l { arrivals = [] })) gave_up
  transmit_loop-IsFinal (a ∷ arrivals) zero need got l = gave_up
  transmit_loop-IsFinal (a ∷ arrivals) (suc retries) need got l =
      settle-IsFinal (transmit_loop buff arrivals) (transmit_loop-IsFinal arrivals) retries
        (attempt need buff a arrivals l).1 got (attempt need buff a arrivals l).0

  -- Whatever the gateway sends, a transmission answers with a failure or with one of the six codes
  -- that are a response to a command.
  pub transmit-IsFinal :
      (retries : ℕ) (l : Link) → IsFinal (transmit_command_and_validate_response buff retries l).0
  unfolding transmit_command_and_validate_response
  transmit-IsFinal zero l = gave_up
  transmit-IsFinal (suc retries) l = transmit_loop-IsFinal l.arrivals (suc retries) true false l

-- A call of `recv` that brings no bytes.
pub data IsSilent : Arrival → Type 0 where
  nothing_yet : (duplicate : Bool) → IsSilent (silence duplicate)
  nothing_more : IsSilent hang_up
  nothing_read : IsSilent receive_error

abbrev pub AreSilent : List Arrival → Type 0
AreSilent [] = Unit {0}
AreSilent (a ∷ arrivals) = IsSilent a × AreSilent arrivals

-- The transmission failed, and the gateway counts as disconnected.
pub record IsLost (r : Code × Link) : Type 0 where
  pub failed : r.0 ≡ failure
  pub disconnected : r.1.gateway_status ≡ false

data IsUnanswered : Round → Type 0 where
  is_stopped : (l : Link) → IsUnanswered (stopped l)
  is_waited : (l : Link) → IsUnanswered (waited l)

receive-IsUnanswered : (a : Arrival) (l : Link) → IsSilent a → IsUnanswered (receive a l)
unfolding receive
receive-IsUnanswered (silence duplicate) l h =
    elim (Bool-cases (not l.gateway_status || duplicate)) [
      | inl e ↦ rw e (is_stopped l)
      | inr e ↦ rw e (is_waited l)
    ]
receive-IsUnanswered hang_up l h = is_stopped (record l { gateway_status = false })
receive-IsUnanswered receive_error l h = is_stopped (record l { gateway_status = false })
receive-IsUnanswered (block ps) l h = elim h [ ]

module _ (buff : Bytes) where
  attempt-IsUnanswered :
      (need : Bool) (a : Arrival) (arrivals : List Arrival) (l : Link)
      → IsSilent a
      → IsUnanswered (attempt need buff a arrivals l).0
  unfolding attempt
  attempt-IsUnanswered need a arrivals l h =
      let (sent, m) = write_if need buff l in
      elim (Bool-cases sent) [
        | inl e ↦ rw e (receive-IsUnanswered a m h)
        | inr e ↦ rw e (is_stopped m)
      ]

  give_up-IsLost : (l : Link) → IsLost (give_up false l)
  unfolding give_up
  give_up-IsLost l = record { failed = refl; disconnected = refl }

  silent_loop-IsLost :
      (retries : ℕ) (need : Bool) (l : Link) → IsLost (silent_loop buff retries need false l)
  unfolding silent_loop
  silent_loop-IsLost zero need l = give_up-IsLost l
  silent_loop-IsLost (suc retries) need l =
      let (sent, m) = write_if need buff l in
      let again = silent_loop-IsLost retries true m in
      elim (Bool-cases (sent && m.gateway_status)) [
        | inl e ↦ rw (e, silent_loop) again
        | inr e ↦ rw (e, silent_loop) (give_up-IsLost m)
      ]

  settle-IsLost :
      (loop : ℕ → Bool → Bool → Link → Code × Link)
      → ((retries : ℕ) (need : Bool) (l : Link) → IsLost (loop retries need false l))
      → (retries : ℕ) (left : List Arrival) (round : Round) → IsUnanswered round
      → IsLost (settle loop retries false round left)
  unfolding settle
  settle-IsLost loop h retries left (stopped l) u = give_up-IsLost (record l { arrivals = left })
  settle-IsLost loop h retries left (waited l) u = h retries true l
  settle-IsLost loop h retries left (answered ret l) u = elim u [ ]

  transmit_loop-IsLost :
      (arrivals : List Arrival) (retries : ℕ) (need : Bool) (l : Link)
      → AreSilent arrivals
      → IsLost (transmit_loop buff arrivals retries need false l)
  unfolding transmit_loop
  transmit_loop-IsLost [] retries need l h =
      silent_loop-IsLost retries need (record l { arrivals = [] })
  transmit_loop-IsLost (a ∷ arrivals) zero need l h =
      give_up-IsLost (record l { arrivals = a ∷ arrivals })
  transmit_loop-IsLost (a ∷ arrivals) (suc retries) need l (h, hs) =
      settle-IsLost (transmit_loop buff arrivals)
        (λ retries need l. transmit_loop-IsLost arrivals retries need l hs) retries
        (attempt need buff a arrivals l).1 (attempt need buff a arrivals l).0
        (attempt-IsUnanswered need a arrivals l h)

  -- When no call of `recv` brings bytes, a transmission with attempts fails, and the gateway counts
  -- as disconnected from then on.
  pub transmit_silence :
      (retries : ℕ) (l : Link)
      → AreSilent l.arrivals
      → IsLost (transmit_command_and_validate_response buff (suc retries) l)
  unfolding transmit_command_and_validate_response
  transmit_silence retries l h = transmit_loop-IsLost l.arrivals (suc retries) true l h
