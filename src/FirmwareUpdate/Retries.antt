-- ===== src/FirmwareUpdate/Retries.antt =====
-- How often a command of a firmware update is sent again when no response comes: the timer of
-- FirmwareUpdate.Timer.
use atlascode.Prelude.{
  ℕ, ◌+◌, ◌-◌, ◌≤◌, ◌≡◌, ◌≢◌, true, false, List, [], ◌∷◌, ltb, leb, if◌then◌else◌,
}
use atlascode.FirmwareUpdate.{RetryContext, AlternateRoute, no_payload}
use atlascode.FirmwareUpdate.Timer.{FuotaSession}

-- The limits of the source; a command waits for its response.
pub record IsWaiting (s : FuotaSession) : Type 0 where
  pub waiting : s.waiting_for_response ≡ true
  pub same : s.cntx.max_retries ≡ 3
  pub alternate : s.cntx.alternate_maxcnt ≡ 2
  pub counted : s.cntx.retry_count ≤ 3

-- The retries that are left.
abbrev remaining : FuotaSession → ℕ
remaining s = 3 - s.cntx.retry_count + (if ltb s.cntx.alternate_retry 2 then 4 else 0)

-- Each timeout finds the last command with a payload.
abbrev pub HavePayload : List AlternateRoute → Type 0
HavePayload [] = Unit {0}
HavePayload (route ∷ routes) = (route ≢ no_payload) × HavePayload routes

-- A command that is sent again waits, with one retry less.
record IsResent (s t : FuotaSession) : Type 0 where
  still : IsWaiting t
  less : remaining t + 1 ≡ remaining s
  sent : t.sent ≡ s.sent + 1
  failures : t.failures ≡ s.failures

record IsFailed (s t : FuotaSession) : Type 0 where
  over : t.waiting_for_response ≡ false
  reset : (t.cntx.retry_count ≡ 0) × (t.cntx.alternate_retry ≡ 0)
  none_sent : t.sent ≡ s.sent
  failures : t.failures ≡ s.failures + 1

record IsRerouted (c d : RetryContext) : Type 0 where
  same : d.max_retries ≡ c.max_retries
  alternate : d.alternate_maxcnt ≡ c.alternate_maxcnt
  fresh : d.retry_count ≡ 0
  spent : 2 ≤ d.alternate_retry

-- What timeouts in a row make of a command with `n` retries left.
pub record IsRetried (n timeouts : ℕ) (s t : FuotaSession) : Type 0 where
  pub sent : t.sent ≡ s.sent + (if leb timeouts n then timeouts else n)
  pub failures : t.failures ≡ s.failures + (if leb timeouts n then 0 else 1)
  pub waits : t.waiting_for_response ≡ leb timeouts n
