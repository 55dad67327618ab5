-- ===== src/Schedule.antt =====
-- The schedule of the head-end's cycles in HES/src/client.cpp: `get_cycle_id_from_minute`,
-- `client_hes_cycle_schedule` and `mark_hes_cycle_done`, and their use in `client_event_loop`. The local
-- hour and minute are arguments.
pub mod Laws
use atlascode.Prelude.{
  ℕ, ◌+◌, ◌/◌, ◌%◌, ◌^◌, Bool, true, false, not, ◌&&◌, List, [], ◌∷◌, Option, none, some, leb, ◌==◌,
  if◌then◌else◌,
}
use atlascode.Prelude.Signed.{ℤ, pos, negsuc, eq_ℤ}

pub record HesCycleState : Type 0 where
  pub last_hour : ℤ
  pub current_cycle_id : ℤ
  pub done_mask : ℕ

abbrev pub initial : HesCycleState
initial = record { last_hour = negsuc 0; current_cycle_id = negsuc 0; done_mask = 0 }

-- `mask & (1 << i)` and `mask |= 1 << i`, where the bit is one of the mask's.
abbrev pub bit : ℕ → ℕ → Bool
bit i mask = mask / 2 ^ i % 2 == 1

abbrev pub set_bit : ℕ → ℕ → ℕ
set_bit i mask = if bit i mask then mask else mask + 2 ^ i

unfoldable pub mark_hes_cycle_done : HesCycleState → HesCycleState
mark_hes_cycle_done s = elim s.current_cycle_id [
  | pos i ↦ record s { done_mask = set_bit i s.done_mask; current_cycle_id = negsuc 0 }
  | negsuc _ ↦ s
]

unfoldable pub get_cycle_id_from_minute : ℕ → ℤ
get_cycle_id_from_minute minute =
    if leb 6 minute && leb minute 9
    then pos 0
    else if leb 18 minute && leb minute 24
    then pos 1
    else if leb 33 minute && leb minute 39
    then pos 2
    else if leb 48 minute && leb minute 54
    then pos 3
    else negsuc 0

-- A new hour forgets what the last one did.
unfoldable pub new_hour : ℕ → HesCycleState → HesCycleState
new_hour hour s =
    if eq_ℤ s.last_hour (pos hour)
    then s
    else record { last_hour = pos hour; current_cycle_id = negsuc 0; done_mask = 0 }

-- From the cycle of the minute on; true is SUCCESS.
unfoldable pub start_cycle : ℤ → HesCycleState → Bool × HesCycleState
start_cycle (negsuc _) s = (false, s)
start_cycle (pos cycle_id) s =
    if bit cycle_id s.done_mask
    then (false, s)
    else (true, record s { current_cycle_id = pos cycle_id })

unfoldable pub client_hes_cycle_schedule : ℕ → ℕ → HesCycleState → Bool × HesCycleState
client_hes_cycle_schedule hour minute s =
    start_cycle (get_cycle_id_from_minute minute) (new_hour hour s)

-- What follows the schedule, where the cycle's activity succeeds or not; with the cycle completed, if
-- one is.
unfoldable pub run_cycle : Bool → Bool × HesCycleState → Option ℕ × HesCycleState
run_cycle activity (due, s) =
    if due && activity
    then (elim s.current_cycle_id [ pos i ↦ some i | negsuc _ ↦ none ], mark_hes_cycle_done s)
    else (none, s)

-- One turn of the loop with no on-demand cycle in progress.
unfoldable pub tick : ℕ → ℕ → Bool → HesCycleState → Option ℕ × HesCycleState
tick hour minute activity s = run_cycle activity (client_hes_cycle_schedule hour minute s)

-- The cycles completed within an hour, over turns at the minutes given.
unfoldable pub completed : ℕ → List (ℕ × Bool) → HesCycleState → List ℕ
completed hour [] s = []
completed hour ((minute, activity) ∷ turns) s =
    let (cycle, s') = tick hour minute activity s in
    let rest = completed hour turns s' in
    elim cycle [ none ↦ rest | some cycle_id ↦ cycle_id ∷ rest ]
