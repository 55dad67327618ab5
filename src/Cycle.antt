-- ===== src/Cycle.antt =====
-- `calculate_cycle_id` and `calculate_cycle_id_for_block_load` of HES/src/database.cpp. `localtime_r`
-- is a parameter, of which the hour and the minute are used; times are in seconds.
use atlascode.Prelude.{ℕ, ◌+◌, ◌-◌, ◌*◌, ◌/◌, ◌%◌, ◌≤◌, ◌<◌, ltb, if◌then◌else◌, arith}

pub record LocalTime : Type 0 where
  pub hour : ℕ
  pub minute : ℕ

unfoldable pub calculate_cycle_id_for_block_load : LocalTime → ℕ
calculate_cycle_id_for_block_load t = t.hour * 4 + 4

-- From the cycle id on; the case below 1 cannot occur on ℕ and is kept from the source.
unfoldable pub wrap_cycle : ℕ → ℕ
wrap_cycle cycle_id =
    if ltb cycle_id 1 then 96 else if ltb 96 cycle_id then (cycle_id - 1) % 96 + 1 else cycle_id

-- An argument outside 0..3 counts as 0.
unfoldable pub calculate_cycle_id : (ℕ → LocalTime) → ℕ → ℕ → ℕ
unfolding wrap_cycle
calculate_cycle_id localtime now subtract_cycles =
    let back = if ltb 3 subtract_cycles then 0 else subtract_cycles in
    let t = localtime (now - back * 15 * 60) in wrap_cycle ((t.hour * 60 + t.minute + 5) / 15 + 1)

-- A clock shows hours below 24 and minutes below 60.
abbrev pub IsClock : (ℕ → LocalTime) → Type 0
IsClock localtime = (s : ℕ) → ((localtime s).hour < 24) × ((localtime s).minute < 60)

wrap_cycle-lem :
    (minutes : ℕ)
    → minutes < 1440
    → (1 ≤ wrap_cycle ((minutes + 5) / 15 + 1)) × (wrap_cycle ((minutes + 5) / 15 + 1) ≤ 96)
unfolding wrap_cycle
wrap_cycle-lem minutes h = ground arith

-- On any clock, at any moment and for any argument, the cycle is one of the day's 96 quarters of an
-- hour, numbered from 1.
pub calculate_cycle_id_bounds :
    (localtime : ℕ → LocalTime) (now subtract_cycles : ℕ)
    → IsClock localtime
    → (1 ≤ calculate_cycle_id localtime now subtract_cycles)
      × (calculate_cycle_id localtime now subtract_cycles ≤ 96)
unfolding calculate_cycle_id
calculate_cycle_id_bounds localtime now subtract_cycles h =
    let back = if ltb 3 subtract_cycles then 0 else subtract_cycles in
    let t = localtime (now - back * 15 * 60) in
    let shown = h (now - back * 15 * 60) in wrap_cycle-lem (t.hour * 60 + t.minute) (omega arith)
