-- ===== src/Tests/States.antt =====
-- The registry of clients, the schedule of cycles, the values of records.
use atlascode.Prelude.{
  ◌<◌, ◌-◌, ◌+◌, ◌*◌, ℕ, ◌/◌, ◌%◌, ◌≤◌, ◌≡◌, refl, Bool, true, false, not, List, [], ◌∷◌, none,
  some, Bytes, codes, ◌==◌, find, bytes_key, number_key, arith,
}
use atlascode.Prelude.Signed.{ℤ, pos, negsuc}
use atlascode.Registry.{no_clients, key_of, register_client, unregister_client}
use atlascode.Registry.Lookup.{unregister-register, register_client_again, register-find_self}
use atlascode.Registry.Reach.{Reachable, start, login, logout, IsConsistent, Reachable-IsConsistent}
use atlascode.Schedule.{
  initial, mark_hes_cycle_done, get_cycle_id_from_minute, new_hour, start_cycle,
  client_hes_cycle_schedule, run_cycle, tick, completed,
}
use atlascode.Schedule.Laws.{count, completed_at_most_once}
use atlascode.FirmwareUpdate.{
  calculate_dynamic_header_len, get_max_payload_size, get_max_sub_page_count, get_min_payload_size,
  stop_retry_context, decide_timeout_action, AlternateRoute, found, after_action, terminate,
  command_response_timeout_at_fuota,
}
use atlascode.FirmwareUpdate.Timer.{FuotaState, FuotaSession, fuota_timeouts}
use atlascode.FirmwareUpdate.Sizes.{subpages_cover}
use atlascode.Cycle.{LocalTime, IsClock, calculate_cycle_id, calculate_cycle_id_bounds}
use atlascode.DataType
use atlascode.Records.{
  Number, integer, float32, float64, Double, DlmsRecordMap, fresh, numeric, get_numeric,
  get_numeric_or_default, get_bool, apply_to_numeric,
}
use atlascode.Records.Laws.{apply_to_numeric-get_numeric, get_bool-get_numeric}

abbrev gateway : Bytes
gateway = codes "3CC1F601AB0009FF"

-- Client 1 logs in, and client 2 for the same gateway.
one_login : Reachable (register_client gateway 1 no_clients)
unfolding find
one_login = login gateway 1 no_clients start refl (λ k e. absurd (ground arith))

Reachable-IsConsistent_example :
    IsConsistent (unregister_client gateway 1 (register_client gateway 1 no_clients))
Reachable-IsConsistent_example =
    Reachable-IsConsistent (unregister_client gateway 1 (register_client gateway 1 no_clients))
      (logout gateway 1 (register_client gateway 1 no_clients) one_login)

unregister-register_example :
    find
      (unregister_client gateway 1
        (register_client gateway 2 (register_client gateway 1 no_clients))).g_clients
      (key_of gateway)
    ≡ some 2
unregister-register_example =
    unregister-register gateway gateway 2 1 (register_client gateway 1 no_clients) (ground arith)

registered_twice :
    ((register_client gateway 1 (register_client gateway 1 no_clients)).duplicate_gateway 1 ≡ true)
    × (find
          (register_client gateway 1 (register_client gateway 1 no_clients)).g_clients
          (key_of gateway)
        ≡ some 1)
registered_twice =
    register_client_again gateway 1 (register_client gateway 1 no_clients)
      (register-find_self gateway 1 no_clients)

-- Turns at minutes 7, 8, 20, 21 and 22 of an hour; the activity fails at first.
abbrev turns : List (ℕ × Bool)
turns = (7, false) ∷ (8, true) ∷ (9, true) ∷ (20, true) ∷ (21, true) ∷ []

completed_run : completed 3 turns initial ≡ 0 ∷ 1 ∷ []
unfolding completed tick run_cycle client_hes_cycle_schedule start_cycle get_cycle_id_from_minute
    new_hour mark_hes_cycle_done
completed_run = refl

completed_at_most_once_example : count 1 (completed 3 turns initial) ≤ 1
completed_at_most_once_example = completed_at_most_once 3 turns initial 1 (omega arith)

-- A clock in UTC.
abbrev utc : ℕ → LocalTime
utc s = record { hour = s / 3600 % 24; minute = s / 60 % 60 }

utc-IsClock : IsClock utc
utc-IsClock s = (omega arith, omega arith)

cycle_of_day : (1 ≤ calculate_cycle_id utc 86_399 0) × (calculate_cycle_id utc 86_399 0 ≤ 96)
cycle_of_day = calculate_cycle_id_bounds utc 86_399 0 utc-IsClock

-- Whole numbers in place of `double`: a fraction is cut off, and a float counts as its bits.
abbrev truncate : Number → ℤ
truncate (integer z) = z
truncate (float32 n) = pos n
truncate (float64 n) = pos n

abbrev is_zero_ℤ : ℤ → Bool
is_zero_ℤ (pos n) = n == 0
is_zero_ℤ (negsuc n) = false

abbrev whole : Double ℤ
whole = record {
  cast = truncate;
  zero_double = pos 0;
  one_double = pos 1;
  is_zero = is_zero_ℤ;
  cast-zero = refl;
  cast-one = refl;
  is_zero-zero = refl;
  is_zero-one = refl;
}

abbrev stored : DlmsRecordMap
stored = (7, record fresh { type = DataType.int8; bits = 254 }) ∷ []

get_numeric_run : get_numeric whole stored 7 ≡ some (negsuc 1)
unfolding get_numeric find numeric
get_numeric_run = refl

applied_to_whole :
    apply_to_numeric truncate stored 7 ≡ get_numeric_or_default whole stored 7 (pos 0)
applied_to_whole = apply_to_numeric-get_numeric whole stored 7

whole_as_bool :
    get_bool whole stored 7 false
    ≡ elim (get_numeric whole stored 7) [ none ↦ false | some x ↦ not (is_zero_ℤ x) ]
whole_as_bool = get_bool-get_numeric whole stored 7 false

subpages_cover_example :
    (count : ℕ) × (last : ℕ) × (get_max_sub_page_count 1024 (calculate_dynamic_header_len 3)
      ≡ some count)
    × (get_min_payload_size 1024 (calculate_dynamic_header_len 3) ≡ some last)
    × ((count - 1) * get_max_payload_size (calculate_dynamic_header_len 3) + last ≡ 1024)
    × (last < get_max_payload_size (calculate_dynamic_header_len 3))
subpages_cover_example = subpages_cover 1024 3

-- Ten timeouts, with another route found each time, for a command with an update behind it in the queue.
abbrev timeouts : List AlternateRoute
timeouts = found ∷ found ∷ found ∷ found ∷ found ∷ found ∷ found ∷ found ∷ found ∷ found ∷ []

abbrev command_sent : FuotaSession
command_sent = record {
  cntx = record {
    retry_count = 0;
    max_retries = 3;
    alternate_retry = 0;
    alternate_maxcnt = 2;
    active = false;
  };
  waiting_for_response = true;
  use_alternate_fuota_route = false;
  ondemand_fuota_state = FuotaState.fw_image_transfer;
  cmd_bytes = [];
  queue = codes "next" ∷ [];
  sent = 1;
  failures = 0;
}

ten_timeouts :
    ((fuota_timeouts timeouts command_sent).sent ≡ 8)
    × ((fuota_timeouts timeouts command_sent).failures ≡ 1)
    × ((fuota_timeouts timeouts command_sent).cmd_bytes ≡ codes "next")
unfolding fuota_timeouts
ten_timeouts = (refl, refl, refl)

-- The other handler of timeouts gives a command up at once: nothing starts its context.
never_started :
    command_response_timeout_at_fuota found command_sent.cntx ≡ (terminate, command_sent.cntx)
unfolding command_response_timeout_at_fuota after_action decide_timeout_action stop_retry_context
never_started = refl
