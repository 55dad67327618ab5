-- ===== src/FirmwareUpdate/Timer.antt =====
-- The timer of a firmware update, `TIMER_FUOTA_RESPONSE` of `Client::poll_timeout_handler` in
-- HES/src/client.cpp, with `prepare_alternate_sameroute_retry` of HES/src/fuota.cpp: what is done when no
-- response to the command that was sent comes in time.
use atlascode.Prelude.{ℕ, ◌+◌, Bool, true, false, List, [], ◌∷◌, Bytes, ltb, if◌then◌else◌}
use atlascode.FirmwareUpdate.{
  RetryContext, AlternateRoute, no_payload, no_routers, not_found, found,
  prepare_alternate_route_retry,
}

-- Of `FUOTA_STATE` what the timer tells apart and sets.
pub data FuotaState : Type 0 where
  open_file fw_image_transfer fwimage_of_sector_count network_silence other : FuotaState

-- `sent` counts the calls of `build_and_store_fuota_cmd`, which sends the command again over the route
-- that is set, and waits for its response; `failures` the calls of the database that report a failed
-- update. `queue` is `RF_Meter_FUOTA`.
pub record FuotaSession : Type 0 where
  pub cntx : RetryContext
  pub waiting_for_response : Bool
  pub use_alternate_fuota_route : Bool
  pub ondemand_fuota_state : FuotaState
  pub cmd_bytes : Bytes
  pub queue : List Bytes
  pub sent : ℕ
  pub failures : ℕ

-- What it does to the retry context; the payload is never empty here.
unfoldable pub prepare_alternate_sameroute_retry : AlternateRoute → RetryContext → RetryContext
prepare_alternate_sameroute_retry no_payload c = c
prepare_alternate_sameroute_retry no_routers c = record c {
  retry_count = 0;
  alternate_retry = c.alternate_retry + 1;
}
prepare_alternate_sameroute_retry not_found c = record c {
  retry_count = 0;
  alternate_retry = c.max_retries;
}
prepare_alternate_sameroute_retry found c = record c {
  retry_count = 0;
  alternate_retry = c.alternate_retry + 1;
}

unfoldable pub build_and_store_fuota_cmd : FuotaSession → FuotaSession
build_and_store_fuota_cmd s = record s { waiting_for_response = true; sent = s.sent + 1 }

-- An image is sent on over a route with as many hops.
unfoldable pub prepare_alternate : FuotaState → AlternateRoute → RetryContext → RetryContext
unfolding prepare_alternate_sameroute_retry prepare_alternate_route_retry
prepare_alternate FuotaState.fw_image_transfer route c = prepare_alternate_sameroute_retry route c
prepare_alternate FuotaState.fwimage_of_sector_count route c =
    prepare_alternate_sameroute_retry route c
prepare_alternate FuotaState.open_file route c = prepare_alternate_route_retry route c
prepare_alternate FuotaState.network_silence route c = prepare_alternate_route_retry route c
prepare_alternate FuotaState.other route c = prepare_alternate_route_retry route c

-- The next update of the queue, if there is one.
unfoldable pub next_update : List Bytes → FuotaSession → FuotaSession
next_update [] s = record s { ondemand_fuota_state = network_silence }
next_update (cmd ∷ queue) s = record s {
  cmd_bytes = cmd;
  queue = queue;
  ondemand_fuota_state = open_file;
}

unfoldable pub final_failure : FuotaSession → FuotaSession
unfolding next_update
final_failure s = next_update s.queue (record s {
  cntx = record s.cntx { retry_count = 0; alternate_retry = 0 };
  waiting_for_response = false;
  use_alternate_fuota_route = false;
  failures = s.failures + 1;
})

-- A timeout. A command has a length of at least one byte, so there is a payload.
unfoldable pub fuota_timeout : AlternateRoute → FuotaSession → FuotaSession
unfolding build_and_store_fuota_cmd prepare_alternate final_failure
fuota_timeout route s =
    let c = s.cntx in
    if s.waiting_for_response
    then (if ltb c.retry_count c.max_retries
        then build_and_store_fuota_cmd
            (record s { cntx = record c { retry_count = c.retry_count + 1 } })
        else if ltb c.alternate_retry c.alternate_maxcnt
        then build_and_store_fuota_cmd (record s {
          cntx =
              prepare_alternate s.ondemand_fuota_state route
                (record c { retry_count = 0; alternate_retry = c.alternate_retry + 1 });
          use_alternate_fuota_route = true;
        })
        else final_failure s)
    else s

-- Timeouts in a row, with what each meets where it looks for another route.
unfoldable pub fuota_timeouts : List AlternateRoute → FuotaSession → FuotaSession
unfolding fuota_timeout
fuota_timeouts [] s = s
fuota_timeouts (route ∷ routes) s = fuota_timeouts routes (fuota_timeout route s)
