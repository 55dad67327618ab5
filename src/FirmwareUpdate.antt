-- ===== src/FirmwareUpdate.antt =====
-- Parts of `Fuota` of HES/src/fuota.cpp: how a sector of a firmware image is divided into subpages, and
-- how often a command is retried. `none` is a division by zero. A sector value has 16 bits.
pub mod Sizes
pub mod Timer
pub mod Retries
use atlascode.Prelude.{
  ℕ, zero, suc, ◌+◌, ◌-◌, ◌*◌, ◌/◌, Bool, true, false, not, ◌||◌, List, [], ◌∷◌, Option, none, some,
  ltb, ◌==◌, if◌then◌else◌, ◌>>=◌,
}

-- `PHY_LAYER_PKT_SIZE` and `FUOTA_CMD_LEN`
abbrev pub phy_layer_pkt_size : ℕ
phy_layer_pkt_size = 128

abbrev pub fuota_cmd_len : ℕ
fuota_cmd_len = 8

unfoldable pub calculate_dynamic_header_len : ℕ → ℕ
calculate_dynamic_header_len routerpath_count =
    if routerpath_count == 1 || routerpath_count == 0 then 13 + 4 else 13 + routerpath_count * 4

-- The test is whether the difference is negative.
unfoldable pub get_max_payload_size : ℕ → ℕ
get_max_payload_size header_len =
    if ltb phy_layer_pkt_size (header_len + fuota_cmd_len)
    then phy_layer_pkt_size - 25
    else phy_layer_pkt_size - header_len - fuota_cmd_len

-- The count is never negative, as the quotient is unsigned and below 2^16.
unfoldable pub get_max_sub_page_count : ℕ → ℕ → Option ℕ
get_max_sub_page_count sector_value header_len =
    if get_max_payload_size header_len == 0
    then none
    else some (sector_value / get_max_payload_size header_len + 1)

unfoldable pub get_min_payload_size : ℕ → ℕ → Option ℕ
get_min_payload_size sector_value header_len = do
  subpage_count ← get_max_sub_page_count sector_value header_len
  some (sector_value - (subpage_count - 1) * get_max_payload_size header_len)

-- `Fuota_retry_contex` with `cntx_active`.
pub record RetryContext : Type 0 where
  pub retry_count : ℕ
  pub max_retries : ℕ
  pub alternate_retry : ℕ
  pub alternate_maxcnt : ℕ
  pub active : Bool

unfoldable pub start_retry_context : RetryContext
start_retry_context = record {
  retry_count = 0;
  max_retries = 3;
  alternate_retry = 0;
  alternate_maxcnt = 2;
  active = true;
}

unfoldable pub stop_retry_context : RetryContext → RetryContext
stop_retry_context c = record c { active = false }

pub data FuotaTimeoutResult : Type 0 where
  retry_same_route retry_alternate_route next_from_queue terminate : FuotaTimeoutResult

unfoldable pub decide_timeout_action : RetryContext → FuotaTimeoutResult × RetryContext
decide_timeout_action c =
    if not c.active
    then (terminate, c)
    else if ltb c.retry_count c.max_retries
    then (retry_same_route, record c { retry_count = c.retry_count + 1 })
    else if ltb c.alternate_retry c.alternate_maxcnt
    then (retry_alternate_route, record c { alternate_retry = c.alternate_retry + 1 })
    else (next_from_queue, c)

-- What `prepare_alternate_route_retry` meets: no payload, no router in the last command, no other route
-- for the last router, or another route.
pub data AlternateRoute : Type 0 where
  no_payload no_routers not_found found : AlternateRoute

-- What it does to the retry context.
unfoldable pub prepare_alternate_route_retry : AlternateRoute → RetryContext → RetryContext
prepare_alternate_route_retry no_payload c = c
prepare_alternate_route_retry no_routers c = record c {
  retry_count = 0;
  alternate_retry = c.alternate_retry + 1;
}
prepare_alternate_route_retry not_found c = record c {
  retry_count = 0;
  alternate_retry = c.alternate_maxcnt;
}
prepare_alternate_route_retry found c = record c {
  retry_count = 0;
  alternate_retry = c.alternate_retry + 1;
}

-- What a timeout makes of the retry context, behind the decision.
unfoldable pub after_action :
    AlternateRoute → FuotaTimeoutResult × RetryContext → FuotaTimeoutResult × RetryContext
after_action route (retry_same_route, c) = (retry_same_route, c)
after_action route (retry_alternate_route, c) =
    (retry_alternate_route, prepare_alternate_route_retry route c)
after_action route (next_from_queue, c) = (next_from_queue, stop_retry_context c)
after_action route (terminate, c) = (terminate, stop_retry_context c)

unfoldable pub command_response_timeout_at_fuota :
    AlternateRoute → RetryContext → FuotaTimeoutResult × RetryContext
command_response_timeout_at_fuota route c = after_action route (decide_timeout_action c)
