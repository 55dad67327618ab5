-- ===== src/Engine.antt =====
-- `client_process_data` of HES/src/client.cpp: what an arrived packet makes of the state in which the
-- client waits. This file has the states of a pull; Engine.Answer has the answers to requests on demand.
pub mod Answer
pub mod Laws
use atlascode.Prelude.{
  ℕ, ◌+◌, ◌-◌, ◌*◌, ◌%◌, Bool, true, false, not, ◌&&◌, ◌||◌, List, [], ◌∷◌, ◌++◌, Option, none,
  some, Bytes, ltb, ◌==◌, if◌then◌else◌, ◌>>=◌, take, drop,
}
use atlascode.Link.{ClientCurrentState, Arrived, Link}
use atlascode.Link.PacketType.{PacketType, at}
use atlascode.Pull.{
  PageResult, NodeInfo, process_nameplate_data, process_daily_load_data, process_block_load_data,
  process_billing_history_data, process_ip_profile_data,
}
use atlascode.Ondemand.Profiles.{ProfileData}
use atlascode.Ondemand.Events.{EventProfiles}
use atlascode.Ondemand.SingleObis.{SingleObisData}

-- The codes that the function returns.
pub data ProcessCode : Type 0 where
  success failure enabled next_page_present dlms_success dlms_error : ProcessCode
  dlms_connection_failed dlms_checksum_error timeout_received command_in_progress : ProcessCode
  pmesh_error push_data_received succes_next_page invalid_response failed_response : ProcessCode

-- `pulls` says whether `targetState` is PULL.
pub record Client : Type 0 where
  pub link : Link
  pub pulls : Bool
  pub current_node : Option NodeInfo
  pub tx_page_index : ℕ
  pub remaining_pkt_cnt : ℕ
  pub name_plate : ProfileData
  pub ip : ProfileData
  pub dlp : ProfileData
  pub blp : ProfileData
  pub bh : ProfileData
  pub events : EventProfiles
  pub single_obis_data : SingleObisData

unfoldable pub of_page : PageResult → ProcessCode
of_page PageResult.success = success
of_page PageResult.failure = failure
of_page PageResult.next_page_present = next_page_present

-- A state of the switch returns a code, or leaves the switch.
pub data Switch : Type 0 where
  return : ProcessCode → Client → Switch
  leave : Switch

-- The answer of a node to a command of the mesh, with its status 0.
unfoldable pub answers_command : Arrived → ℕ → Bool
answers_command p command = at p 2 == 4 && at p 15 == command && at p 16 == 0

-- A packet of the type that was sent, whose last byte says that the command is in progress.
unfoldable pub in_progress : Arrived → ℕ → Client → Switch
in_progress p packet_type c =
    if at p 2 == packet_type && at p (at p 1) == 7 then return command_in_progress c else leave

unfoldable pub fuota_status : Arrived → Client → Switch
unfolding answers_command in_progress
fuota_status p c =
    if answers_command p 0x9B && at p 17 == 0
    then return success c
    else if answers_command p 0x9B && at p 17 == 1
    then return enabled c
    else in_progress p 3 c

-- FUOTA_DISABLE, FLASH_SAVE and SOFT_RESET, which differ in the command.
unfoldable pub mesh_command : ℕ → Arrived → Client → Switch
unfolding answers_command in_progress
mesh_command command p c = if answers_command p command then return success c else in_progress p 3 c

unfoldable pub dlms_connect : Arrived → Client → Switch
unfolding in_progress
dlms_connect p c =
    if at p 17 == 0x2D && at p 2 == 8
    then (if at p 24 == 0 || at p 24 == 2
        then return success c
        else if at p 24 == 1
        then return dlms_connection_failed c
        else leave)
    else in_progress p 7 c

-- What a handler of pages gives for the current node.
unfoldable pub handled : Option (PageResult × Option NodeInfo) → Client → Option Switch
unfolding of_page
handled none c = none
handled (some (r, node)) c = some (return (of_page r) (record c { current_node = node }))

-- NAMEPLATE, DAILY_LOAD, BLOCK_LOAD and BILLING_HISTORY, which differ in the command and the handler.
unfoldable pub page_answer :
    ℕ
    → (Bytes → ℕ → Option NodeInfo → Option (PageResult × Option NodeInfo))
    → Arrived
    → Client
    → Option Switch
unfolding in_progress handled
page_answer command handle p c =
    if (at p 0 == 0x2E && at p 17 == 0x2D) && at p 2 == 8
    then (if at p 21 == 0x0E && at p 22 == command
        then (if at p 25 == 0 && ((at p 26 == 0x0E && at p 27 == 1) && at p 28 == 0x28)
            then some (return dlms_error c)
            else handled (handle p.rx_buf p.length c.current_node) c)
        else if (at p 24 == 0x0E && at p 25 == 1) && at p 26 == 0x25
        then some (return dlms_connection_failed c)
        else some leave)
    else some (in_progress p 7 c)

unfoldable pub ip_answer : ℕ → Arrived → Client → Option Switch
unfolding in_progress handled
ip_answer now p c =
    if ((at p 0 == 0x2E && at p 17 == 0x2D) && at p 2 == 8) && (at p 21 == 0x0C && at p 22 == 1)
    then handled (process_ip_profile_data now p.rx_buf p.length c.current_node) c
    else some (in_progress p 7 c)

-- The length of the copy is the packet's length byte less 16, an `int` that becomes a `size_t`: `none`
-- is the copy of a negative length.
unfoldable pub internal_fv : NodeInfo → Arrived → Client → Option Switch
unfolding in_progress
internal_fv node p c =
    if at p 2 == 4 && at p 16 == 0
    then (if ltb (at p 1) 16
        then none
        else some (
            return success (record c {
              current_node = some (record node {
                internal_firmware_version =
                    take (at p 1 - 16) (drop 17 p.rx_buf)
                    ++ drop (at p 1 - 16) node.internal_firmware_version;
              });
            })))
    else some (in_progress p 3 c)

-- `if (!this->currentNode)`
unfoldable pub on_current_node :
    (NodeInfo → Arrived → Client → Option Switch) → Arrived → Client → Option Switch
on_current_node f p c = elim c.current_node [
  | none ↦ some (return failure c)
  | some node ↦ f node p c
]

-- The switch on `currentState`.
unfoldable pub pull_answer : ℕ → ClientCurrentState → Arrived → Client → Option Switch
unfolding fuota_status mesh_command dlms_connect page_answer ip_answer internal_fv on_current_node
pull_answer now ClientCurrentState.idle p c = some leave
pull_answer now ClientCurrentState.fuota_status p c = some (fuota_status p c)
pull_answer now ClientCurrentState.fuota_disable p c = some (mesh_command 0x9B p c)
pull_answer now ClientCurrentState.flash_save p c = some (mesh_command 0x02 p c)
pull_answer now ClientCurrentState.soft_reset p c = some (mesh_command 0x01 p c)
pull_answer now ClientCurrentState.dlms_connect p c = some (dlms_connect p c)
pull_answer now ClientCurrentState.internal_fv p c = on_current_node internal_fv p c
pull_answer now ClientCurrentState.nameplate p c =
    on_current_node (λ node. page_answer 0 (process_nameplate_data now)) p c
pull_answer now ClientCurrentState.instantaneous_profile p c =
    on_current_node (λ node. ip_answer now) p c
pull_answer now ClientCurrentState.daily_load p c =
    on_current_node (λ node. page_answer 3 (process_daily_load_data now)) p c
pull_answer now ClientCurrentState.block_load p c =
    on_current_node (λ node. page_answer 4 (process_block_load_data now)) p c
pull_answer now ClientCurrentState.billing_history p c =
    on_current_node (λ node. page_answer 2 (process_billing_history_data now)) p c
