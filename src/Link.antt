-- ===== src/Link.antt =====
-- The link of `Client` to its gateway, HES/src/client.cpp: what is written to the socket, what a receive
-- brings, and the state that both change. The environment is part of the state: what each call of
-- `send` takes, and what each call of `recv` brings.
pub mod Frames
pub mod Validation
pub mod Laws
pub mod PacketType
pub mod Transmit
use atlascode.Prelude.{
  ℕ, ◌+◌, ◌-◌, ◌*◌, Bool, true, false, ◌||◌, ◌&&◌, List, [], ◌∷◌, Option, none, some, Bytes, ltb,
  ◌==◌, if◌then◌else◌, get_or, take, drop, length,
}

-- The states of `stateInfo.currentState` that the requests set.
pub data ClientCurrentState : Type 0 where
  idle fuota_status fuota_disable flash_save soft_reset dlms_connect internal_fv :
      ClientCurrentState
  nameplate instantaneous_profile daily_load block_load billing_history : ClientCurrentState

-- What answers a packet; `other` stands for the codes that no caller names.
pub data Code : Type 0 where
  success failure enabled next_page_present dlms_connection_failed dlms_error dlms_success : Code
  command_in_progress invalid_src_addr push_data_received other : Code

-- A packet in a received block: the memory from its first byte on, its length, and what
-- `client_process_data` answers to it.
pub record Arrived : Type 0 where
  pub rx_buf : Bytes
  pub length : ℕ
  pub answer : Code

-- What a call of `recv` brings: nothing in time, with `duplicate_gateway` at that moment; the end of
-- the connection; an error; a block of packets.
pub data Arrival : Type 0 where
  silence : Bool → Arrival
  hang_up receive_error : Arrival
  block : List Arrived → Arrival

-- `gateway_status` says whether `gatewayStatus` is `CONNECTED`; `rollback` whether the firmware update
-- is in the state `ROLLBACK_TO_NORMAL_COMM_MODE`; `written` the packets given to
-- `write_to_client_vector`, the last one first.
pub record Link : Type 0 where
  pub gateway_status : Bool
  pub need_to_validate_src_addr : Bool
  pub src_addr_check_buffer : Bytes
  pub current_state : ClientCurrentState
  pub rollback : Bool
  pub panid : Bytes
  pub serial_number : Bytes
  pub written : List Bytes
  pub sends : List (Option ℕ)
  pub arrivals : List Arrival

-- Bytes 0, 2 and 12 are the start byte, the type and the number of routers; the addresses start at
-- byte 13.
unfoldable pub destination_offset : Bytes → ℕ
destination_offset buf = if get_or buf 12 0 == 0 then 13 else 13 + (get_or buf 12 0 - 1) * 4

unfoldable pub get_destination_address : Bytes → Link → Link
unfolding destination_offset
get_destination_address buf l =
    if (get_or buf 0 0 == 46 || get_or buf 0 0 == 42)
      && (get_or buf 2 0 == 13 || get_or buf 2 0 == 7 || get_or buf 2 0 == 3)
    then record l {
      src_addr_check_buffer = take 4 (drop (destination_offset buf) buf);
      need_to_validate_src_addr = true;
    }
    else l

-- The loop over `send`: what is left to write, and what the calls take. A negative answer fails; 0
-- ends the loop. When the list is at its end, `send` takes all.
unfoldable pub send_loop : List (Option ℕ) → ℕ → Link → Bool × Link
send_loop [] left l = (true, record l { sends = [] })
send_loop (s ∷ sends) left l =
    if left == 0 then (true, record l { sends = s ∷ sends }) else elim s [
      | none ↦ (false, record l { gateway_status = false; sends = sends })
      | some n ↦
          if n == 0
          then (true, record l { gateway_status = false; sends = sends })
          else send_loop sends (left - n) l
    ]

unfoldable pub write_to_client_vector : Bytes → Link → Bool × Link
unfolding send_loop get_destination_address
write_to_client_vector buff l =
    send_loop l.sends (length buff)
      (get_destination_address buff (record l { written = buff ∷ l.written }))
