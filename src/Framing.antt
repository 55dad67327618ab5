-- ===== src/Framing.antt =====
-- `Client::client_received_data` of HES/src/client.cpp: how a block of received bytes is taken apart
-- into packets. Each call of `validate_received_data` is shown by the place in the block and the length
-- that it is given.
pub mod Laws
use atlascode.Prelude.{
  ℕ, zero, suc, ◌+◌, Bool, true, false, List, [], ◌∷◌, Option, none, some, Bytes, ltb,
  if◌then◌else◌, ◌>>=◌, get_elem?,
}

-- `MAX_CLIENT_RX_BUFFER`
abbrev pub max_client_rx_buffer : ℕ
max_client_rx_buffer = 4096

-- The loop, with the rounds that are left; `none` is a read behind the end of memory.
unfoldable pub packet_loop : ℕ → Bytes → ℕ → ℕ → Option (List (ℕ × ℕ))
packet_loop zero buffer length offset = some []
packet_loop (suc rounds) buffer length offset =
    if ltb offset length
    then (do
      b ← get_elem? buffer (offset + 1)
      rest ← packet_loop rounds buffer length (offset + (b + 1))
      some ((offset, b + 1) ∷ rest))
    else some []

-- What a block leads to: nothing, the first block of a connection, or packets.
pub data Received : Type 0 where
  abnormal : Received
  init_communication : Received
  packets : List (ℕ × ℕ) → Received

-- With `comm_init_status` before and after. The counter `loop` starts at 10 and ends the loop in the
-- round that finds it at 0, the eleventh.
unfoldable pub client_received_data : Bool → Bytes → ℕ → Option (Received × Bool)
unfolding packet_loop
client_received_data comm_init_status buffer length =
    if ltb max_client_rx_buffer length
    then some (abnormal, comm_init_status)
    else if comm_init_status
    then some (init_communication, false)
    else (do calls ← packet_loop 11 buffer length 0; some (packets calls, false))
