-- ===== src/Link/Validation.antt =====
-- The checks of a received packet: `is_valid_packet`, `validate_source_address`,
-- `validate_received_data` and `client_received_data` of HES/src/client.cpp, and `receive_data`.
use atlascode.Prelude.{
  ℕ, zero, suc, ◌+◌, Bool, true, false, ◌||◌, ◌&&◌, List, [], ◌∷◌, Bytes, ◌==◌, if◌then◌else◌,
  get_or, take, drop, bytes_eq,
}
use atlascode.Link.{ClientCurrentState, Code, Arrived, Link}

-- The types 3, 7 and 13 pass with any address.
unfoldable pub validate_source_address : Bytes → Link → Bool
validate_source_address buf l =
    (get_or buf 2 0 == 3 || get_or buf 2 0 == 7 || get_or buf 2 0 == 13)
    || bytes_eq (take 4 (drop 11 buf)) (take 4 l.src_addr_check_buffer)

-- The start byte and the length.
unfoldable pub is_framed : Arrived → Bool
is_framed p = get_or p.rx_buf 0 0 == 46 && get_or p.rx_buf 1 0 + 1 == p.length

-- A framed packet without the mark of push data.
unfoldable pub check_source : Arrived → Link → Bool × Link
unfolding validate_source_address
check_source p l =
    if l.need_to_validate_src_addr
    then (validate_source_address p.rx_buf l, record l { need_to_validate_src_addr = false })
    else (false, l)

unfoldable pub is_valid_packet : Arrived → Link → Bool × Link
unfolding is_framed check_source
is_valid_packet p l =
    if is_framed p && get_or p.rx_buf 17 0 == 44
    then (true, l)
    else if is_framed p
    then check_source p l
    else if l.rollback
    then (true, record l { current_state = ClientCurrentState.idle; rollback = false })
    else (false, l)

unfoldable pub validate_received_data : Arrived → Link → Code × Link
unfolding is_valid_packet
validate_received_data p l =
    let (valid, l') = is_valid_packet p l in (if valid then p.answer else Code.invalid_src_addr, l')

-- The loop over a block's packets with the rounds left: the last packet gives the answer.
unfoldable pub received_loop : ℕ → List Arrived → Code → Link → Code × Link
unfolding validate_received_data
received_loop zero ps ret l = (ret, l)
received_loop (suc rounds) [] ret l = (ret, l)
received_loop (suc rounds) (p ∷ ps) ret l =
    received_loop rounds ps (validate_received_data p l).0 (validate_received_data p l).1

-- Once the connection is set up; eleven rounds at most.
unfoldable pub receive_block : List Arrived → Link → Code × Link
unfolding received_loop
receive_block ps l = received_loop 11 ps Code.success l
