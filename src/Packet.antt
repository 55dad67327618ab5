-- ===== src/Packet.antt =====
-- The packet of HES/inc/push.h, `PushDataResponse`: a `PmeshPushResponse` of 17 bytes and a
-- `DlmsPushResponse` behind it, laid over the receive buffer with no padding. Also `to_mac_array` of
-- HES/src/push.cpp and HES/src/pull.cpp.
use atlascode.Prelude.{
  ℕ, ◌+◌, ◌*◌, [], ◌∷◌, ◌++◌, Option, none, some, Bytes, leb, if◌then◌else◌, ◌>>=◌, get_elem?,
  length, take, get_elem?_out_of_bounds, Bool-cases, inl, inr, ◌≡◌, ◌≤◌, arith,
}

-- `sizeof(PmeshPushResponse)` and `dlms_header_size`
abbrev pub pmesh_header_size : ℕ
pmesh_header_size = 17

abbrev pub dlms_header_size : ℕ
dlms_header_size = 9

-- The fields that the handlers read; `dlms_length` is `length[0] << 8 | length[1]`.
pub record Header : Type 0 where
  pub pmesh_length : ℕ
  pub destination_addr : Bytes
  pub dlms_length : ℕ
  pub current_page_index : ℕ
  pub frame_id : ℕ
  pub command : ℕ
  pub next_page_status : ℕ
  pub no_of_records : ℕ

-- `none` where the memory behind `buff` ends before the header does.
unfoldable pub read_header : Bytes → Option Header
read_header buff = do
  pmesh_length ← get_elem? buff 1
  a ← get_elem? buff 11
  b ← get_elem? buff 12
  c ← get_elem? buff 13
  d ← get_elem? buff 14
  hi ← get_elem? buff 18
  lo ← get_elem? buff 19
  page ← get_elem? buff 20
  frame ← get_elem? buff 21
  command ← get_elem? buff 22
  next_page ← get_elem? buff 24
  count ← get_elem? buff 25
  some (record {
    pmesh_length = pmesh_length;
    destination_addr = a ∷ b ∷ c ∷ d ∷ [];
    dlms_length = hi * 256 + lo;
    current_page_index = page;
    frame_id = frame;
    command = command;
    next_page_status = next_page;
    no_of_records = count;
  })

abbrev pub proprietary_mac_address : Bytes
proprietary_mac_address = 0x3C ∷ 0xC1 ∷ 0xF6 ∷ 0x01 ∷ []

unfoldable pub to_mac_array : Bytes → Bytes
to_mac_array mac = proprietary_mac_address ++ mac

-- `std::vector<uint8_t> v(buff, buff + length)`
unfoldable pub copy_packet : Bytes → ℕ → Option Bytes
copy_packet buff n = if leb n (length buff) then some (take n buff) else none

-- A header that could be read has all its bytes in memory.
pub read_header-length : (buff : Bytes) (h : Header) → read_header buff ≡ some h → 26 ≤ length buff
unfolding read_header
read_header-length buff h e = elim (Bool-cases (leb 26 (length buff))) [
  | inl long ↦ ground arith
  | inr short ↦
      let missing = get_elem?_out_of_bounds buff 25 (ground arith) in absurd (ground arith)
]
