-- ===== src/Push/Laws.antt =====
-- What one pushed packet does to the state.
use atlascode.Prelude.{
  ℕ, ◌+◌, ◌≤◌, ◌<◌, ◌≡◌, ◌≢◌, inl, inr, refl, ap, ◌∙◌, Bool, false, not, List, [], ◌∷◌, ◌++◌, none,
  some, Bytes, arith, ◌==◌, if◌then◌else◌, get_elem?, drop, length, bytes_key, bytes_eq, Bool-cases,
  Option-cases, find-insert_self, find-insert_other, take, ◌%◌, length-drop, get_elem?_in_bounds,
  ==_refl,
}
use atlascode.Packet.{Header, read_header, read_header-length, to_mac_array, copy_packet}
use atlascode.Checksum.{total, calculate_checksum_lem, calculate_checksum_fault}
use atlascode.Push.Profiles.{PacketBuffer, PushNodeInfo, DbInsert, Profile, IsProfile}
use atlascode.Push.{
  PushData, node_of, put_node, count_packet, close_page, accept_packet, process_profile,
}

node_of-put_node :
    (st : PushData) (mac : Bytes) (n : PushNodeInfo) (db : List DbInsert)
    → node_of (record (put_node st mac n) { db = db }) mac ≡ n
unfolding node_of put_node
node_of-put_node st mac n db = rw (find-insert_self st.push_node_info mac n, node_of) refl

node_of-put_node_other :
    (st : PushData) (mac other : Bytes) (n : PushNodeInfo) (db : List DbInsert)
    → bytes_eq mac other ≡ false
    → node_of (record (put_node st mac n) { db = db }) other ≡ node_of st other
unfolding node_of put_node
node_of-put_node_other st mac other n db h =
    rw (find-insert_other st.push_node_info mac other n h, node_of) refl

module _ {T : Type 0} (p : Profile T) {empty : T} (good : IsProfile p empty) (now : ℕ) where
  -- What a packet with a header `h`, for the node `mac`, leaves behind, if `b` is the node's buffer
  -- with the packet counted.
  pub record Handled (h : Header) (mac : Bytes) (b : PacketBuffer T) (st st' : PushData)
      : Type 0 where
    pub others : (m : Bytes) → bytes_eq mac m ≡ false → node_of st' m ≡ node_of st m
    pub more_pages : h.next_page_status ≢ 0 → (st'.db ≡ st.db) × (p.view (node_of st' mac) ≡ b)
    pub last_page :
        h.next_page_status ≡ 0
        → ((p.view (node_of st' mac)).total_packets_received ≡ 0)
          × ((p.view (node_of st' mac)).profile_data ≡ empty)
    pub saved :
        h.next_page_status ≡ 0
        → b.total_packets_received ≡ h.current_page_index + 1
        → st'.db ≡ st.db ++ p.save now mac b ∷ []
    pub dropped :
        h.next_page_status ≡ 0
        → b.total_packets_received ≢ h.current_page_index + 1
        → st'.db ≡ st.db

  update_seen :
      (st : PushData) (mac : Bytes) (b : PacketBuffer T) (db : List DbInsert)
      → p.view (node_of (record (put_node st mac (p.update (node_of st mac) b)) { db = db }) mac)
        ≡ b
  update_seen st mac b db =
      rw (node_of-put_node st mac (p.update (node_of st mac) b) db) (good.view-update _ b)

  module _ (h : Header) (mac : Bytes) (b : PacketBuffer T) (st : PushData) where
    written : PacketBuffer T → List DbInsert → PushData
    written c db = record (put_node st mac (p.update (node_of st mac) c)) { db = db }

    open_page-Handled : h.next_page_status ≢ 0 → Handled h mac b st (written b st.db)
    unfolding written
    open_page-Handled more = record {
      others = λ m e. node_of-put_node_other st mac m _ st.db e;
      more_pages = λ _. (refl, update_seen st mac b st.db);
      last_page = λ e. absurd (more e);
      saved = λ e. absurd (more e);
      dropped = λ e. absurd (more e);
    }

    closed_page-Handled :
        (db : List DbInsert)
        → h.next_page_status ≡ 0
        → (b.total_packets_received ≡ h.current_page_index + 1
            → db ≡ st.db ++ p.save now mac b ∷ [])
        → (b.total_packets_received ≢ h.current_page_index + 1 → db ≡ st.db)
        → Handled h mac b st (written (p.reset b) db)
    unfolding written
    closed_page-Handled db last full partial = record {
      others = λ m e. node_of-put_node_other st mac m _ db e;
      more_pages = λ more. absurd (more last);
      last_page = λ _. (
        ap (λ (c : PacketBuffer T). c.total_packets_received) (update_seen st mac (p.reset b) db)
            ∙ good.reset_count b,
        ap (λ (c : PacketBuffer T). c.profile_data) (update_seen st mac (p.reset b) db)
            ∙ good.reset_data b,
      );
      saved = λ _. full;
      dropped = λ _. partial;
    }

    close_page-Handled : Handled h mac b st (close_page p now h mac b st)
    unfolding close_page put_node written
    close_page-Handled = elim (Bool-cases (h.next_page_status == 0)) [
      | inr e ↦ rw e (open_page-Handled (ground arith))
      | inl e ↦ elim (Bool-cases (b.total_packets_received == h.current_page_index + 1)) [
        | inl f ↦
            rw (e, f)
              (closed_page-Handled _ (ground arith) (λ _. refl) (λ k. absurd (ground arith)))
        | inr f ↦
            rw (e, f)
              (closed_page-Handled _ (ground arith) (λ k. absurd (ground arith)) (λ _. refl))
      ]
    ]

-- The memory behind `buff` holds all that the header of the packet announces, and the packet.
pub record Covers (buff : Bytes) (n : ℕ) (h : Header) : Type 0 where
  pub header : read_header buff ≡ some h
  pub checksum_inside : h.pmesh_length < length buff
  pub data_inside : 17 + h.dlms_length ≤ length buff
  pub packet_inside : n ≤ length buff

-- The sum of the bytes that the checksum is about.
abbrev pub payload_sum : Bytes → Header → ℕ
payload_sum buff h = total (take h.dlms_length (drop 17 buff)) % 256

-- The buffer of the node that a packet is from.
abbrev pub buffer_before : {T : Type 0} → Profile T → Header → PushData → PacketBuffer T
buffer_before p h st = p.view (node_of st (to_mac_array h.destination_addr))

module _ {T : Type 0} (p : Profile T) {empty : T} (good : IsProfile p empty) (now : ℕ)
    (buff : Bytes) (n : ℕ) (h : Header) (st : PushData) where
  checked :
      Covers buff n h
      → (r : ℕ) → get_elem? buff h.pmesh_length ≡ some r
      → process_profile p now buff n st
        ≡ (if not (r == payload_sum buff h) then some st else accept_packet p now buff n h st)
  unfolding process_profile
  checked c r e =
      rw
        (
          c.header,
          e,
          calculate_checksum_lem (drop 17 buff) h.dlms_length
              (omega (arith, length-drop 17 buff, c.data_inside)),
        )
        refl

  copy_packet_inside : n ≤ length buff → copy_packet buff n ≡ some (take n buff)
  unfolding copy_packet
  copy_packet_inside k = ground arith

  -- For a profile that reads what it writes, and where memory covers the header and the packet: if
  -- the byte behind the packet is not the sum of the data, a handler leaves the state alone.
  -- Otherwise it parses the packet into the node's buffer and counts it if the parser is content,
  -- and then: other nodes keep their buffers; before the last page nothing is saved and the buffer
  -- stays; with the last page the buffer is emptied, and it is saved exactly if it has counted one
  -- packet for each page.
  pub process_profile-Handled :
      Covers buff n h
      → (get_elem? buff h.pmesh_length ≢ some (payload_sum buff h)
          → process_profile p now buff n st ≡ some st)
        × (get_elem? buff h.pmesh_length ≡ some (payload_sum buff h)
            → (parsed : Bool) × (contents : T) × (st' : PushData) × (p.parse
                  (take n buff)
                  h.no_of_records
                  (buffer_before p h st).profile_data
                ≡ some (parsed, contents))
              × (process_profile p now buff n st ≡ some st')
              × Handled p good now h
                  (to_mac_array h.destination_addr)
                  (count_packet p now parsed contents (buffer_before p h st))
                  st
                  st')
  unfolding accept_packet
  process_profile-Handled c = (refused, accepted)
    where
      refused :
          get_elem? buff h.pmesh_length ≢ some (payload_sum buff h)
          → process_profile p now buff n st ≡ some st
      refused differs =
          let (r, e) = get_elem?_in_bounds buff h.pmesh_length c.checksum_inside in
          let other : (r == payload_sum buff h) ≡ false = ground (arith, differs) in
          checked c r e ∙ rw other refl

      accepted :
          get_elem? buff h.pmesh_length ≡ some (payload_sum buff h)
          → (parsed : Bool) × (contents : T) × (st' : PushData) × (p.parse
                (take n buff)
                h.no_of_records
                (buffer_before p h st).profile_data
              ≡ some (parsed, contents))
            × (process_profile p now buff n st ≡ some st')
            × Handled p good now h
                (to_mac_array h.destination_addr)
                (count_packet p now parsed contents (buffer_before p h st))
                st
                st'
      accepted same =
          let mac = to_mac_array h.destination_addr in
          let ((parsed, contents), e) =
            good.parse_total (take n buff) h.no_of_records (buffer_before p h st).profile_data in
          (
            parsed,
            contents,
            close_page p now h mac (count_packet p now parsed contents (buffer_before p h st)) st,
            e,
            checked c (payload_sum buff h) same
                ∙ rw (==_refl (payload_sum buff h), copy_packet_inside c.packet_inside, e) refl,
            close_page-Handled p good now h mac
                (count_packet p now parsed contents (buffer_before p h st)) st,
          )

  -- Where a header can be read and announces more data than there is memory behind it, a handler's
  -- checksum loop reads out of bounds.
  pub process_profile_overread :
      read_header buff ≡ some h
      → length buff < 17 + h.dlms_length
      → process_profile p now buff n st ≡ none
  unfolding process_profile
  process_profile_overread e long = elim (Option-cases (get_elem? buff h.pmesh_length)) [
    | inl f ↦ rw (e, f) refl
    | inr (r, f) ↦
        rw
          (
            e,
            f,
            calculate_checksum_fault (drop 17 buff) h.dlms_length
                (omega (arith, length-drop 17 buff, read_header-length buff h e)),
          )
          refl
  ]
