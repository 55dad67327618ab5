-- ===== src/Push/Reassembly.antt =====
-- A profile that a meter pushes over several packets reaches the database whole, or not at all.
use atlascode.Prelude.{
  ℕ, ◌+◌, ◌≡◌, ◌≢◌, refl, ap, sym, ◌∙◌, Bool, true, List, [], ◌∷◌, ◌++◌, Option, some, Bytes, arith,
  ◌>>=◌, get_elem?, length, take, bind-eq-some,
}
use atlascode.Packet.{Header, to_mac_array}
use atlascode.Push.Profiles.{PacketBuffer, Profile, IsProfile}
use atlascode.Push.{PushData, node_of, count_packet, process_profile}
use atlascode.Push.Laws.{Covers, payload_sum, Handled, process_profile-Handled}

-- A packet as it arrives, with its header and what its records do to a collection.
pub record Page (T : Type 0) : Type 0 where
  pub now : ℕ
  pub buff : Bytes
  pub size : ℕ
  pub header : Header
  pub merge : T → T

module _ {T : Type 0} (p : Profile T) where
  -- A good packet of the node: covered by memory, with the right checksum, and all records parsed.
  pub record IsPage (mac : Bytes) (g : Page T) : Type 0 where
    pub covers : Covers g.buff g.size g.header
    pub checksum : get_elem? g.buff g.header.pmesh_length ≡ some (payload_sum g.buff g.header)
    pub address : to_mac_array g.header.destination_addr ≡ mac
    pub parses :
        (t : T) → p.parse (take g.size g.buff) g.header.no_of_records t ≡ some (true, g.merge t)

  -- Good packets that are not the last ones.
  abbrev pub AreOpenPages : Bytes → List (Page T) → Type 0
  AreOpenPages mac [] = Unit {0}
  AreOpenPages mac (g ∷ gs) = IsPage mac g × (g.header.next_page_status ≢ 0) × AreOpenPages mac gs

  -- The handler on one packet after another.
  unfoldable pub run_pages : List (Page T) → PushData → Option PushData
  run_pages [] st = some st
  run_pages (g ∷ gs) st = do st' ← process_profile p g.now g.buff g.size st; run_pages gs st'

  abbrev pub merge_all : List (Page T) → T → T
  merge_all [] t = t
  merge_all (g ∷ gs) t = merge_all gs (g.merge t)

  abbrev pub counted : Page T → PacketBuffer T → PacketBuffer T
  counted g b = record {
    total_packets_received = b.total_packets_received + 1;
    last_packet_time = g.now;
    profile_data = g.merge b.profile_data;
  }

  module _ {empty : T} (good : IsProfile p empty) (mac : Bytes) where
    recount :
        (g : Page T) (st st' : PushData) (mac' : Bytes) (parsed : Bool) (contents : T)
        → mac' ≡ mac
        → ◌≡◌ {A = Option (Bool × T)}
            (some (parsed, contents))
            (some (true, g.merge (p.view (node_of st mac')).profile_data))
        → Handled p good g.now g.header mac'
            (count_packet p g.now parsed contents (p.view (node_of st mac')))
            st
            st'
        → Handled p good g.now g.header mac (counted g (p.view (node_of st mac))) st st'
    unfolding count_packet
    recount g st st' mac' parsed contents m e handled =
        let ok : parsed ≡ true = cc in
        let all : contents ≡ g.merge (p.view (node_of st mac')).profile_data = cc in
        rw m at (rw (ok, all) at handled)

    page_Handled :
        (g : Page T) (st : PushData)
        → IsPage mac g
        → (st' : PushData) × (process_profile p g.now g.buff g.size st ≡ some st')
          × Handled p good g.now g.header mac (counted g (p.view (node_of st mac))) st st'
    page_Handled g st page =
        let (parsed, contents, st', parse, run, handled) =
          (process_profile-Handled p good g.now g.buff g.size g.header st page.covers).1
            page.checksum in
        (
          st',
          run,
          recount g st st' _ parsed contents page.address (sym parse ∙ page.parses _) handled,
        )

    -- The open pages leave the database alone, and are counted and merged.
    run_open_pages :
        (gs : List (Page T)) (st : PushData)
        → AreOpenPages mac gs
        → (st' : PushData) × (run_pages gs st ≡ some st')
          × (st'.db ≡ st.db)
          × ((p.view (node_of st' mac)).total_packets_received
              ≡ (p.view (node_of st mac)).total_packets_received + length gs)
          × ((p.view (node_of st' mac)).profile_data
              ≡ merge_all gs (p.view (node_of st mac)).profile_data)
    unfolding run_pages
    run_open_pages [] st pages = (st, refl, refl, omega arith, refl)
    run_open_pages (g ∷ gs) st pages =
        let (mid, run, handled) = page_Handled g st pages.0 in
        let (same, seen) = handled.more_pages pages.1 in
        let (st', rest, db, count, data') = run_open_pages gs mid pages.2 in
        (
          st',
          rw run rest,
          db ∙ same,
          omega (arith, count, ap (λ (b : PacketBuffer T). b.total_packets_received) seen),
          data' ∙ ap (λ (b : PacketBuffer T). merge_all gs b.profile_data) seen,
        )

    run_pages-append :
        (gs hs : List (Page T)) (st mid : PushData)
        → run_pages gs st ≡ some mid
        → run_pages (gs ++ hs) st ≡ run_pages hs mid
    unfolding run_pages
    run_pages-append [] hs st mid e = let same : st ≡ mid = ground arith in rw same refl
    run_pages-append (g ∷ gs) hs st mid e =
        let (next, run, rest) =
          bind-eq-some (process_profile p g.now g.buff g.size st) (run_pages gs) e in
        rw run (run_pages-append gs hs next mid rest)

    run_one :
        (g : Page T) (st st' : PushData)
        → process_profile p g.now g.buff g.size st ≡ some st'
        → run_pages (g ∷ []) st ≡ some st'
    unfolding run_pages
    run_one g st st' e = rw e refl

    -- For a profile that reads what it writes: from an empty buffer of a node, good packets of it
    -- that are all but the last open ones are merged in their order. If the last packet's page index
    -- is the number of the packets before it, one insertion is made, of the merged records; with any
    -- other index none is. Both times the buffer is empty again.
    pub run_pages_reassembles :
        (gs : List (Page T)) (last : Page T) (st : PushData)
        → AreOpenPages mac gs
        → IsPage mac last
        → last.header.next_page_status ≡ 0
        → (p.view (node_of st mac)).total_packets_received ≡ 0
        → (p.view (node_of st mac)).profile_data ≡ empty
        → (st' : PushData) × (run_pages (gs ++ last ∷ []) st ≡ some st')
          × (last.header.current_page_index ≡ length gs
              → st'.db
                ≡ st.db
                  ++ p.save last.now mac (record {
                    total_packets_received = length gs + 1;
                    last_packet_time = last.now;
                    profile_data = last.merge (merge_all gs empty);
                  })
                    ∷ [])
          × (last.header.current_page_index ≢ length gs → st'.db ≡ st.db)
          × ((p.view (node_of st' mac)).total_packets_received ≡ 0)
          × ((p.view (node_of st' mac)).profile_data ≡ empty)
    run_pages_reassembles gs last st pages page closed zero_count no_data =
        let (mid, opened, db, count, merged) = run_open_pages gs st pages in
        let (st', run, handled) = page_Handled last mid page in
        let number : (p.view (node_of mid mac)).total_packets_received ≡ length gs = omega arith in
        let whole : (p.view (node_of mid mac)).profile_data ≡ merge_all gs empty =
          merged ∙ ap (merge_all gs) no_data in
        let inserted =
          λ (e : last.header.current_page_index ≡ length gs). handled.saved closed (omega arith) in
        (
          st',
          run_pages-append gs (last ∷ []) st mid opened ∙ run_one last mid st' run,
          λ e. rw (number, whole, db) at (inserted e),
          λ e. handled.dropped closed (λ k. e (omega arith)) ∙ db,
          (handled.last_page closed).0,
          (handled.last_page closed).1,
        )
