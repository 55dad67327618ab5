-- ===== src/Pull/Laws.antt =====
-- When a page is answered by SUCCESS or NEXT_PAGE_PRESENT, and what a refused page leaves.
use atlascode.Prelude.{
  ℕ, ◌+◌, ◌≡◌, ◌≢◌, ◌⊎◌, inl, inr, refl, ap, sym, ◌∙◌, Bool, true, false, not, Option, some, Bytes,
  arith, ◌==◌, ==_iff, if◌then◌else◌, ◌>>=◌, get_elem?, drop, bytes_eq, bytes_eq_sound, Bool-cases,
  bind-eq-some,
}
use atlascode.Packet.{Header, read_header, to_mac_array, copy_packet}
use atlascode.Checksum.{calculate_checksum}
use atlascode.Pull.{
  PageResult, success, failure, next_page_present, NodeInfo, PullProfile, page_result, accept_page,
  process_page,
}

module _ {T : Type 0} (p : PullProfile T) (now : ℕ) where
  -- What is known of a page that was not answered by FAILURE.
  pub record Accepted (buff : Bytes) (n : ℕ) (node node' : NodeInfo) (r : PageResult) : Type 0 where
    pub header : Header
    pub data' : Bytes
    pub contents : T
    pub header_read : read_header buff ≡ some header
    pub checksum :
        calculate_checksum (drop 17 buff) header.dlms_length ≡ get_elem? buff header.pmesh_length
    pub address : to_mac_array header.destination_addr ≡ node.node_mac_address
    pub copied : copy_packet buff n ≡ some data'
    pub parsed :
        p.parse data' header.no_of_records (p.view node).profile_data ≡ some (true, contents)
    pub answer :
        ((r ≡ success) × (header.next_page_status ≡ 0))
        ⊎ ((r ≡ next_page_present) × (header.next_page_status ≡ 1))
    pub updated :
        node'
        ≡ p.update node (record {
          total_packets_received = (p.view node).total_packets_received + 1;
          last_packet_time = now;
          profile_data = contents;
        })

  answer_lem :
      (s : ℕ) (r : PageResult)
      → page_result s ≡ r
      → r ≢ failure
      → ((r ≡ success) × (s ≡ 0)) ⊎ ((r ≡ next_page_present) × (s ≡ 1))
  unfolding page_result
  answer_lem s r e ne = ground arith

  not_failure :
      (node node' : NodeInfo) (r : PageResult)
      → ◌≡◌ {A = Option (PageResult × NodeInfo)} (some (failure, node)) (some (r, node'))
      → r ≡ failure
  not_failure node node' r e = cc

  same_result :
      (a r : PageResult) (node node' : NodeInfo)
      → ◌≡◌ {A = Option (PageResult × NodeInfo)} (some (a, node)) (some (r, node'))
      → (a ≡ r) × (node' ≡ node)
  same_result a r node node' e = (cc, cc)

  counted_page : NodeInfo → T → NodeInfo
  counted_page node contents = p.update node (record {
    total_packets_received = (p.view node).total_packets_received + 1;
    last_packet_time = now;
    profile_data = contents;
  })

  accept_verdict :
      (parsed : Bool) (contents : T) (s : ℕ) (node node' : NodeInfo) (r : PageResult)
      → ◌≡◌ {A = Option (PageResult × NodeInfo)}
          (some (
            if parsed
            then (page_result s, counted_page node contents)
            else (failure, p.update node (record (p.view node) { profile_data = contents }))))
          (some (r, node'))
      → r ≢ failure
      → (parsed ≡ true) × (page_result s ≡ r) × (node' ≡ counted_page node contents)
  accept_verdict true contents s node node' r e ne =
      (refl, (same_result _ r _ node' e).0, (same_result _ r _ node' e).1)
  accept_verdict false contents s node node' r e ne = absurd (ne (not_failure _ node' r e))

  -- The checks behind the two checksums.
  checks_lem :
      (received calculated n : ℕ) (h : Header) (buff : Bytes) (node node' : NodeInfo)
      (r : PageResult)
      → (if not (received == calculated)
          then some (failure, node)
          else if not (bytes_eq (to_mac_array h.destination_addr) node.node_mac_address)
          then some (failure, node)
          else (copy_packet buff n >>= λ v. accept_page p now h v node))
        ≡ some (r, node')
      → r ≢ failure
      → (received ≡ calculated)
        × (to_mac_array h.destination_addr ≡ node.node_mac_address)
        × ((copy_packet buff n >>= λ v. accept_page p now h v node) ≡ some (r, node'))
  checks_lem received calculated n h buff node node' r e ne =
      elim (Bool-cases (received == calculated)) [
        | inr f ↦ absurd (ne (not_failure node node' r (rw f at e)))
        | inl f ↦
            elim (Bool-cases (bytes_eq (to_mac_array h.destination_addr) node.node_mac_address)) [
              | inr g ↦ absurd (ne (not_failure node node' r (rw (f, g) at e)))
              | inl g ↦ ((==_iff received calculated).0 f, bytes_eq_sound _ _ g, rw (f, g) at e)
            ]
      ]

  -- A page is answered by SUCCESS or by NEXT_PAGE_PRESENT only if its checksum is right, it is from
  -- this node, and all its records were parsed; the code says whether it was the last page; and the
  -- node's buffer then holds what was parsed and has counted one packet more.
  pub process_page-Accepted :
      (buff : Bytes) (n : ℕ) (node node' : NodeInfo) (r : PageResult)
      → process_page p now buff n node ≡ some (r, node')
      → r ≢ failure
      → Accepted buff n node node' r
  unfolding process_page accept_page counted_page
  process_page-Accepted buff n node node' r e ne = elim (Bool-cases (n == 0)) [
    | inl z ↦ absurd (ne (not_failure node node' r (rw z at e)))
    | inr z ↦
        let (h, eh, e1) = bind-eq-some (read_header buff) _ (rw z at e) in
        let (received, er, e2) = bind-eq-some (get_elem? buff h.pmesh_length) _ e1 in
        let (calculated, ec, e3) =
          bind-eq-some (calculate_checksum (drop 17 buff) h.dlms_length) _ e2 in
        let (same, address, e4) = checks_lem received calculated n h buff node node' r e3 ne in
        let (v, ev, e5) = bind-eq-some (copy_packet buff n) _ e4 in
        let ((parsed, contents), ep, e6) =
          bind-eq-some (p.parse v h.no_of_records (p.view node).profile_data) _ e5 in
        let (all, answer, updated) =
          accept_verdict parsed contents h.next_page_status node node' r e6 ne in
        record {
          header = h;
          data' = v;
          contents = contents;
          header_read = eh;
          checksum = ec ∙ sym (er ∙ ap some same);
          address = address;
          copied = ev;
          parsed = ep ∙ ap (λ b. some (b, contents)) all;
          answer = answer_lem h.next_page_status r answer ne;
          updated = updated;
        }
  ]
