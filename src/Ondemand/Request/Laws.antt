-- ===== src/Ondemand/Request/Laws.antt =====
-- What `Process_ODM_request` of Ondemand.Request.Steps sends, and that it ends.
pub mod Answers
pub mod Ends
use atlascode.Prelude.{
  ℕ, ◌+◌, ◌-◌, ◌*◌, ◌%◌, ◌≤◌, ◌<◌, ◌≡◌, refl, sym, ap, ◌∙◌, true, false, Bool, if◌then◌else◌, List,
  ◌∷◌, ◌++◌, Option, some, Bytes, length, Bool-cases, inl, inr, arith,
}
use mathlib.Core.Path.{subst}
use atlascode.Link.Laws.{write_to_client_vector-Quiet}
use atlascode.Ondemand.Frame.Packets.{Parts, packet, right_checksum, IsRouted}
use atlascode.Ondemand.Frame.Laws.{IsPageRequest, has_range}
use atlascode.Ondemand.Request.{
  Odm, Locals, Flow, again, stop, write_to_client, resend_packet, dlms_enable,
}

-- What a request adds to the packets written: requests for pages with the right checksum, and the
-- command that connects a meter, behind a mesh header.
pub data Sent (hop_count : ℕ) (before : List Bytes) : List Bytes → Type 0 where
  start : Sent hop_count before before
  page :
      (p : ℕ) {buf : Bytes} {written : List Bytes}
      → IsPageRequest hop_count p buf
      → Sent hop_count before written
      → Sent hop_count before (buf ∷ written)
  connection :
      (header : Bytes) {written : List Bytes}
      → Sent hop_count before written
      → Sent hop_count before ((header ++ dlms_enable) ∷ written)

pub same_written-write_to_client :
    (buf : Bytes) (s : Odm) → (write_to_client buf s).1.link.written ≡ buf ∷ s.link.written
unfolding write_to_client
same_written-write_to_client buf s = (write_to_client_vector-Quiet buf s.link).same_written

-- The turns that a request may still take.
abbrev pub measure : Locals → Odm → ℕ
measure l s = 3 * length s.answers + (4 - l.poll_retry)

module _ (hop_count download_data_type : ℕ) (before : List Bytes) where
  -- The packet asks for the page before `page_index`; there are too few answers for the index to wrap.
  pub record IsSound (l : Locals) (s : Odm) : Type 0 where
    pub parts : Parts
    pub routed : IsRouted hop_count parts
    pub checked : l.buf ≡ packet parts (right_checksum parts)
    pub index : l.page_index ≡ (parts.page + 1) % 256
    pub room : parts.page + length s.answers < 255
    pub ranged : parts.page ≡ 0 → has_range download_data_type (length parts.arguments) ≡ true
    pub polled : 1 ≤ l.poll_retry
    pub polls : l.poll_retry ≤ 3
    pub sent : Sent hop_count before s.link.written

  -- A turn ends the request, or goes on with fewer turns to come than `m`.
  pub data IsSoundFlow (m : ℕ) : Option Flow → Type 0 where
    continues :
        {l : Locals} {s : Odm} → IsSound l s → measure l s < m → IsSoundFlow m (some (again l s))
    stops : {s : Odm} → Sent hop_count before s.link.written → IsSoundFlow m (some (stop s))

  -- The packet and its page are the same.
  pub IsSound-keep :
      {l l' : Locals} {s s' : Odm}
      → IsSound l s
      → l'.buf ≡ l.buf
      → l'.page_index ≡ l.page_index
      → 1 ≤ l'.poll_retry
      → l'.poll_retry ≤ 3
      → length s'.answers ≤ length s.answers
      → Sent hop_count before s'.link.written
      → IsSound l' s'
  IsSound-keep h same_buf same_index polled polls fewer sent = record {
    parts = h.parts;
    routed = h.routed;
    checked = same_buf ∙ h.checked;
    index = same_index ∙ h.index;
    room = omega (arith, h.room);
    ranged = h.ranged;
    polled = polled;
    polls = polls;
    sent = sent;
  }

  pub Sent-write_to_client :
      {l : Locals} {s : Odm}
      → IsSound l s
      → Sent hop_count before (write_to_client l.buf s).1.link.written
  Sent-write_to_client {l} {s} h = rw (same_written-write_to_client l.buf s) (
      page h.parts.page
        (record { parts = h.parts; routed = h.routed; asks = refl; checked = h.checked }) h.sent)

  pub branch :
      {m : ℕ} (b : Bool) {x y : Flow}
      → (b ≡ true → IsSoundFlow m (some x))
      → (b ≡ false → IsSoundFlow m (some y))
      → IsSoundFlow m (some (if b then x else y))
  branch true h k = h refl
  branch false h k = k refl

  pub resend_packet-IsSoundFlow :
      {l : Locals} {s : Odm} (m : ℕ)
      → IsSound l s
      → measure l s < m
      → IsSoundFlow m (some (resend_packet l s))
  unfolding resend_packet write_to_client
  resend_packet-IsSoundFlow {l} {s} m h k =
      let written = Sent-write_to_client h in
      branch (write_to_client l.buf s).0
        (λ e. continues (IsSound-keep h refl refl h.polled h.polls (omega arith) written) k)
        (λ e. stops written)
