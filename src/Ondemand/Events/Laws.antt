-- ===== src/Ondemand/Events/Laws.antt =====
-- The events of a kind, Ondemand.Events, are read as a profile is, Ondemand.Profiles.
use atlascode.Prelude.{
  ℕ, zero, suc, ◌+◌, ◌%◌, ◌≡◌, refl, sym, ap, ◌∙◌, false, Bool-cases, inl, inr, Option, none, some,
  Option-cases, Bytes, leb, ◌==◌, ◌>>=◌, get_elem?, drop, arith,
}
use atlascode.Ondemand.Values.{Clock}
use atlascode.Ondemand.Profiles.{ProfileData, keep_value, read_field, profile_loop, parse_profile}
use atlascode.Ondemand.Events.{
  EventProfiles, EventKind, voltage, current, power, transactional, other, non_roll_over, control,
  kind_of, profile_of, with_profile, event_round, events_loop, parse_events_profile,
}

-- The result of a profile, put back among the events.
abbrev pub put_back : EventKind → EventProfiles → Option ProfileData → Option EventProfiles
put_back kind es o = do m ← o; some (with_profile kind m es)

with_profile_twice :
    (kind : EventKind) (m m' : ProfileData) (es : EventProfiles)
    → with_profile kind m (with_profile kind m' es) ≡ with_profile kind m es
unfolding with_profile
with_profile_twice voltage m m' es = refl
with_profile_twice current m m' es = refl
with_profile_twice power m m' es = refl
with_profile_twice transactional m m' es = refl
with_profile_twice other m m' es = refl
with_profile_twice non_roll_over m m' es = refl
with_profile_twice control m m' es = refl

profile_of-with_profile :
    (kind : EventKind) (m : ProfileData) (es : EventProfiles)
    → profile_of kind (with_profile kind m es) ≡ m
unfolding profile_of with_profile
profile_of-with_profile voltage m es = refl
profile_of-with_profile current m es = refl
profile_of-with_profile power m es = refl
profile_of-with_profile transactional m es = refl
profile_of-with_profile other m es = refl
profile_of-with_profile non_roll_over m es = refl
profile_of-with_profile control m es = refl

with_profile-profile_of :
    (kind : EventKind) (es : EventProfiles) → with_profile kind (profile_of kind es) es ≡ es
unfolding profile_of with_profile
with_profile-profile_of voltage es = refl
with_profile-profile_of current es = refl
with_profile-profile_of power es = refl
with_profile-profile_of transactional es = refl
with_profile-profile_of other es = refl
with_profile-profile_of non_roll_over es = refl
with_profile-profile_of control es = refl

put_back_twice :
    (kind : EventKind) (m : ProfileData) (es : EventProfiles) (o : Option ProfileData)
    → put_back kind (with_profile kind m es) o ≡ put_back kind es o
put_back_twice kind m es none = refl
put_back_twice kind m es (some m') = ap some (with_profile_twice kind m' m es)

not_summary : (t : ℕ) (kind : EventKind) → kind_of t ≡ some kind → (t == 0) ≡ false
unfolding kind_of
not_summary t kind h = ground arith

module _ {Tm : Type 0} (clock : Clock Tm) (event_type : ℕ) (kind : EventKind)
    (known : kind_of event_type ≡ some kind) where
  -- The round behind a record that is read, or not.
  event_round-read :
      (i offset : ℕ) (data' : Bytes) (es : EventProfiles)
      → event_round clock event_type i offset data' es ≡ (
          read_field clock (drop offset data')
          >>= (λ f. some (f.size, with_profile kind (keep_value (profile_of kind es) f) es)))
  unfolding event_round
  event_round-read i offset data' es = rw (not_summary event_type kind known, known) refl

  events_loop-profile_loop :
      (n i offset : ℕ) (data' : Bytes) (size : ℕ) (es : EventProfiles)
      → events_loop clock n i event_type offset data' size es
        ≡ put_back kind es (profile_loop clock n offset data' size (profile_of kind es))
  unfolding events_loop profile_loop
  events_loop-profile_loop zero i offset data' size es =
      ap some (sym (with_profile-profile_of kind es))
  events_loop-profile_loop (suc n) i offset data' size es = elim (Bool-cases (leb size offset)) [
    | inl e ↦ rw e (ap some (sym (with_profile-profile_of kind es)))
    | inr e ↦
        rw (e, event_round-read i offset data' es)
          (elim (Option-cases (read_field clock (drop offset data'))) [
            | inl f ↦ rw f refl
            | inr (f, r) ↦
                let k = keep_value (profile_of kind es) f in
                let es' = with_profile kind k es in
                let o = (offset + f.size) % 256 in
                rw r (
                  events_loop-profile_loop n (suc i) o data' size es'
                  ∙ ap (λ q. put_back kind es' (profile_loop clock n o data' size q))
                      (profile_of-with_profile kind k es)
                  ∙ put_back_twice kind k es (profile_loop clock n o data' size k))
          ])
  ]

  -- A page of events of one of the seven kinds is read as the parser of a profile reads it, into the
  -- profile of that kind, and nothing else changes. The byte that gives the kind is in memory.
  pub parse_events_profile-parse_profile :
      (data' : Bytes) (size : ℕ) (es : EventProfiles)
      → get_elem? data' 6 ≡ some event_type
      → parse_events_profile clock data' size es
        ≡ put_back kind es (parse_profile clock data' size (profile_of kind es))
  unfolding parse_events_profile parse_profile
  parse_events_profile-parse_profile data' size es e = elim (Option-cases (get_elem? data' 8)) [
    | inl f ↦ rw f refl
    | inr (n, f) ↦ rw (f, e) (events_loop-profile_loop n 0 9 data' size es)
  ]
