-- ===== src/Ondemand/Events.antt =====
-- `parse_Events_profile` of HES/src/client.cpp with the profiles of `ODMProfiles`, HES/inc/client.h: the
-- seven kinds of events, and the summary of all of them.
pub mod Laws
use atlascode.Prelude.{
  ℕ, zero, suc, ◌+◌, ◌*◌, ◌%◌, ◌≡◌, refl, Bool-cases, inl, inr, Option, none, some, Bytes, leb,
  ◌==◌, [], ◌∷◌, if◌then◌else◌, ◌>>=◌, get_elem?, drop, insert, number_key,
}
use atlascode.Parser.{read_be}
use atlascode.Ondemand.Values.{
  uint8_value, uint16_value, uint32_value, log_dlms_data_type, Clock, extract_dlms_value,
}
use atlascode.Ondemand.Profiles.{
  ProfileData, Field, keep_value, read_field, profile_loop, parse_profile,
}

pub record EventProfiles : Type 0 where
  pub event_data : ProfileData
  pub voltage_event : ProfileData
  pub current_event : ProfileData
  pub power_event : ProfileData
  pub transaction_event : ProfileData
  pub other_event : ProfileData
  pub non_roll_over_event : ProfileData
  pub control_event : ProfileData

-- The summary of a kind of events: sixteen bytes from `base` on, read into six values.
unfoldable pub event_summary : Bytes → ℕ → ProfileData → Option ProfileData
unfolding read_be
event_summary data' base m = do
  event_index ← get_elem? data' base
  no_of_records ← read_be 2 data' (base + 1) 0
  capture_period ← read_be 4 data' (base + 3) 0
  sort_method ← get_elem? data' (base + 7)
  current_entries ← read_be 4 data' (base + 8) 0
  max_records ← read_be 4 data' (base + 12) 0
  some (
      insert m event_index (
        uint8_value event_index
        ∷ uint16_value no_of_records
        ∷ uint32_value capture_period
        ∷ uint8_value sort_method
        ∷ uint32_value current_entries
        ∷ uint32_value max_records
        ∷ []))

-- The profile of a kind of events.
pub data EventKind : Type 0 where
  voltage current power transactional other non_roll_over control : EventKind

unfoldable pub kind_of : ℕ → Option EventKind
kind_of event_type =
    if event_type == 1
    then some voltage
    else if event_type == 2
    then some current
    else if event_type == 3
    then some power
    else if event_type == 4
    then some transactional
    else if event_type == 5
    then some other
    else if event_type == 6
    then some non_roll_over
    else if event_type == 7
    then some control
    else none

unfoldable pub profile_of : EventKind → EventProfiles → ProfileData
profile_of voltage es = es.voltage_event
profile_of current es = es.current_event
profile_of power es = es.power_event
profile_of transactional es = es.transaction_event
profile_of other es = es.other_event
profile_of non_roll_over es = es.non_roll_over_event
profile_of control es = es.control_event

unfoldable pub with_profile : EventKind → ProfileData → EventProfiles → EventProfiles
with_profile voltage m es = record es { voltage_event = m }
with_profile current m es = record es { current_event = m }
with_profile power m es = record es { power_event = m }
with_profile transactional m es = record es { transaction_event = m }
with_profile other m es = record es { other_event = m }
with_profile non_roll_over m es = record es { non_roll_over_event = m }
with_profile control m es = record es { control_event = m }

-- How far the next record is, where no value is read.
unfoldable pub skip_field : Bytes → Option ℕ
unfolding log_dlms_data_type
skip_field here = do
  data_index ← get_elem? here 0
  dlms_status ← get_elem? here 1
  dlms_data_type ← get_elem? here 2
  (data_off, field_len) ← log_dlms_data_type dlms_data_type here
  some (data_off + field_len)

module _ {Tm : Type 0} (clock : Clock Tm) where
  -- A round of the loop with the record `i`: the events, and how far the next record is. The place of a
  -- summary is a `uint8_t`.
  unfoldable pub event_round : ℕ → ℕ → ℕ → Bytes → EventProfiles → Option (ℕ × EventProfiles)
  unfolding event_summary kind_of profile_of with_profile skip_field read_field keep_value
  event_round event_type i offset data' es =
      if event_type == 0
      then (do
        size ← skip_field (drop offset data')
        m ← event_summary data' ((9 + i * 16) % 256) es.event_data
        some (size, record es { event_data = m }))
      else elim (kind_of event_type) [
        | none ↦ (do size ← skip_field (drop offset data'); some (size, es))
        | some kind ↦ (do
          f ← read_field clock (drop offset data')
          some (f.size, with_profile kind (keep_value (profile_of kind es) f) es))
      ]

  -- `n` records are left.
  unfoldable pub events_loop : ℕ → ℕ → ℕ → ℕ → Bytes → ℕ → EventProfiles → Option EventProfiles
  unfolding event_round
  events_loop zero i event_type offset data' length es = some es
  events_loop (suc n) i event_type offset data' length es =
      if leb length offset then some es else (do
        (size, es') ← event_round event_type i offset data' es
        events_loop n (suc i) event_type ((offset + size) % 256) data' length es')

  unfoldable pub parse_events_profile : Bytes → ℕ → EventProfiles → Option EventProfiles
  unfolding events_loop
  parse_events_profile data' length es = do
    record_count ← get_elem? data' 8
    event_type ← get_elem? data' 6
    events_loop record_count 0 event_type 9 data' length es
