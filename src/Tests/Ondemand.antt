-- ===== src/Tests/Ondemand.antt =====
-- Requests on demand: what they send, how they end, and how an answer is read.
use atlascode.Prelude.{
  ℕ, zero, suc, ◌≡◌, refl, List, [], ◌∷◌, ◌++◌, some, Bytes, codes, length, arith,
}
use atlascode.Hex.RoundTrip.{AreBytes}
use atlascode.Ondemand.Frame.{next_frame, dlms_start}
use atlascode.Ondemand.Frame.Packets.{Parts, packet, right_checksum, IsRouted}
use atlascode.Ondemand.Frame.Laws.{IsTurned, next_frame-IsTurned}
use atlascode.Link.{write_to_client_vector}
use atlascode.Ondemand.Request.{Answer, Odm, handle_connection_failed, dlms_enable}
use atlascode.Ondemand.Request.Steps.{process_odm_request}
use atlascode.Ondemand.Request.Laws.Ends.{IsEnded, process_odm_request-IsEnded}
use atlascode.Ondemand.Values.{Clock}
use atlascode.Ondemand.Profiles.{parse_profile, ProfileData}
use atlascode.Ondemand.Profiles.RoundTrip.{Sent, SentRecord, encode, kept, parse_profile-encode}
use atlascode.Ondemand.Profiles.Safety.{parse_profile-returns}
use atlascode.Ondemand.Events.{EventProfiles, voltage, kind_of, profile_of, parse_events_profile}
use atlascode.Ondemand.Events.Laws.{put_back, parse_events_profile-parse_profile}
use atlascode.Tests.Links.{link}

-- The request for the first page of a name plate over one hop.
abbrev pub name_plate_request : Parts
name_plate_request = record {
  start_byte = 46;
  pmesh_length = 24;
  header = 7 ∷ 0 ∷ 0 ∷ 171 ∷ 205 ∷ 1 ∷ 2 ∷ 3 ∷ 4 ∷ 0 ∷ 1 ∷ 9 ∷ 8 ∷ 7 ∷ 6 ∷ [];
  dlms_length = 7;
  page = 0;
  arguments = 14 ∷ 0 ∷ 0 ∷ 0 ∷ [];
}

name_plate_request-IsRouted : IsRouted 1 name_plate_request
unfolding dlms_start
name_plate_request-IsRouted = record {
  hops = refl;
  few = omega arith;
  filled = refl;
  full = omega arith;
}

-- The gateway announces a second page, times out once and then falls silent.
abbrev waiting : Odm
waiting = record {
  link = link [];
  retry = 1;
  tx_page_index = 0;
  pp_write_payload_tail = 0;
  pmesh_header = [];
  answers = Answer.succes_next_page ∷ Answer.timeout_received ∷ [];
  updates = [];
}

process_odm_request-IsEnded_example : IsEnded 1 0 [] (
    process_odm_request 9 (packet name_plate_request (right_checksum name_plate_request)) 0 waiting)
process_odm_request-IsEnded_example =
    process_odm_request-IsEnded 1 0 9 name_plate_request waiting name_plate_request-IsRouted refl
      refl (omega arith) (omega arith)

next_frame-IsTurned_example :
    IsTurned 1 1 (next_frame 0 1 (packet name_plate_request (right_checksum name_plate_request)))
next_frame-IsTurned_example =
    next_frame-IsTurned 1 name_plate_request name_plate_request-IsRouted (omega arith) 0 (λ e. refl)

-- The second request, as it goes out.
second_request :
    next_frame 0 1 (packet name_plate_request (right_checksum name_plate_request))
    ≡ some (packet (record name_plate_request { page = 1 }) 65)
unfolding next_frame
second_request = refl

abbrev pub clock : Clock ℕ
clock = record { localtime = λ t. some t; strftime = λ t. codes "2025-11-26 10:00:00" }

abbrev sent_records : List SentRecord
sent_records =
    record { data_index = 0; status = 0; value = Sent.string (codes "SN7") }
    ∷ record { data_index = 1; status = 0; value = Sent.uint16 1 2 }
    ∷ record { data_index = 1; status = 0; value = Sent.datetime 104 0 0 0 }
    ∷ []

abbrev page_header : Bytes
page_header = 45 ∷ 0 ∷ 30 ∷ 0 ∷ 14 ∷ 0 ∷ 0 ∷ 0 ∷ []

parse_profile-encode_example :
    parse_profile clock (page_header ++ 3 ∷ (encode sent_records ++ 99 ∷ [])) 40 []
    ≡ some (kept clock sent_records [])
parse_profile-encode_example =
    parse_profile-encode clock page_header (99 ∷ []) sent_records 40 [] refl (omega arith)
      (omega arith)

abbrev zeros : ℕ → Bytes
zeros zero = []
zeros (suc n) = 0 ∷ zeros n

zeros-AreBytes : (n : ℕ) → AreBytes (zeros n)
zeros-AreBytes zero = record {}
zeros-AreBytes (suc n) = (omega arith, zeros-AreBytes n)

length-zeros : (n : ℕ) → length (zeros n) ≡ n
length-zeros zero = refl
length-zeros (suc n) = omega (arith, length-zeros n)

parse_profile-returns_example :
    (m : ProfileData) × (parse_profile clock (zeros 560) 300 [] ≡ some m)
parse_profile-returns_example =
    parse_profile-returns clock (zeros 560) 300 [] (zeros-AreBytes 560)
      (omega (arith, length-zeros 560))

abbrev pub no_events : EventProfiles
no_events = record {
  event_data = [];
  voltage_event = [];
  current_event = [];
  power_event = [];
  transaction_event = [];
  other_event = [];
  non_roll_over_event = [];
  control_event = [];
}

abbrev voltage_page : Bytes
voltage_page = 45 ∷ 0 ∷ 13 ∷ 0 ∷ 14 ∷ 8 ∷ 1 ∷ 0 ∷ 1 ∷ 0 ∷ 0 ∷ 17 ∷ 5 ∷ 0 ∷ 0 ∷ 0 ∷ 0 ∷ 0 ∷ 0 ∷ []

is_voltage : kind_of 1 ≡ some voltage
unfolding kind_of
is_voltage = refl

parse_events_profile-parse_profile_example :
    parse_events_profile clock voltage_page 13 no_events
    ≡ put_back voltage no_events
        (parse_profile clock voltage_page 13 (profile_of voltage no_events))
parse_events_profile-parse_profile_example =
    parse_events_profile-parse_profile clock 1 voltage is_voltage voltage_page 13 no_events refl

-- A meter that cannot be connected leaves the counter of retries at its limit for the next request.
abbrev silent : Odm
silent = record waiting { answers = []; pmesh_header = 46 ∷ [] }

retry_left : (handle_connection_failed silent).1.retry ≡ 3
unfolding handle_connection_failed write_to_client_vector
retry_left = refl

-- A meter that was connected and is lost again gets the command for the connection twice in a packet.
connected : Odm
unfolding handle_connection_failed
connected = (handle_connection_failed (record silent { answers = Answer.dlms_success ∷ [] })).1

enabled_twice :
    (handle_connection_failed connected).1.pmesh_header ≡ 46 ∷ dlms_enable ++ dlms_enable
unfolding connected handle_connection_failed dlms_enable write_to_client_vector
enabled_twice = refl
