-- ===== src/Tests/Packets.antt =====
-- Packets that are parsed.
use atlascode.Prelude.{
  ℕ, false, ◌+◌, ◌≡◌, refl, Bool, true, List, [], ◌∷◌, ◌++◌, some, Bytes, codes, length, number_key,
  arith,
}
use atlascode.Records.{DlmsRecordMap, fresh}
use atlascode.Parser.{parse_by_type}
use atlascode.Parser.Safety.{Safe, parse_by_type-Safe}
use atlascode.Parser.Encoding.{
  uint8, uint16, octet_string, boolean, word, octets, payload_code, payload_value, encode_payload,
}
use atlascode.Parser.RoundTrip.{Gives, parse_by_type-encode}
use atlascode.Framing.{packets, client_received_data}
use atlascode.Framing.Laws.{packet, ArePackets, block, slices, client_received_data-block}
use atlascode.DlmsRecords.{keep_record, parse_records}
use atlascode.DlmsRecords.Safety.{parse_records_total}
use atlascode.DlmsRecords.RoundTrip.{Entry, encode_entries, keep_all, parse_records-encode}

-- Two bytes of something else, the number 770 as a long, and a byte behind it.
abbrev long_packet : Bytes
long_packet = 9 ∷ 9 ∷ 3 ∷ 2 ∷ 0xAA ∷ []

parse_by_type-encode_example :
    Gives
      (parse_by_type long_packet 2 (payload_code (word uint16 770)) fresh)
      (2 + length (encode_payload (word uint16 770)))
      (payload_value (word uint16 770))
unfolding encode_payload
parse_by_type-encode_example =
    parse_by_type-encode long_packet 2 (0xAA ∷ []) (omega arith) (word uint16 770) (omega arith)
      refl

parse_by_type-Safe_example : Safe long_packet 4 (parse_by_type long_packet 4 0x12 fresh)
parse_by_type-Safe_example = parse_by_type-Safe long_packet 4 0x12 fresh (omega arith)

parse_records_total_example :
    (r : Bool × DlmsRecordMap) × (parse_records keep_record
        (codes "not a packet, but longer than one header")
        3
        []
      ≡ some r)
parse_records_total_example =
    parse_records_total keep_record (codes "not a packet, but longer than one header") 3 []

abbrev header_bytes : Bytes
header_bytes =
    0 ∷ 38 ∷ 0 ∷ 0 ∷ 0 ∷ 0 ∷ 0 ∷ 0 ∷ 0 ∷ 0 ∷ 0 ∷ 1 ∷ 2 ∷ 3 ∷ 4 ∷ 0 ∷ 0 ∷ 0 ∷ 0 ∷ 21 ∷ 0 ∷ 14 ∷ 3 ∷ 0
    ∷ 0 ∷ 3 ∷ []

abbrev entries : List Entry
entries =
    record { record_id = 5; payload = word uint8 7 }
    ∷ record { record_id = 6; payload = boolean true }
    ∷ record { record_id = 9; payload = octets octet_string (codes "ab") }
    ∷ []

parse_records-encode_example :
    parse_records keep_record (header_bytes ++ (encode_entries entries ++ 200 ∷ [])) 3 []
    ≡ some (true, keep_all keep_record [] entries)
parse_records-encode_example =
    parse_records-encode keep_record header_bytes entries 200 3 [] refl (ground arith)

-- A packet of two bytes and one of four, and two bytes of an older block behind them.
abbrev two_packets : List Bytes
two_packets = (0x2B ∷ 1 ∷ []) ∷ (0x2B ∷ 3 ∷ 7 ∷ 8 ∷ []) ∷ []

two_packets-ArePackets : ArePackets two_packets
two_packets-ArePackets = (packet 0x2B [], (packet 0x2B (7 ∷ 8 ∷ []), tt))

client_received_data-block_example :
    (calls : List (ℕ × ℕ)) × (client_received_data false (block two_packets ++ 9 ∷ 9 ∷ []) 6
      ≡ some (packets calls, false))
    × (slices (block two_packets ++ 9 ∷ 9 ∷ []) calls ≡ two_packets)
client_received_data-block_example =
    client_received_data-block two_packets (9 ∷ 9 ∷ []) two_packets-ArePackets (omega arith)
      (omega arith)
