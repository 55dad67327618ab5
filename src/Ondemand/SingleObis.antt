-- ===== src/Ondemand/SingleObis.antt =====
-- `handle_single_obis_read` of HES/src/client.cpp: the answer to a read or a write of one object of a
-- meter. `data` is that of the `OtaCmdResponse`; reads behind the memory give 0.
use atlascode.Prelude.{
  ℕ, ◌+◌, ◌*◌, ◌%◌, ◌^◌, Bool, true, false, not, ◌&&◌, List, [], ◌∷◌, ◌++◌, Bytes, ◌==◌,
  if◌then◌else◌, get_or, codes,
}
use atlascode.Ondemand.Values.{Clock, format_timestamp}

-- `ODM_SingleObisData`, with `DB_parameter.command` and `pp_write_payload_tail`, the last word of the
-- request.
pub record SingleObisData : Type 0 where
  pub rtc_timestamp : List ℕ
  pub rtc_formatted : Bytes
  pub period_seconds : List ℕ
  pub load_limit : List ℕ
  pub load_status : List ℕ
  pub load_status_str : Bytes
  pub scheduler_timestamp : List ℕ
  pub scheduler_formatted : Bytes
  pub command : List ℕ
  pub sub_command : List ℕ
  pub db_command : ℕ
  pub pp_write_payload_tail : ℕ

abbrev byte_at : Bytes → ℕ → ℕ
byte_at data' i = get_or data' i 0

abbrev word : Bytes → ℕ → ℕ
word data' i = byte_at data' i * 256 + byte_at data' (i + 1)

abbrev long : Bytes → ℕ → ℕ
long data' i = word data' i * 65536 + word data' (i + 2)

module _ {Tm : Type 0} (clock : Clock Tm) where
  unfoldable pub keep_rtc : ℕ → SingleObisData → SingleObisData
  keep_rtc timestamp d = record d {
    rtc_timestamp = d.rtc_timestamp ++ timestamp ∷ [];
    rtc_formatted = format_timestamp clock timestamp;
  }

  -- The time that was written, moved in its place.
  unfoldable pub keep_written_rtc : SingleObisData → SingleObisData
  unfolding keep_rtc
  keep_written_rtc d =
      let timestamp = (d.pp_write_payload_tail + 0x386CF628) % 2 ^ 32 in
      record (keep_rtc timestamp d) { pp_write_payload_tail = timestamp }

  unfoldable pub read_rtc : Bytes → Bool → SingleObisData → Bool × SingleObisData
  unfolding keep_rtc keep_written_rtc
  read_rtc data' reads d =
      if reads
      then (if byte_at data' 11 == 0x19 && byte_at data' 10 == 0
          then (true, keep_rtc ((long data' 12 + 0x386CF628) % 2 ^ 32) d)
          else (false, d))
      else if byte_at data' 7 == 0
      then (true, keep_written_rtc d)
      else (false, d)

  unfoldable pub keep_period : ℕ → SingleObisData → SingleObisData
  keep_period n d = record d { period_seconds = d.period_seconds ++ n ∷ [] }

  unfoldable pub read_period : Bytes → Bool → SingleObisData → Bool × SingleObisData
  unfolding keep_period
  read_period data' reads d =
      if reads
      then (if byte_at data' 11 == 0x06 && byte_at data' 10 == 0
          then (true, keep_period (word data' 14) d)
          else (false, d))
      else if byte_at data' 7 == 0
      then (true, keep_period (d.pp_write_payload_tail % 65536) d)
      else (false, d)

  unfoldable pub keep_limit : ℕ → SingleObisData → SingleObisData
  keep_limit n d = record d { load_limit = d.load_limit ++ n ∷ [] }

  unfoldable pub read_limit : Bytes → Bool → SingleObisData → Bool × SingleObisData
  unfolding keep_limit
  read_limit data' reads d =
      if reads
      then (if byte_at data' 9 == 4 then (true, keep_limit (word data' 14) d) else (false, d))
      else if byte_at data' 7 == 0
      then (true, keep_limit (d.pp_write_payload_tail % 65536) d)
      else (false, d)

  unfoldable pub read_load_status : Bytes → Bool → SingleObisData → SingleObisData
  read_load_status data' reads d =
      if reads
      then record d {
        load_status = d.load_status ++ byte_at data' 11 ∷ [];
        load_status_str = if byte_at data' 11 == 1 then codes "CONNECTED" else codes "DISCONNECTED";
      }
      else record d { load_status = d.load_status ++ byte_at data' 7 ∷ [] }

  unfoldable pub read_schedule : Bytes → SingleObisData → SingleObisData
  read_schedule data' d =
      if (byte_at data' 11 == 1 && byte_at data' 12 == 1 && byte_at data' 10 == 0)
        && byte_at data' 13 == 0x1B
      then record d {
        scheduler_timestamp = d.scheduler_timestamp ++ long data' 14 ∷ [];
        scheduler_formatted = format_timestamp clock (long data' 14);
      }
      else d

  -- The switch: SUCCESS is `true`, INVALID_RESPONSE is `false`.
  unfoldable pub read_object : Bytes → Bool → SingleObisData → Bool × SingleObisData
  unfolding read_rtc read_period read_limit read_load_status read_schedule
  read_object data' reads d =
      if byte_at data' 6 == 2
      then read_rtc data' reads d
      else if byte_at data' 6 == 1
      then read_period data' reads d
      else if byte_at data' 6 == 8
      then read_limit data' reads d
      else if byte_at data' 6 == 9
      then (true, read_load_status data' reads d)
      else if byte_at data' 6 == 7
      then (true, read_schedule data' d)
      else (false, d)

  -- What every answer adds, before its command is looked at.
  unfoldable pub keep_command : Bytes → SingleObisData → SingleObisData
  keep_command data' d = record d {
    command = d.command ++ byte_at data' 5 ∷ [];
    sub_command = d.sub_command ++ byte_at data' 6 ∷ [];
  }

  unfoldable pub handle_single_obis_read : Bytes → SingleObisData → Bool × SingleObisData
  unfolding keep_command read_object
  handle_single_obis_read data' d =
      if not (byte_at data' 5 == 0) && not (byte_at data' 5 == 1)
      then (false, keep_command data' d)
      else read_object data' (byte_at data' 5 == 0)
          (record (keep_command data' d) { db_command = byte_at data' 5 })
