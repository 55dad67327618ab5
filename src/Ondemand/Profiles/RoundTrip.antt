-- ===== src/Ondemand/Profiles/RoundTrip.antt =====
-- Records written one behind the other and read back by `parse_profile` of Ondemand.Profiles.
use atlascode.Prelude.{
  ℕ, ◌+◌, ◌*◌, ◌%◌, ◌≤◌, ◌<◌, ◌≡◌, refl, ◌∙◌, List, [], ◌∷◌, ◌++◌, Option, some, Bytes, leb, ◌==◌,
  drop, length, arith, not, false, length-append, take-append, drop-skip, drop-suc, drop-append,
}
use mathlib.Core.List.{append_assoc}
use atlascode.Prelude.Signed.{signed}
use atlascode.DataType
use atlascode.Ondemand.Buffer.{get_elem?-behind}
use atlascode.Ondemand.Values.{
  DlmsValue, bool_value, int8_value, int16_value, int32_value, uint8_value, uint16_value,
  uint32_value, octet_string_value, string_value, log_dlms_data_type, Clock, shifted_moment,
  extract_dlms_value, field_bytes,
}
use atlascode.Ondemand.Profiles.{
  ProfileData, push_value, Field, keep_value, read_field, profile_loop, parse_profile,
}

-- What a meter sends: numbers with the highest byte first, and strings behind their length.
pub data Sent : Type 0 where
  boolean int8 uint8 : ℕ → Sent
  int16 uint16 : ℕ → ℕ → Sent
  int32 uint32 datetime : ℕ → ℕ → ℕ → ℕ → Sent
  octet_string string : Bytes → Sent

-- The type and the bytes behind it.
abbrev pub encode_value : Sent → Bytes
encode_value (boolean b) = DataType.boolean ∷ b ∷ []
encode_value (int8 b) = DataType.int8 ∷ b ∷ []
encode_value (uint8 b) = DataType.uint8 ∷ b ∷ []
encode_value (int16 a b) = DataType.int16 ∷ a ∷ b ∷ []
encode_value (uint16 a b) = DataType.uint16 ∷ a ∷ b ∷ []
encode_value (int32 a b c d) = DataType.int32 ∷ a ∷ b ∷ c ∷ d ∷ []
encode_value (uint32 a b c d) = DataType.uint32 ∷ a ∷ b ∷ c ∷ d ∷ []
encode_value (datetime a b c d) = DataType.datetime ∷ a ∷ b ∷ c ∷ d ∷ []
encode_value (octet_string bs) = DataType.octet_string ∷ length bs ∷ bs
encode_value (string bs) = DataType.string ∷ length bs ∷ bs

-- A record with its index and its status.
pub record SentRecord : Type 0 where
  pub data_index : ℕ
  pub status : ℕ
  pub value : Sent

abbrev pub encode_record : SentRecord → Bytes
encode_record r = r.data_index ∷ r.status ∷ encode_value r.value

abbrev pub encode : List SentRecord → Bytes
encode [] = []
encode (r ∷ rs) = encode_record r ++ encode rs

abbrev be4 : ℕ → ℕ → ℕ → ℕ → ℕ
be4 a b c d = ((a * 256 + b) * 256 + c) * 256 + d

module _ {Tm : Type 0} (clock : Clock Tm) where
  -- What the bytes stand for: two's complement for the signed ones.
  abbrev pub meaning : Sent → DlmsValue
  meaning (boolean b) = bool_value (not (b == 0))
  meaning (int8 b) = int8_value (signed 128 b)
  meaning (uint8 b) = uint8_value b
  meaning (int16 a b) = int16_value (signed 32768 (a * 256 + b))
  meaning (uint16 a b) = uint16_value (a * 256 + b)
  meaning (int32 a b c d) = int32_value (signed 2147483648 (be4 a b c d))
  meaning (uint32 a b c d) = uint32_value (be4 a b c d)
  meaning (datetime a b c d) = shifted_moment clock (be4 a b c d)
  meaning (octet_string bs) = octet_string_value bs
  meaning (string bs) = string_value bs

  -- The values of the records, kept under their indices in order.
  abbrev pub kept : List SentRecord → ProfileData → ProfileData
  kept [] m = m
  kept (r ∷ rs) m = kept rs (push_value m r.data_index (meaning r.value))

  read_string : (bs rest : Bytes) → field_bytes (bs ++ rest) (length bs) ≡ some bs
  unfolding field_bytes
  read_string bs rest =
      let n = length-append bs rest in rw (take-append (length bs) bs rest refl) (ground arith)

  -- The record that stands here is read whole, and kept.
  record IsRead (data_index : ℕ) (v : Sent) (o : Option Field) : Type 0 where
    field : Field
    read : o ≡ some field
    size : field.size ≡ 1 + length (encode_value v) + 1
    keeps : (m : ProfileData) → keep_value m field ≡ push_value m data_index (meaning v)

  abbrev found : ℕ → ℕ → DlmsValue → ℕ → Field
  found i t v n = record { data_index = i; dlms_data_type = t; value = v; size = 3 + n }

  no_carry : (b : ℕ) → 0 + b ≡ b
  no_carry b = omega arith

  read_field-IsRead :
      (i s : ℕ) (v : Sent) (rest : Bytes)
      → IsRead i v (read_field clock (i ∷ s ∷ encode_value v ++ rest))
  unfolding read_field log_dlms_data_type extract_dlms_value keep_value
  read_field-IsRead i s (boolean b) rest =
      let field = found i DataType.boolean (meaning (boolean b)) 1 in
      record { field = field; read = refl; size = refl; keeps = λ m. refl }
  read_field-IsRead i s (int8 b) rest =
      let field = found i DataType.int8 (meaning (int8 b)) 1 in
      record { field = field; read = rw (no_carry b) refl; size = refl; keeps = λ m. refl }
  read_field-IsRead i s (uint8 b) rest =
      let field = found i DataType.uint8 (meaning (uint8 b)) 1 in
      record { field = field; read = rw (no_carry b) refl; size = refl; keeps = λ m. refl }
  read_field-IsRead i s (int16 a b) rest =
      let field = found i DataType.int16 (meaning (int16 a b)) 2 in
      record { field = field; read = rw (no_carry a) refl; size = refl; keeps = λ m. refl }
  read_field-IsRead i s (uint16 a b) rest =
      let field = found i DataType.uint16 (meaning (uint16 a b)) 2 in
      record { field = field; read = rw (no_carry a) refl; size = refl; keeps = λ m. refl }
  read_field-IsRead i s (int32 a b c d) rest =
      let field = found i DataType.int32 (meaning (int32 a b c d)) 4 in
      record { field = field; read = rw (no_carry a) refl; size = refl; keeps = λ m. refl }
  read_field-IsRead i s (uint32 a b c d) rest =
      let field = found i DataType.uint32 (meaning (uint32 a b c d)) 4 in
      record { field = field; read = rw (no_carry a) refl; size = refl; keeps = λ m. refl }
  read_field-IsRead i s (datetime a b c d) rest =
      let field = found i DataType.datetime (meaning (datetime a b c d)) 4 in
      record { field = field; read = rw (no_carry a) refl; size = refl; keeps = λ m. refl }
  read_field-IsRead i s (octet_string bs) rest = record {
    field = record {
      data_index = i;
      dlms_data_type = DataType.octet_string;
      value = octet_string_value bs;
      size = 4 + length bs;
    };
    read = rw (read_string bs rest) refl;
    size = omega arith;
    keeps = λ m. refl;
  }
  read_field-IsRead i s (string bs) rest = record {
    field = record {
      data_index = i;
      dlms_data_type = DataType.string;
      value = string_value bs;
      size = 4 + length bs;
    };
    read = rw (read_string bs rest) refl;
    size = omega arith;
    keeps = λ m. refl;
  }

  profile_loop-encode :
      (rs : List SentRecord) (offset : ℕ) (data' rest : Bytes) (n : ℕ) (m : ProfileData)
      → drop offset data' ≡ encode rs ++ rest
      → offset + length (encode rs) ≤ n
      → n < 256
      → profile_loop clock (length rs) offset data' n m ≡ some (kept rs m)
  unfolding profile_loop
  profile_loop-encode [] offset data' rest n m here fits small = refl
  profile_loop-encode (r ∷ rs) offset data' rest n m here fits small =
      let g = read_field-IsRead r.data_index r.status r.value (encode rs ++ rest) in
      let apart = here ∙ append_assoc (encode_record r) (encode rs) rest in
      let long = length-append (encode_record r) (encode rs) in
      let more : leb n offset ≡ false = ground (arith, long) in
      let next : (offset + g.field.size) % 256 ≡ offset + length (encode_record r) =
        omega (arith, g.size, long) in
      rw (more, apart, g.read, next, g.keeps m)
        (profile_loop-encode rs (offset + length (encode_record r)) data' rest n
          (push_value m r.data_index (meaning r.value))
          (drop-skip (encode_record r) offset data' (encode rs ++ rest) apart) (omega (arith, long))
          small)

  -- A page of records is read back: behind the eight bytes of a header and the number of its records,
  -- each record is kept under its index, in the order sent, whatever follows in memory. The page is
  -- shorter than 256 bytes.
  pub parse_profile-encode :
      (header rest : Bytes) (rs : List SentRecord) (n : ℕ) (m : ProfileData)
      → length header ≡ 8
      → 9 + length (encode rs) ≤ n
      → n < 256
      → parse_profile clock (header ++ length rs ∷ (encode rs ++ rest)) n m ≡ some (kept rs m)
  unfolding parse_profile
  parse_profile-encode header rest rs n m e fits small =
      rw (get_elem?-behind header (encode rs ++ rest) 8 (length rs) e) (
        profile_loop-encode rs 9 (header ++ length rs ∷ (encode rs ++ rest)) rest n m
          (drop-suc 8 (header ++ length rs ∷ (encode rs ++ rest)) (length rs) (encode rs ++ rest)
            (drop-append 8 header (length rs ∷ (encode rs ++ rest)) e))
          fits small)
