-- ===== src/Parser/RoundTrip.antt =====
-- A value that is encoded in a packet is parsed back.
use native.Mathlib.Nat.{pow-suc}
use atlascode.Prelude.{
  ℕ, zero, suc, ◌+◌, ◌*◌, ◌/◌, ◌%◌, ◌^◌, ◌≤◌, ◌<◌, ◌≡◌, refl, ap, Bool, true, false, [], ◌∷◌, ◌++◌,
  Option, some, Bytes, arith, length, drop, get_elem?-drop, drop-suc, length-append, length-drop,
}
use atlascode.DataType
use atlascode.Records.{DlmsValueStruct, fresh}
use atlascode.Parser.{
  Parsed, read_be, copy_octets, parse_word, parse_boolean, parse_octets, parse_switch,
  parse_by_type, store,
}
use atlascode.Parser.Encoding.{
  WordType, int8, uint8, int16, uint16, int32, uint32, datetime, int64, uint64, StringType,
  bit_string, octet_string, string, string_utf8, Payload, array, boolean, word, octets, width,
  word_code, string_code, payload_code, encode_be, bit, encode_payload, Fits, typed, payload_value,
}

abbrev fold_be : ℕ → Bytes → ℕ
fold_be acc [] = acc
fold_be acc (b ∷ bs) = fold_be (acc * 256 + b) bs

read_be-fold_be :
    (bs : Bytes) (buf : Bytes) (offset acc : ℕ) (rest : Bytes)
    → drop offset buf ≡ bs ++ rest
    → read_be (length bs) buf offset acc ≡ some (fold_be acc bs)
unfolding read_be
read_be-fold_be [] buf offset acc rest h = refl
read_be-fold_be (b ∷ bs) buf offset acc rest h = rw (get_elem?-drop offset buf b (bs ++ rest) h) (
    read_be-fold_be bs buf (suc offset) (acc * 256 + b) rest (drop-suc offset buf b (bs ++ rest) h))

copy_octets-drop :
    (bs : Bytes) (buf : Bytes) (offset : ℕ) (rest : Bytes)
    → drop offset buf ≡ bs ++ rest
    → copy_octets (length bs) buf offset ≡ some bs
unfolding copy_octets
copy_octets-drop [] buf offset rest h = refl
copy_octets-drop (b ∷ bs) buf offset rest h =
    rw
      (
        get_elem?-drop offset buf b (bs ++ rest) h,
        copy_octets-drop bs buf (suc offset) rest (drop-suc offset buf b (bs ++ rest) h),
      )
      refl

fold_be-append : (bs cs : Bytes) (acc : ℕ) → fold_be acc (bs ++ cs) ≡ fold_be (fold_be acc bs) cs
fold_be-append [] cs acc = refl
fold_be-append (b ∷ bs) cs acc = fold_be-append bs cs (acc * 256 + b)

fold_be-encode_be : (n x : ℕ) → x < 256 ^ n → fold_be 0 (encode_be n x) ≡ x
unfolding encode_be
fold_be-encode_be zero x h = omega arith
fold_be-encode_be (suc n) x h =
    let small : x / 256 < 256 ^ n = omega (arith, pow-suc 256 n) in
    rw
      (
        fold_be-append (encode_be n (x / 256)) ((x % 256) ∷ []) 0,
        fold_be-encode_be n (x / 256) small,
      )
      (omega arith)

pub length-encode_be : (n x : ℕ) → length (encode_be n x) ≡ n
unfolding encode_be
length-encode_be zero x = refl
length-encode_be (suc n) x =
    omega
      (arith, length-append (encode_be n (x / 256)) ((x % 256) ∷ []), length-encode_be n (x / 256))

abbrev pub Gives : Option Parsed → ℕ → DlmsValueStruct → Type 0
Gives o offset v = o ≡ some (record { success = true; offset = offset; value = v })

module _ (buf : Bytes) (offset : ℕ) (rest : Bytes) (inside : offset < length buf) where
  parse_word-encode_be :
      (n x : ℕ) (v : DlmsValueStruct)
      → x < 256 ^ n
      → drop offset buf ≡ encode_be n x ++ rest
      → Gives (parse_word n buf offset v) (offset + n) (store (8 * n) x v)
  unfolding parse_word
  parse_word-encode_be n x v small h =
      let room : offset + n ≤ length buf = omega (
        arith,
        length-drop offset buf,
        ap length h,
        length-append (encode_be n x) rest,
        length-encode_be n x,
      ) in
      let read : read_be n buf offset 0 ≡ some x =
        rw (length-encode_be n x, fold_be-encode_be n x small) at
          (read_be-fold_be (encode_be n x) buf offset 0 rest h) in
      ground arith

  parse_boolean-bit :
      (b : Bool) (v : DlmsValueStruct)
      → drop offset buf ≡ bit b ∷ rest
      → Gives (parse_boolean buf offset v) (offset + 1) (store 8 (bit b) v)
  unfolding parse_boolean
  parse_boolean-bit true v h = let e = get_elem?-drop offset buf 1 rest h in ground arith
  parse_boolean-bit false v h = let e = get_elem?-drop offset buf 0 rest h in ground arith

  parse_octets-encode :
      (bs : Bytes) (v : DlmsValueStruct)
      → drop offset buf ≡ length bs ∷ (bs ++ rest)
      → Gives (parse_octets buf offset v) (suc offset + length bs) (record v { octet_string = bs })
  unfolding parse_octets
  parse_octets-encode bs v h =
      let first = get_elem?-drop offset buf (length bs) (bs ++ rest) h in
      let copied =
        copy_octets-drop bs buf (suc offset) rest
          (drop-suc offset buf (length bs) (bs ++ rest) h) in
      let room : suc offset + length bs ≤ length buf =
        omega (arith, length-drop offset buf, ap length h, length-append bs rest) in
      ground arith

  parse_by_type-inside :
      (t : ℕ) (v : DlmsValueStruct)
      → parse_by_type buf offset t v
        ≡ parse_switch buf offset t (record v { type = t; type_name = DataType.type_name t })
  unfolding parse_by_type
  parse_by_type-inside t v = ground arith

  switch_word :
      (w : WordType) (v : DlmsValueStruct)
      → parse_switch buf offset (word_code w) v ≡ parse_word (width w) buf offset v
  unfolding parse_switch
  switch_word int8 v = refl
  switch_word uint8 v = refl
  switch_word int16 v = refl
  switch_word uint16 v = refl
  switch_word int32 v = refl
  switch_word uint32 v = refl
  switch_word datetime v = refl
  switch_word int64 v = refl
  switch_word uint64 v = refl

  switch_octets :
      (s : StringType) (v : DlmsValueStruct)
      → parse_switch buf offset (string_code s) v ≡ parse_octets buf offset v
  unfolding parse_switch
  switch_octets bit_string v = refl
  switch_octets octet_string v = refl
  switch_octets string v = refl
  switch_octets string_utf8 v = refl

  switch_boolean :
      (v : DlmsValueStruct)
      → parse_switch buf offset DataType.boolean v ≡ parse_boolean buf offset v
  unfolding parse_switch
  switch_boolean v = refl

  switch_array : (v : DlmsValueStruct) → Gives (parse_switch buf offset DataType.array v) offset v
  unfolding parse_switch
  switch_array v = refl

  -- A fresh union holds just the number that is stored.
  store_fresh :
      (t : ℕ) (w : WordType) (x : ℕ)
      → store (8 * width w) x (typed t) ≡ record (typed t) { bits = x }
  store_fresh t int8 x = ground arith
  store_fresh t uint8 x = ground arith
  store_fresh t int16 x = ground arith
  store_fresh t uint16 x = ground arith
  store_fresh t int32 x = ground arith
  store_fresh t uint32 x = ground arith
  store_fresh t datetime x = ground arith
  store_fresh t int64 x = ground arith
  store_fresh t uint64 x = ground arith

  -- Where the rest of a packet begins with an encoded payload that fits its width, and the offset is
  -- inside the packet, the parser for its type succeeds, ends just behind the payload, and fills a
  -- fresh value with the type, its name and the content.
  pub parse_by_type-encode :
      (p : Payload)
      → Fits p
      → drop offset buf ≡ encode_payload p ++ rest
      → Gives
          (parse_by_type buf offset (payload_code p) fresh)
          (offset + length (encode_payload p))
          (payload_value p)
  unfolding encode_payload
  parse_by_type-encode array fits h =
      rw (parse_by_type-inside DataType.array fresh, switch_array (typed DataType.array))
        (ground arith)
  parse_by_type-encode (boolean true) fits h =
      rw
        (
          parse_by_type-inside DataType.boolean fresh,
          switch_boolean (typed DataType.boolean),
          parse_boolean-bit true (typed DataType.boolean) h,
        )
        refl
  parse_by_type-encode (boolean false) fits h =
      rw
        (
          parse_by_type-inside DataType.boolean fresh,
          switch_boolean (typed DataType.boolean),
          parse_boolean-bit false (typed DataType.boolean) h,
        )
        refl
  parse_by_type-encode (word w x) fits h =
      rw
        (
          parse_by_type-inside (word_code w) fresh,
          switch_word w (typed (word_code w)),
          parse_word-encode_be (width w) x (typed (word_code w)) fits h,
          store_fresh (word_code w) w x,
          length-encode_be (width w) x,
        )
        refl
  parse_by_type-encode (octets s bs) fits h =
      rw
        (
          parse_by_type-inside (string_code s) fresh,
          switch_octets s (typed (string_code s)),
          parse_octets-encode bs (typed (string_code s)) h,
        )
        (ground arith)
