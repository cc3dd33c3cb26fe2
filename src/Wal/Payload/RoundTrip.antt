-- ===== src/Wal/Payload/RoundTrip.antt =====
-- What recovery reads of the payload of a put or a delete.
use wave_db.Base.{
  ℕ, zero, suc, ◌+◌, ◌%◌, ◌^◌, ◌<◌, ◌≤◌, ◌≡◌, ◌∙◌, refl, sym, ap, arith, true, false, Option, none,
  some, List, [], ◌∷◌, ◌++◌, map, ltb, ◌==◌, if◌then◌else◌, length, take, length-append, All,
  take-append_left, drop-append_left,
}
use wave_db.Base.Bytes.{
  write_be16, write_be32, read_be32, read_be16-write_be16, read_be32-write_be32,
}
use wave_db.Identifier
use wave_db.Identifier.{Identifier, to_buffer}
use wave_db.Identifier.Chunking.{to_buffer-create}
use wave_db.Wal.Payload.{
  path_byte_len, encode_ids, encode_path, encode_value, encode_put, read_bytes, decode_ids,
  decode_path, decode_value, decode_put,
}
use mathlib.Core.List.{append_assoc}

-- An identifier that gives its own length in bytes.
abbrev pub IsWhole : Identifier → Type 0
IsWhole id = length (to_buffer id) ≡ id.size

-- One that fits the 16 bits of its length.
pub record IsShort (id : Identifier) : Type 0 where
  pub whole : IsWhole id
  pub short : id.size < 2 ^ 16

take_all : (xs : List ℕ) (n : ℕ) → length xs ≡ n → take n xs ≡ xs
take_all [] zero h = refl
take_all [] (suc n) h = refl
take_all (x ∷ xs) zero h = absurd (omega (arith, h))
take_all (x ∷ xs) (suc n) h = ap (λ l. x ∷ l) (take_all xs n (omega (arith, h)))

read_bytes-append :
    (xs rest : List ℕ) (n : ℕ) → length xs ≡ n → read_bytes n (xs ++ rest) ≡ some (xs, rest)
read_bytes-append xs rest n h =
    let l : ltb (length (xs ++ rest)) (length xs) ≡ false = ground (arith, length-append xs rest) in
    ap (λ m. read_bytes m (xs ++ rest)) (sym h)
    ∙ rw (l, take-append_left xs rest, drop-append_left xs rest) refl

zero_len : read_be32 (write_be32 0) ≡ some (0, [])
unfolding read_be32 write_be32
zero_len = refl

module _ (beyond : List ℕ) (chunk_size : ℕ) where
  -- The identifier of the same bytes that recovery makes.
  abbrev pub again : Identifier → Identifier
  again id = Identifier.create (some (to_buffer id)) beyond chunk_size

  decode_ids-encode_ids :
      (path : List Identifier) (rest : List ℕ)
      → All IsShort path
      → decode_ids beyond chunk_size (length path) (encode_ids path ++ rest)
        ≡ some ((map again path, path_byte_len path), rest)
  unfolding decode_ids encode_ids path_byte_len
  decode_ids-encode_ids [] rest h = refl
  decode_ids-encode_ids (id ∷ path) rest h =
      let fits : id.size % 2 ^ 16 ≡ id.size = let s = h.0.short in omega arith in
      let tail = encode_ids path ++ rest in
      let same = take_all (to_buffer id) id.size h.0.whole in
      simp (
        append_assoc,
        same,
        read_be16-write_be16 id.size (to_buffer id ++ tail),
        fits,
        read_bytes-append (to_buffer id) tail id.size h.0.whole,
        decode_ids-encode_ids path rest h.1,
      )

  pub decode_path-encode_path :
      (path : List Identifier) (rest : List ℕ)
      → All IsShort path
      → length path < 2 ^ 16
      → path_byte_len path < 2 ^ 32
      → decode_path beyond chunk_size (encode_path path ++ rest) ≡ some (map again path, rest)
  unfolding decode_path encode_path
  decode_path-encode_path path rest h few small =
      let n : length path % 2 ^ 16 ≡ length path = omega arith in
      let t : (path_byte_len path == path_byte_len path) ≡ true = ground arith in
      simp (
        append_assoc,
        read_be16-write_be16 (length path)
            (write_be32 (path_byte_len path) ++ (encode_ids path ++ rest)),
        n,
        read_be32-write_be32 (path_byte_len path) (encode_ids path ++ rest) small,
        decode_ids-encode_ids path rest h,
        t,
      )

  -- A value that is not NULL and fits 32 bits.
  abbrev pub IsStored : Option Identifier → Type 0
  IsStored none = Unit
  IsStored (some value) = IsWhole value × (value.size < 2 ^ 32)

  -- The value that recovery makes: NULL for one of no bytes.
  abbrev pub value_again : Option Identifier → Option Identifier
  value_again none = none
  value_again (some value) = if ltb 0 value.size then some (again value) else none

  decode_value-encode_value :
      (value : Option Identifier)
      → IsStored value
      → decode_value beyond chunk_size (encode_value value) ≡ some (value_again value)
  unfolding decode_value encode_value
  decode_value-encode_value none h = simp zero_len
  decode_value-encode_value (some value) h =
      let same = take_all (to_buffer value) value.size h.0 in
      let l : ltb (length (to_buffer value)) value.size ≡ false =
        let w = h.0 in ground (arith, w) in
      simp (same, read_be32-write_be32 value.size (to_buffer value) h.1, l)

  decode_put-encode_put-again :
      (path : List Identifier) (value : Option Identifier)
      → All IsShort path
      → length path < 2 ^ 16
      → path_byte_len path < 2 ^ 32
      → IsStored value
      → decode_put beyond chunk_size (encode_put path value)
        ≡ some (map again path, value_again value)
  unfolding decode_put encode_put
  decode_put-encode_put-again path value h few small v = simp (
    decode_path-encode_path path (encode_value value) h few small,
    decode_value-encode_value value v,
  )

-- The bytes of a path's identifiers, and those of a value with bytes.
abbrev pub bytes_of : List Identifier → List (List ℕ)
bytes_of path = map to_buffer path

abbrev pub value_bytes : Option Identifier → Option (List ℕ)
value_bytes none = none
value_bytes (some value) = if ltb 0 value.size then some (to_buffer value) else none

abbrev pub read_back :
    Option (List Identifier × Option Identifier) → Option (List (List ℕ) × Option (List ℕ))
read_back none = none
read_back (some (path, value)) = some (bytes_of path, value_bytes value)

bytes_of-again :
    (beyond : List ℕ) (chunk_size : ℕ) (path : List Identifier)
    → bytes_of (map (again beyond chunk_size) path) ≡ bytes_of path
bytes_of-again beyond chunk_size [] = refl
bytes_of-again beyond chunk_size (id ∷ path) =
    rw (to_buffer-create (to_buffer id) beyond chunk_size, bytes_of-again beyond chunk_size path)
      refl

value_bytes-again :
    (beyond : List ℕ) (chunk_size : ℕ) (value : Option Identifier)
    → IsStored beyond chunk_size value
    → value_bytes (value_again beyond chunk_size value) ≡ value_bytes value
unfolding Identifier.create
value_bytes-again beyond chunk_size none v = refl
value_bytes-again beyond chunk_size (some value) v =
    let w = v.0 in ground (arith, w, to_buffer-create (to_buffer value) beyond chunk_size)

-- Recovery reads from the payload of a put the bytes of the identifiers of its path and of its
-- value, at any chunk size and whatever memory holds behind the copies. The identifiers are shorter
-- than 65536 bytes and fewer than 65536, and lengths fit 32 bits; a value of no bytes reads as NULL.
pub decode_put-encode_put :
    (beyond : List ℕ) (chunk_size : ℕ) (path : List Identifier) (value : Option Identifier)
    → All IsShort path
    → length path < 2 ^ 16
    → path_byte_len path < 2 ^ 32
    → IsStored beyond chunk_size value
    → read_back (decode_put beyond chunk_size (encode_put path value))
      ≡ some (bytes_of path, value_bytes value)
decode_put-encode_put beyond chunk_size path value h few small v =
    ap read_back (decode_put-encode_put-again beyond chunk_size path value h few small v)
    ∙ rw (bytes_of-again beyond chunk_size path, value_bytes-again beyond chunk_size value v) refl

-- A put whose key is one identifier of 65536 bytes or more, and of fewer than 2 ^ 32, is refused at
-- recovery.
pub decode_put-long_key :
    (beyond : List ℕ) (chunk_size : ℕ) (id : Identifier) (value : Option Identifier)
    → IsWhole id
    → 2 ^ 16 ≤ id.size
    → id.size < 2 ^ 32
    → decode_put beyond chunk_size (encode_put (id ∷ []) value) ≡ none
unfolding decode_put encode_put decode_path encode_path decode_ids encode_ids path_byte_len
decode_put-long_key beyond chunk_size id value whole long small =
    let rest = encode_value value in
    let tail = take id.size (to_buffer id) ++ rest in
    let len = id.size % 2 ^ 16 in
    let n : length tail ≡ id.size + length rest =
      length-append (take id.size (to_buffer id)) rest
      ∙ ap (λ k. k + length rest) (ap length (take_all (to_buffer id) id.size whole) ∙ whole) in
    let l : ltb (length tail) len ≡ false = ground (arith, n) in
    let t : (len + 0 == id.size + 0) ≡ false = ground arith in
    let small' : id.size + 0 < 2 ^ 32 = omega arith in
    simp (
      append_assoc,
      read_be16-write_be16 1 (write_be32 (id.size + 0) ++ (write_be16 id.size ++ tail)),
      read_be32-write_be32 (id.size + 0) (write_be16 id.size ++ tail) small',
      read_be16-write_be16 id.size tail,
      l,
      t,
    )
