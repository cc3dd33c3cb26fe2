-- ===== src/Wal/Payload.antt =====
-- The payload of a put and of a delete: src/Database/database.c writes it, and
-- src/Database/wal_manager.c reads it at recovery. A path is the list of its identifiers.
pub mod RoundTrip
use wave_db.Base.{
  ℕ, zero, suc, ◌+◌, Bool, true, false, Option, none, some, List, [], ◌∷◌, ◌++◌, ltb, ◌==◌,
  if◌then◌else◌, length, take, drop,
}
use wave_db.Base.Bytes.{write_be16, read_be16, write_be32, read_be32, ◌>>=◌}
use wave_db.Identifier
use wave_db.Identifier.{Identifier, to_buffer}

abbrev pub wal_binary_magic : ℕ
wal_binary_magic = 177

-- The sum of the identifiers' lengths.
unfoldable pub path_byte_len : List Identifier → ℕ
path_byte_len [] = 0
path_byte_len (id ∷ path) = id.size + path_byte_len path

-- The loop that writes the identifiers, each behind its length in 16 bits.
unfoldable pub encode_ids : List Identifier → List ℕ
encode_ids [] = []
encode_ids (id ∷ path) = write_be16 id.size ++ (take id.size (to_buffer id) ++ encode_ids path)

-- The part that the two encoders share.
unfoldable pub encode_path : List Identifier → List ℕ
unfolding path_byte_len encode_ids
encode_path path =
    wal_binary_magic
    ∷ (write_be16 (length path) ++ (write_be32 (path_byte_len path) ++ encode_ids path))

-- A value's length and bytes; NULL has length 0.
unfoldable pub encode_value : Option Identifier → List ℕ
encode_value none = write_be32 0
encode_value (some value) = write_be32 value.size ++ take value.size (to_buffer value)

-- `encode_put_entry_binary`
unfoldable pub encode_put : List Identifier → Option Identifier → List ℕ
unfolding encode_path encode_value
encode_put path value = encode_path path ++ encode_value value

-- `encode_delete_entry_binary`
unfoldable pub encode_delete : List Identifier → List ℕ
unfolding encode_path
encode_delete path = encode_path path

-- `len` bytes, if there are so many.
abbrev pub read_bytes : ℕ → List ℕ → Option (List ℕ × List ℕ)
read_bytes len bytes =
    if ltb (length bytes) len then none else some (take len bytes, drop len bytes)

-- Reading goes on from a buffer whose copies have `beyond` behind them, at a chunk size.
module _ (beyond : List ℕ) (chunk_size : ℕ) where
  -- The loop that reads `n` identifiers: the path, the total of their lengths, and what follows.
  unfoldable pub decode_ids : ℕ → List ℕ → Option ((List Identifier × ℕ) × List ℕ)
  decode_ids zero bytes = some (([], 0), bytes)
  decode_ids (suc n) bytes = do
    (id_len, bytes1) ← read_be16 bytes
    (id_buf, bytes2) ← read_bytes id_len bytes1
    ((path, total), rest) ← decode_ids n bytes2
    some ((Identifier.create (some id_buf) beyond chunk_size ∷ path, id_len + total), rest)

  abbrev read_magic : List ℕ → Option (ℕ × List ℕ)
  read_magic [] = none
  read_magic (magic ∷ bytes) = if magic == wal_binary_magic then some (magic, bytes) else none

  -- The part that the two decoders share.
  unfoldable pub decode_path : List ℕ → Option (List Identifier × List ℕ)
  unfolding decode_ids
  decode_path bytes = do
    (magic, bytes1) ← read_magic bytes
    (path_count, bytes2) ← read_be16 bytes1
    (path_len, bytes3) ← read_be32 bytes2
    ((path, total), rest) ← decode_ids path_count bytes3
    if total == path_len then some (path, rest) else none

  -- The value: none of length 0.
  unfoldable pub decode_value : List ℕ → Option (Option Identifier)
  decode_value bytes = do
    (value_len, bytes1) ← read_be32 bytes
    (val_buf, rest) ← read_bytes value_len bytes1
    some (
        if ltb 0 value_len then some (Identifier.create (some val_buf) beyond chunk_size) else none)

  -- `decode_put_entry_binary`; `none` is -1.
  unfoldable pub decode_put : List ℕ → Option (List Identifier × Option Identifier)
  unfolding decode_path decode_value
  decode_put bytes = do
    (path, rest) ← decode_path bytes
    value ← decode_value rest
    some (path, value)

  -- `decode_delete_entry_binary`
  unfoldable pub decode_delete : List ℕ → Option (List Identifier)
  unfolding decode_path
  decode_delete bytes = do (path, rest) ← decode_path bytes; some path
