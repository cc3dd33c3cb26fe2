-- ===== src/Wal.antt =====
-- src/Database/wal.c and wal.h: the entries of a write-ahead log file, one by one. The checksum is
-- in `Wal.Crc`, the payload of puts and deletes in `Wal.Payload`.
pub mod Crc
pub mod Entries
pub mod Recovery
pub mod Prefix
pub mod Payload
pub mod Corruption
use wave_db.Base.{
  ℕ, suc, ◌+◌, ◌%◌, ◌^◌, Bool, true, false, Option, none, some, List, [], ◌∷◌, ◌++◌, ltb, ◌==◌,
  if◌then◌else◌, length, take, drop,
}
use wave_db.Base.Bytes.{write_be32, read_be32, ◌>>=◌}
use wave_db.TransactionId.{TransactionId, serialize, deserialize}
use wave_db.Wal.Crc.{crc32}

-- `wal_type_e`
abbrev pub wal_put : ℕ
wal_put = 112

abbrev pub wal_delete : ℕ
wal_delete = 100

abbrev pub wal_batch : ℕ
wal_batch = 98

-- An entry: its type byte, its transaction and its payload.
pub record Entry : Type 0 where
  pub type : ℕ
  pub txn_id : TransactionId
  pub payload : List ℕ

-- The header that `wal_write` and `thread_wal_write` build: type, transaction, checksum, length.
unfoldable pub header : Entry → List ℕ
header e =
    e.type % 256
    ∷ (serialize e.txn_id ++ (write_be32 (crc32 e.payload) ++ write_be32 (length e.payload)))

-- What an entry occupies in a file.
unfoldable pub encode : Entry → List ℕ
unfolding header
encode e = header e ++ e.payload

-- The fields of a header that was read.
pub record Header : Type 0 where
  pub type : ℕ
  pub txn_id : TransactionId
  pub crc : ℕ
  pub len : ℕ

-- Reading and parsing 33 bytes, and what follows them.
unfoldable pub parse_header : List ℕ → Option (Header × List ℕ)
parse_header [] = none
parse_header (type ∷ bytes) = do
  (txn_id, bytes1) ← deserialize bytes
  (crc, bytes2) ← read_be32 bytes1
  (len, rest) ← read_be32 bytes2
  some (record { type = type; txn_id = txn_id; crc = crc; len = len }, rest)

-- The payload that the header announces, if all of it is there and has the checksum.
unfoldable pub read_payload : Header × List ℕ → Option (Entry × List ℕ)
read_payload (h, rest) =
    if ltb (length rest) h.len
    then none
    else if crc32 (take h.len rest) == h.crc
    then some
        (record { type = h.type; txn_id = h.txn_id; payload = take h.len rest }, drop h.len rest)
    else none

-- One entry at the front of a file, and what follows it.
unfoldable pub read_entry : List ℕ → Option (Entry × List ℕ)
unfolding parse_header read_payload
read_entry bytes = parse_header bytes >>= read_payload

-- What `wal_read` returns: 0 with the entry and the new cursor, 1, or -1.
pub data Read : Type 0 where
  found : Entry → ℕ → Read
  eof failed : Read

-- `wal_read` on the bytes of the file.
unfoldable pub read : List ℕ → ℕ → Read
read file cursor =
    if length (drop cursor file) == 0 then eof else elim (read_entry (drop cursor file)) [
      | none ↦ failed
      | some (e, rest) ↦ found e ((cursor + (33 + length e.payload)) % 2 ^ 64)
    ]
