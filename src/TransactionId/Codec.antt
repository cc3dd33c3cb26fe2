-- ===== src/TransactionId/Codec.antt =====
-- The 24-byte form of an identifier is read back, whatever follows it in the buffer.
use wave_db.Base.{◌≡◌, some, List, ◌++◌, ℕ, length, length-append}
use wave_db.Base.Bytes.{write_be64, read_be64-write_be64, length-write_be64}
use wave_db.TransactionId.{TransactionId, InRange, serialize, deserialize}
use mathlib.Core.List.{append_assoc}

-- `deserialize` returns the identifier that `serialize` wrote and leaves what follows it, for
-- identifiers whose fields are 64-bit words.
pub deserialize-serialize :
    (id : TransactionId) (rest : List ℕ)
    → InRange id
    → deserialize (serialize id ++ rest) ≡ some (id, rest)
unfolding deserialize serialize
deserialize-serialize id rest h = simp (
  append_assoc,
  read_be64-write_be64 id.time (write_be64 id.nanos ++ (write_be64 id.count ++ rest)) h.time,
  read_be64-write_be64 id.nanos (write_be64 id.count ++ rest) h.nanos,
  read_be64-write_be64 id.count rest h.count,
)

pub length-serialize : (id : TransactionId) → length (serialize id) ≡ 24
unfolding serialize
length-serialize id = simp (length-append, length-write_be64)
