-- ===== src/TransactionId.antt =====
-- src/Workers/transaction_id.c and transaction_id.h: transaction identifiers, their order, their
-- 24-byte form, and the generator that hands them out.
pub mod Order
pub mod Codec
pub mod Generator
use wave_db.Base.{
  ℕ, ◌+◌, ◌%◌, ◌^◌, Ordering, Bool, true, false, ◌&&◌, List, ◌++◌, Option, some, none,
}
use wave_db.Base.{ltb, ◌==◌, if◌then◌else◌}
pub use wave_db.Base.{is_lt, is_eq, is_le, is_gt}
use wave_db.Base.Bytes.{write_be64, read_be64, IsU64, ◌>>=◌}

pub record TransactionId : Type 0 where
  pub time : ℕ
  pub nanos : ℕ
  pub count : ℕ

-- `transaction_id_compare`: -1, 0 and 1 are `lt`, `eq` and `gt`.
unfoldable pub compare : TransactionId → TransactionId → Ordering
compare id1 id2 =
    if ltb id2.time id1.time
    then Ordering.gt
    else if ltb id1.time id2.time
    then Ordering.lt
    else if ltb id2.nanos id1.nanos
    then Ordering.gt
    else if ltb id1.nanos id2.nanos
    then Ordering.lt
    else if ltb id2.count id1.count
    then Ordering.gt
    else if ltb id1.count id2.count
    then Ordering.lt
    else Ordering.eq

abbrev pub uint64_max : ℕ
uint64_max = 0xffff_ffff_ffff_ffff

-- `TXN_ID_SENTINEL`
abbrev pub sentinel : TransactionId
sentinel = record { time = uint64_max; nanos = uint64_max; count = uint64_max }

unfoldable pub is_sentinel : TransactionId → Bool
is_sentinel id = id.time == uint64_max && id.nanos == uint64_max && id.count == uint64_max

abbrev pub tx_manager_shards : ℕ
tx_manager_shards = 64

-- `count & 63`
unfoldable pub shard_index : TransactionId → ℕ
shard_index id = id.count % tx_manager_shards

-- The fields of the C struct are `uint64_t`.
pub record InRange (id : TransactionId) : Type 0 where
  pub time : IsU64 id.time
  pub nanos : IsU64 id.nanos
  pub count : IsU64 id.count

-- `transaction_id_serialize`: 24 bytes in network order.
unfoldable pub serialize : TransactionId → List ℕ
serialize id = write_be64 id.time ++ (write_be64 id.nanos ++ write_be64 id.count)

-- `transaction_id_deserialize`, with what follows the 24 bytes; `none` is a read past the end.
unfoldable pub deserialize : List ℕ → Option (TransactionId × List ℕ)
deserialize buf = do
  (time, buf1) ← read_be64 buf
  (nanos, buf2) ← read_be64 buf1
  (count, rest) ← read_be64 buf2
  some (record { time = time; nanos = nanos; count = count }, rest)
