-- ===== src/ThreadWal/State.antt =====
-- src/Database/wal_manager.c and wal_manager.h: the state of a thread's log, and what the system calls
-- answer.
use wave_db.Base.{ℕ, ◌+◌, ◌%◌, ◌^◌, Bool, true, false, Option, none, some, List, take}
use wave_db.TransactionId.{TransactionId}

-- `wal_sync_mode_e`
pub data SyncMode : Type 0 where
  immediate debounced async : SyncMode

-- `sizeof(twal->entry_buf)`
abbrev pub entry_buf_size : ℕ
entry_buf_size = 4096

-- `thread_wal_t`, the bytes of its file, whether the manifest calls that file sealed, and the bytes
-- of the files it closed, oldest first: those that are still there, and in `removed` what those
-- held that a compaction has unlinked. A file that is gone counts as one of no bytes. The manager's
-- `sealed_count` and limit are those that this thread sees.
pub record ThreadWal : Type 0 where
  pub removed : List (List ℕ)
  pub sealed : List (List ℕ)
  pub file_sealed : Bool
  pub file : List ℕ
  pub is_open : Bool
  pub entry_buf : List ℕ
  pub batch_count : ℕ
  pub batch_size : ℕ
  pub current_size : ℕ
  pub max_size : ℕ
  pub pending_writes : ℕ
  pub sync_mode : SyncMode
  pub oldest_txn_id : TransactionId
  pub newest_txn_id : TransactionId
  pub timer_active : Bool
  pub has_wheel : Bool
  pub debounce_ms : ℕ
  pub sealed_count : ℕ
  pub max_sealed : ℕ

abbrev pub no_txn : TransactionId
no_txn = record { time = 0; nanos = 0; count = 0 }

-- A `write` and the `fsync` behind it. A short write gives the number of bytes that it took.
pub record Written : Type 0 where
  pub short : Option ℕ
  pub fsync_ok : Bool

-- The answers to one call of `thread_wal_write`, in the order in which it asks: the flush of a full
-- file or a full buffer, the compaction of sealed files with the count that it leaves, the manifest
-- entry for the sealed file and whether it is in the manifest where it was refused, the reopening
-- after its failure, the path and the opening of the next file with what that path held and whether
-- the manifest calls it sealed, the write past the buffer, and the flush at the end.
pub record Io : Type 0 where
  pub full : Written
  pub compact_ok : Bool
  pub compacted_count : ℕ
  pub manifest_ok : Bool
  pub manifest_left : Bool
  pub reopen_ok : Bool
  pub path_ok : Bool
  pub open_ok : Bool
  pub existing : List ℕ
  pub path_sealed : Bool
  pub direct : Written
  pub last : Written

-- What a write leaves in the file, and whether it took everything.
abbrev pub taken : Option ℕ → List ℕ → List ℕ
taken none bytes = bytes
taken (some k) bytes = take k bytes

abbrev pub is_whole : Option ℕ → Bool
is_whole none = true
is_whole (some k) = false

abbrev pub is_immediate : SyncMode → Bool
is_immediate immediate = true
is_immediate debounced = false
is_immediate async = false

-- Go on only after success.
abbrev pub and_then : ThreadWal × Bool → (ThreadWal → ThreadWal × Bool) → ThreadWal × Bool
and_then (t, false) next = (t, false)
and_then (t, true) next = next t

-- `pending_writes` after a flush.
unfoldable pub pending_after : SyncMode → ℕ → ℕ → ℕ
pending_after immediate pending batch = 0
pending_after debounced pending batch = (pending + batch) % 2 ^ 64
pending_after async pending batch = 0
