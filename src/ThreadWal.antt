-- ===== src/ThreadWal.antt =====
-- src/Database/wal_manager.c: a thread's log, `thread_wal_t`, with its buffer of entries in front of
-- the file. Each call holds the thread's lock and is one step; what the system calls answer is an
-- argument. The entries' bytes are in `Wal`. Sizes of files stay far below 2 ^ 64, so their sums are
-- written without the wrap-around.
mod State
pub mod Concat
pub mod Files
pub mod Flushing
pub mod Writing
pub mod Appending
pub mod Completion
pub mod Lifecycle
pub mod Runs
pub mod Crash
unfoldable pub use State.*
use wave_db.Base.{
  ℕ, ◌+◌, ◌%◌, ◌^◌, Bool, true, false, ◌&&◌, ◌||◌, not, Option, none, some, List, [], ◌∷◌, ◌++◌,
  ltb, leb, ◌==◌, if◌then◌else◌, length, take,
}
use wave_db.TransactionId.{TransactionId}
use wave_db.Wal.{Entry, encode}
use wave_db.Wal.Recovery.{Cipher, seal}

-- After a write of the buffer that was cut short, after one without an `fsync`, and after one that
-- succeeded.
abbrev pub cut : Written → ThreadWal → ThreadWal
cut io t = record t { file = t.file ++ taken io.short t.entry_buf }

abbrev pub grown : ThreadWal → ThreadWal
grown t = record t {
  file = t.file ++ t.entry_buf;
  current_size = t.current_size + length t.entry_buf;
}

abbrev pub emptied : ThreadWal → ThreadWal
emptied t = record t {
  file = t.file ++ t.entry_buf;
  current_size = t.current_size + length t.entry_buf;
  pending_writes = pending_after t.sync_mode t.pending_writes t.batch_count;
  entry_buf = [];
  batch_count = 0;
}

-- `thread_wal_flush_buffer_locked`
unfoldable pub flush : Written → ThreadWal → ThreadWal × Bool
unfolding pending_after
flush io t =
    if t.batch_count == 0
    then (t, true)
    else if length t.entry_buf == 0
    then (t, true)
    else if not (is_whole io.short && t.is_open)
    then (if t.is_open then cut io t else t, false)
    else if is_immediate t.sync_mode && not io.fsync_ok
    then (grown t, false)
    else (emptied t, true)

-- After the manifest entry was refused, after the old file was closed, and with the next one.
abbrev pub unsealed : Io → ThreadWal → ThreadWal
unsealed io t = record t { is_open = io.reopen_ok; file_sealed = t.file_sealed || io.manifest_left }

abbrev pub closed : ThreadWal → ThreadWal
closed t = record t {
  sealed = t.sealed ++ (t.file ∷ []);
  file = [];
  file_sealed = false;
  is_open = false;
  sealed_count = t.sealed_count + 1;
}

abbrev pub opened : Io → ThreadWal → ThreadWal
opened io t = record (closed t) {
  file = io.existing;
  file_sealed = io.path_sealed;
  is_open = true;
  current_size = 0;
  oldest_txn_id = no_txn;
  newest_txn_id = no_txn;
}

-- `thread_wal_rotate`
unfoldable pub rotate : Io → ThreadWal → ThreadWal × Bool
rotate io t =
    if not io.manifest_ok
    then (unsealed io t, false)
    else if not (io.path_ok && io.open_ok)
    then (closed t, false)
    else (opened io t, true)

-- What a compaction that returns 0 does to this log: `compact_wal_files` unlinks every file that the
-- manifest calls sealed. The file that it may write in their place is not the log's.
unfoldable pub compact : ℕ → ThreadWal → ThreadWal
compact count t = record t {
  removed = t.removed ++ (t.sealed ++ (if t.file_sealed then t.file ∷ [] else []));
  sealed = [];
  file = if t.file_sealed then [] else t.file;
  sealed_count = count;
}

-- The limit on sealed files in front of a rotation: compaction must bring the count below it.
unfoldable pub limit_sealed : Io → ThreadWal → ThreadWal × Bool
unfolding compact
limit_sealed io t =
    if ltb 0 t.max_sealed && leb t.max_sealed t.sealed_count
    then if io.compact_ok
      then (compact io.compacted_count t, ltb io.compacted_count t.max_sealed)
      else (record t { sealed_count = io.compacted_count }, false)
    else (t, true)

-- Room in the file: flush, limit and rotate where the entry would bring it to `max_size`.
unfoldable pub make_room : Io → ThreadWal → ℕ → ThreadWal × Bool
unfolding flush limit_sealed rotate
make_room io t entry_size =
    if leb t.max_size (t.current_size + length t.entry_buf + entry_size)
    then and_then (and_then (flush io.full t) (limit_sealed io)) (rotate io)
    else (t, true)

-- The tracking of the first and the last transaction of the file.
unfoldable pub track : TransactionId → ThreadWal → ThreadWal
track txn_id t =
    let first = t.oldest_txn_id.time == 0 && t.oldest_txn_id.count == 0 in
    record t { oldest_txn_id = if first then txn_id else t.oldest_txn_id; newest_txn_id = txn_id }

-- Whether the `fsync` behind a write past the buffer lets the call succeed.
abbrev pub synced : SyncMode → Bool → Bool
synced immediate fsync_ok = fsync_ok
synced debounced fsync_ok = fsync_ok
synced async fsync_ok = true

abbrev pub cut_direct : Written → Entry → ThreadWal → ThreadWal
cut_direct io e t = record t { file = t.file ++ taken io.short (encode e) }

abbrev pub stored_direct : Entry → ThreadWal → ThreadWal
stored_direct e t = record t {
  file = t.file ++ encode e;
  current_size = t.current_size + length (encode e);
  pending_writes = 0;
}

-- An entry larger than the buffer goes to the file at once.
unfoldable pub write_direct : Io → Entry → ThreadWal → ThreadWal × Bool
unfolding track
write_direct io e t =
    if not (is_whole io.direct.short && t.is_open)
    then (if t.is_open then cut_direct io.direct e t else t, false)
    else (track e.txn_id (stored_direct e t), synced t.sync_mode io.direct.fsync_ok)

-- The entry's place in the buffer.
unfoldable pub put : Entry → ThreadWal → ThreadWal
unfolding track
put e t =
    track e.txn_id
      (record t { entry_buf = t.entry_buf ++ encode e; batch_count = (t.batch_count + 1) % 2 ^ 16 })

-- The flush triggers, and the timer for the first entry of a batch.
unfoldable pub trigger : Io → ThreadWal → ThreadWal × Bool
unfolding flush
trigger io t =
    let timed = record t { timer_active = true } in
    if ltb 2048 (length t.entry_buf)
    then flush io.last t
    else if ltb 0 t.batch_size && leb t.batch_size t.batch_count
    then flush io.last t
    else if t.batch_count == 1
        && not t.timer_active
        && not (is_immediate t.sync_mode)
        && t.has_wheel
        && ltb 0 t.debounce_ms
    then (timed, true)
    else (t, true)

-- Behind the flush for a full buffer.
unfoldable pub past_flush : Io → Entry → ThreadWal → ThreadWal × Bool
unfolding write_direct put trigger
past_flush io e t =
    if ltb entry_buf_size (length (encode e)) then write_direct io e t else trigger io (put e t)

-- An entry that the buffer may hold, or not.
unfoldable pub store : Io → Entry → ThreadWal → ThreadWal × Bool
unfolding flush past_flush put trigger
store io e t =
    let size = length (encode e) in
    if ltb entry_buf_size (length t.entry_buf + size)
    then and_then (flush io.full t) (past_flush io e)
    else trigger io (put e t)

-- `thread_wal_write` of an entry as it is stored.
unfoldable pub append : Io → ThreadWal → Entry → ThreadWal × Bool
unfolding make_room store
append io t e = and_then (make_room io t (length (encode e))) (store io e)

-- `thread_wal_write`: 0 is true, -1 is false.
unfoldable pub write : Io → Option Cipher → List ℕ → ThreadWal → Entry → ThreadWal × Bool
unfolding append
write io encryption nonce t e = elim (seal encryption nonce e) [
  | none ↦ (t, false)
  | some stored ↦ append io t stored
]
