-- ===== src/ThreadWal/Lifecycle.antt =====
-- src/Database/wal_manager.c: the creation of a thread's log, its timer, the flush of all logs, and
-- the sealing of a log for good.
use wave_db.Base.{
  ℕ, Bool, true, false, ◌&&◌, ◌||◌, not, Option, none, some, List, [], if◌then◌else◌,
}
use wave_db.ThreadWal.{
  SyncMode, immediate, debounced, async, ThreadWal, Written, no_txn, is_immediate, flush,
}

-- `wal_config_t` and what the manager brings: also whether its manifest calls the path of the new log
-- sealed.
pub record Config : Type 0 where
  pub sync_mode : SyncMode
  pub debounce_ms : ℕ
  pub max_file_size : ℕ
  pub max_sealed_wals : ℕ
  pub has_wheel : Bool
  pub sealed_count : ℕ
  pub path_sealed : Bool

-- The new log, where the file at its path holds `existing`.
abbrev pub fresh : Config → List ℕ → ThreadWal
fresh config existing = record {
  removed = [];
  sealed = [];
  file_sealed = config.path_sealed;
  file = existing;
  is_open = true;
  entry_buf = [];
  batch_count = 0;
  batch_size = if is_immediate config.sync_mode then 1 else 0;
  current_size = 0;
  max_size = config.max_file_size;
  pending_writes = 0;
  sync_mode = config.sync_mode;
  oldest_txn_id = no_txn;
  newest_txn_id = no_txn;
  timer_active = false;
  has_wheel = config.has_wheel;
  debounce_ms = config.debounce_ms;
  sealed_count = config.sealed_count;
  max_sealed = config.max_sealed_wals;
}

-- `create_thread_wal`; `none` is a file that cannot be opened.
unfoldable pub create : Config → Option (List ℕ) → Option ThreadWal
create config none = none
create config (some existing) = some (fresh config existing)

-- `pending_writes` behind the timer.
abbrev pub pending_timed : SyncMode → Bool → ℕ → ℕ
pending_timed immediate is_open pending = pending
pending_timed debounced is_open pending = if is_open then 0 else pending
pending_timed async is_open pending = 0

-- `wal_flush_timer_callback`. What its `fsync` answers has no effect.
unfoldable pub flush_timer : Written → ThreadWal → ThreadWal
unfolding flush
flush_timer io t =
    let u = (flush io t).0 in
    record u {
      pending_writes = pending_timed u.sync_mode u.is_open u.pending_writes;
      timer_active = false;
    }

-- What `wal_manager_flush` does for one thread. It looks at no result.
unfoldable pub flush_thread : Written → ThreadWal → ThreadWal
unfolding flush
flush_thread io t =
    let u = (flush io t).0 in
    record u {
      pending_writes = if u.is_open then 0 else u.pending_writes;
      timer_active = u.timer_active && not u.has_wheel;
    }

-- `thread_wal_seal`, with the answers to the flush, the `fsync` and the manifest entry, and whether
-- that is in the manifest where it was refused.
unfoldable pub thread_wal_seal : Written → Bool → Bool → Bool → ThreadWal → ThreadWal × Bool
unfolding flush
thread_wal_seal io fsync_ok manifest_ok manifest_left t =
    let u = (flush io t).0 in
    let shut = record u {
      timer_active = u.timer_active && not u.has_wheel;
      is_open = false;
      file_sealed = u.file_sealed || (manifest_ok || manifest_left);
    } in
    if not ((flush io t).1)
    then (u, false)
    else (shut, (if u.is_open then fsync_ok else true) && manifest_ok)
