-- ===== src/ThreadWal/Runs.antt =====
-- The calls on one thread's log one after another, and where its entries lie.
use wave_db.Base.{
  ℕ, ◌≡◌, refl, arith, Bool, true, false, not, Option, some, List, [], ◌∷◌, ◌++◌, All, All-snoc,
  if_elim,
}
use wave_db.Wal.{Entry}
use wave_db.Wal.Entries.{IsEntry}
use wave_db.Wal.Recovery.{Cipher, seal}
use wave_db.Wal.Prefix.{encode_all}
use wave_db.ThreadWal.{ThreadWal, Written, Io, flush, compact, write}
use wave_db.ThreadWal.Concat.{concat}
use wave_db.ThreadWal.Files.{Logs, same_Logs, compact-Logs}
use wave_db.ThreadWal.Flushing.{IsValid, flush-IsValid, flush-Logs, same_buffer}
use wave_db.ThreadWal.Writing.{compact-IsValid}
use wave_db.ThreadWal.Appending.{write-Logs, write-IsValid}
use wave_db.ThreadWal.Lifecycle.{Config, fresh, flush_timer, flush_thread, thread_wal_seal}

-- Series of steps from the creation of a new log on, with the entries that they stored: calls that
-- succeeded, compactions by another thread or at the end, and changes of the manager's count by
-- other threads. A failed encryption changes nothing. The path of the log and of each file that a
-- rotation opens held nothing and is not called sealed in the manifest.
pub data Run (encryption : Option Cipher) (config : Config) : List Entry → ThreadWal → Type 0 where
  created : config.path_sealed ≡ false → Run encryption config [] (fresh config [])
  wrote :
      (es : List Entry) (t : ThreadWal) (io : Io) (nonce : List ℕ) (e stored : Entry)
      → Run encryption config es t
      → seal encryption nonce e ≡ some stored
      → IsEntry stored
      → io.existing ≡ []
      → io.path_sealed ≡ false
      → (write io encryption nonce t e).1 ≡ true
      → Run encryption config (es ++ (stored ∷ [])) (write io encryption nonce t e).0
  timed :
      (es : List Entry) (t : ThreadWal) (io : Written)
      → Run encryption config es t
      → (flush io t).1 ≡ true
      → Run encryption config es (flush_timer io t)
  flushed :
      (es : List Entry) (t : ThreadWal) (io : Written)
      → Run encryption config es t
      → (flush io t).1 ≡ true
      → Run encryption config es (flush_thread io t)
  sealed :
      (es : List Entry) (t : ThreadWal) (io : Written) (fsync_ok manifest_ok manifest_left : Bool)
      → Run encryption config es t
      → (thread_wal_seal io fsync_ok manifest_ok manifest_left t).1 ≡ true
      → Run encryption config es (thread_wal_seal io fsync_ok manifest_ok manifest_left t).0
  compacted :
      (es : List Entry) (t : ThreadWal) (count : ℕ)
      → Run encryption config es t
      → Run encryption config es (compact count t)
  counted :
      (es : List Entry) (t : ThreadWal) (count : ℕ)
      → Run encryption config es t
      → Run encryption config es (record t { sealed_count = count })

-- What holds of the state and the entries of a run.
pub record Lies (es : List Entry) (t : ThreadWal) : Type 0 where
  pub valid : IsValid t
  pub logs : Logs t es
  pub entries : All IsEntry es

created-Lies : (config : Config) → Lies [] (fresh config [])
unfolding concat encode_all
created-Lies config = record {
  valid = record { room = omega arith; count = omega arith; none_left = λ h. refl };
  logs = record {
    gone = [];
    closed = [];
    in_file = [];
    in_buffer = [];
    removed = refl;
    sealed = refl;
    file = refl;
    buffer = refl;
    order = refl;
  };
  entries = tt;
}

-- A flush that succeeded moves no entry; nor does what leaves the files and the buffer alone.
flushed-Lies :
    (es : List Entry) (t : ThreadWal) (io : Written)
    → Lies es t
    → (flush io t).1 ≡ true
    → Lies es (flush io t).0
flushed-Lies es t io l h = record {
  valid = flush-IsValid io t l.valid;
  logs = flush-Logs io t es l.logs h;
  entries = l.entries;
}

same_files :
    (es : List Entry) (t u : ThreadWal)
    → Lies es t
    → u.removed ≡ t.removed
    → u.sealed ≡ t.sealed
    → u.file ≡ t.file
    → u.entry_buf ≡ t.entry_buf
    → u.batch_count ≡ t.batch_count
    → Lies es u
same_files es t u l r s f b c = record {
  valid = same_buffer t u l.valid b c;
  logs = same_Logs t u es l.logs r s f b;
  entries = l.entries;
}

thread_wal_seal-Lies :
    (es : List Entry) (t : ThreadWal) (io : Written) (fsync_ok manifest_ok manifest_left : Bool)
    → Lies es t
    → (thread_wal_seal io fsync_ok manifest_ok manifest_left t).1 ≡ true
    → Lies es (thread_wal_seal io fsync_ok manifest_ok manifest_left t).0
unfolding thread_wal_seal
thread_wal_seal-Lies es t io fsync_ok manifest_ok manifest_left l =
    if_elim {A = ThreadWal × Bool} (λ o. o.1 ≡ true → Lies es o.0) (not ((flush io t).1)) _ _
      (λ a d. cc)
      (λ a d.
        same_files es (flush io t).0 _ (flushed-Lies es t io l (ground (arith, a))) refl refl refl
          refl refl)

pub Run-Lies :
    (encryption : Option Cipher) (config : Config) (es : List Entry) (t : ThreadWal)
    → Run encryption config es t
    → Lies es t
unfolding flush_timer flush_thread
Run-Lies encryption config _ _ (created _) = created-Lies config
Run-Lies encryption config _ _ (wrote es t io nonce e stored run stores entry none_there _ h) =
    let l = Run-Lies encryption config es t run in
    record {
      valid = write-IsValid io encryption nonce t e l.valid;
      logs = write-Logs io encryption nonce t e stored es stores none_there l.valid l.logs h;
      entries = All-snoc IsEntry es stored l.entries entry;
    }
Run-Lies encryption config _ _ (timed es t io run h) =
    same_files es (flush io t).0 (flush_timer io t)
      (flushed-Lies es t io (Run-Lies encryption config es t run) h) refl refl refl refl refl
Run-Lies encryption config _ _ (flushed es t io run h) =
    same_files es (flush io t).0 (flush_thread io t)
      (flushed-Lies es t io (Run-Lies encryption config es t run) h) refl refl refl refl refl
Run-Lies encryption config _ _ (sealed es t io fsync_ok manifest_ok manifest_left run h) =
    thread_wal_seal-Lies es t io fsync_ok manifest_ok manifest_left
      (Run-Lies encryption config es t run) h
Run-Lies encryption config _ _ (compacted es t count run) =
    let l = Run-Lies encryption config es t run in
    record {
      valid = compact-IsValid count t l.valid;
      logs = compact-Logs count t es l.logs;
      entries = l.entries;
    }
Run-Lies encryption config _ _ (counted es t count run) =
    same_files es t (record t { sealed_count = count }) (Run-Lies encryption config es t run) refl
      refl refl refl refl
