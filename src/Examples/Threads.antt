-- ===== src/Examples/Threads.antt =====
-- Runs of the thread logs of src/Database/wal_manager.c.
use wave_db.Base.{ℕ, ◌≡◌, refl, arith, true, false, none, some, [], ◌∷◌}
use wave_db.TransactionId.{TransactionId}
use wave_db.Wal.{Entry}
use wave_db.Wal.Recovery.{seal}
use wave_db.ThreadWal.{ThreadWal, Written, Io, debounced, write}
use wave_db.ThreadWal.Flushing.{IsValid}
use wave_db.ThreadWal.Appending.{write-IsValid}
use wave_db.ThreadWal.Completion.{IsDone, Works, write-Succeeds}
use wave_db.ThreadWal.Lifecycle.{Config, fresh}
use wave_db.ThreadWal.Runs.{compacted}

abbrev at : ℕ → TransactionId
at time = record { time = time; nanos = 5; count = 1 }

abbrev first : Entry
first = record { type = 112; txn_id = at 1000; payload = 1 ∷ 2 ∷ 3 ∷ [] }

abbrev second : Entry
second = record { type = 112; txn_id = at 1001; payload = 4 ∷ 5 ∷ [] }

abbrev config : Config
config = record {
  sync_mode = debounced;
  debounce_ms = 250;
  max_file_size = 40;
  max_sealed_wals = 8;
  has_wheel = true;
  sealed_count = 0;
  path_sealed = false;
}

abbrev done : Written
done = record { short = none; fsync_ok = true }

-- Every call succeeds; no compaction is needed.
abbrev good : Io
good = record {
  full = done;
  compact_ok = true;
  compacted_count = 0;
  manifest_ok = true;
  manifest_left = false;
  reopen_ok = true;
  path_ok = true;
  open_ok = true;
  existing = [];
  path_sealed = false;
  direct = done;
  last = done;
}

-- The file takes 10 bytes of a flush.
abbrev bad : Io
bad = record good { full = record { short = some 10; fsync_ok = true } }

done-IsDone : IsDone done
done-IsDone = record { whole = refl; fsync_ok = refl }

good-Works : Works 8 good
good-Works = record {
  full = done-IsDone;
  direct = done-IsDone;
  last = done-IsDone;
  compact_ok = refl;
  compacted = λ h. omega arith;
  manifest_ok = refl;
  path_ok = refl;
  open_ok = refl;
}

abbrev after_first : ThreadWal
after_first = (write good none [] (fresh config []) first).0

write-Succeeds_example :
    ((write good none [] (fresh config []) first).1 ≡ true)
    × (after_first.is_open ≡ true)
    × (after_first.max_sealed ≡ 8)
unfolding seal
write-Succeeds_example =
    write-Succeeds good none [] (fresh config []) first first refl good-Works refl

-- A new log is valid, and so is it after its first entry.
fresh-IsValid : IsValid (fresh config [])
fresh-IsValid = record { room = omega arith; count = omega arith; none_left = λ h. refl }

write-IsValid_example : IsValid (write bad none [] after_first second).0
write-IsValid_example =
    write-IsValid bad none [] after_first second
      (write-IsValid good none [] (fresh config []) first fresh-IsValid)
