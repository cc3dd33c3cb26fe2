-- ===== src/ThreadWal/Crash.antt =====
-- What recovery finds in the files of a thread's log after a crash.
use wave_db.Base.{◌≡◌, Option, List, ◌++◌, map, length}
use wave_db.Wal.{Entry}
use wave_db.Wal.Recovery.{Cipher, RecoveryEntry, read_wal_file}
use wave_db.Wal.Prefix.{encode_all, within}
use wave_db.ThreadWal.{ThreadWal}
use wave_db.ThreadWal.Concat.{concat}

-- All that a log holds.
abbrev pub whole : Option Cipher → List Entry → List RecoveryEntry
whole encryption es = within encryption (length (encode_all es)) 0 es

-- What is left of the log after a crash, when the buffer is lost: each file that a compaction has
-- unlinked held its entries whole, each closed file that is still there gives all its entries, the
-- last file gives all its entries, and with those that were lost from the buffer they are the entries
-- `es` in their order.
pub record Recovers (encryption : Option Cipher) (es : List Entry) (t : ThreadWal) : Type 0 where
  pub gone : List (List Entry)
  pub closed : List (List Entry)
  pub in_file : List Entry
  pub in_buffer : List Entry
  pub order : concat gone ++ (concat closed ++ (in_file ++ in_buffer)) ≡ es
  pub from_removed : map (read_wal_file encryption) t.removed ≡ map (whole encryption) gone
  pub from_closed : map (read_wal_file encryption) t.sealed ≡ map (whole encryption) closed
  pub from_file : read_wal_file encryption t.file ≡ whole encryption in_file
  pub lost : t.entry_buf ≡ encode_all in_buffer
