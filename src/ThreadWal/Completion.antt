-- ===== src/ThreadWal/Completion.antt =====
-- When `thread_wal_write` has to succeed.
use wave_db.Base.{
  ℕ, ◌+◌, ◌<◌, ◌≡◌, refl, sym, arith, Bool, true, false, ◌&&◌, not, Option, some, List, ltb, leb,
  ◌==◌, length, if_elim,
}
use wave_db.Wal.{Entry, encode}
use wave_db.Wal.Recovery.{Cipher, seal}
use wave_db.ThreadWal.{
  ThreadWal, Written, Io, SyncMode, immediate, debounced, async, entry_buf_size, is_whole,
  is_immediate, and_then, flush, rotate, limit_sealed, compact, make_room, track, synced,
  write_direct, put, trigger, past_flush, store, append, write,
}
use wave_db.ThreadWal.Appending.{write-append}
use wave_db.ThreadWal.Writing.{limit_sealed_elim, trigger_elim}
use mathlib.Core.Path.{subst}

-- A write that takes everything, with its `fsync`.
pub record IsDone (io : Written) : Type 0 where
  pub whole : is_whole io.short ≡ true
  pub fsync_ok : io.fsync_ok ≡ true

-- Every system call succeeds, and compaction brings the sealed files below their limit.
pub record Works (max_sealed : ℕ) (io : Io) : Type 0 where
  pub full : IsDone io.full
  pub direct : IsDone io.direct
  pub last : IsDone io.last
  pub compact_ok : io.compact_ok ≡ true
  pub compacted : 0 < max_sealed → io.compacted_count < max_sealed
  pub manifest_ok : io.manifest_ok ≡ true
  pub path_ok : io.path_ok ≡ true
  pub open_ok : io.open_ok ≡ true

-- An open file, under the limit.
abbrev IsOpen : ℕ → ThreadWal → Type 0
IsOpen max_sealed t = (t.is_open ≡ true) × (t.max_sealed ≡ max_sealed)

abbrev pub Succeeds : (ThreadWal → Type 0) → ThreadWal × Bool → Type 0
Succeeds P o = (o.1 ≡ true) × P o.0

and_then-Succeeds :
    (P Q : ThreadWal → Type 0) (o : ThreadWal × Bool) (next : ThreadWal → ThreadWal × Bool)
    → Succeeds P o
    → ((u : ThreadWal) → P u → Succeeds Q (next u))
    → Succeeds Q (and_then o next)
and_then-Succeeds P Q (t, false) next (h, p) k = cc
and_then-Succeeds P Q (t, true) next (h, p) k = k t p

flush-Succeeds :
    (m : ℕ) (io : Written) (t : ThreadWal)
    → IsDone io
    → IsOpen m t
    → Succeeds (IsOpen m) (flush io t)
unfolding flush
flush-Succeeds m io t w (up, limit) =
    if_elim {A = ThreadWal × Bool} (Succeeds (IsOpen m)) (t.batch_count == 0) _ _
      (λ a. (refl, (up, limit)))
      (λ a.
        if_elim {A = ThreadWal × Bool} (Succeeds (IsOpen m)) (length t.entry_buf == 0) _ _
          (λ b. (refl, (up, limit)))
          (λ b.
            if_elim {A = ThreadWal × Bool} (Succeeds (IsOpen m))
              (not (is_whole io.short && t.is_open)) _ _
              (λ c. let h = w.whole in absurd (ground (arith, c, h, up)))
              (λ c.
                if_elim {A = ThreadWal × Bool} (Succeeds (IsOpen m))
                  (is_immediate t.sync_mode && not io.fsync_ok) _ _
                  (λ d. let h = w.fsync_ok in absurd (ground (arith, d, h)))
                  (λ d. (refl, (up, limit))))))

limit_sealed-Succeeds :
    (m : ℕ) (io : Io) (t : ThreadWal)
    → Works m io
    → IsOpen m t
    → Succeeds (IsOpen m) (limit_sealed io t)
unfolding compact
limit_sealed-Succeeds m io t w (up, limit) =
    limit_sealed_elim (Succeeds (IsOpen m)) io t
      (λ a b.
        let c : io.compacted_count < m = w.compacted (ground (arith, b, limit)) in
        (ground (arith, c, limit), (up, limit)))
      (λ a. absurd (let h = w.compact_ok in cc)) (refl, (up, limit))

rotate-Succeeds :
    (m : ℕ) (io : Io) (t : ThreadWal) → Works m io → IsOpen m t → Succeeds (IsOpen m) (rotate io t)
unfolding rotate
rotate-Succeeds m io t w (up, limit) =
    if_elim {A = ThreadWal × Bool} (Succeeds (IsOpen m)) (not io.manifest_ok) _ _
      (λ a. let h = w.manifest_ok in absurd (ground (arith, a, h)))
      (λ a.
        if_elim {A = ThreadWal × Bool} (Succeeds (IsOpen m)) (not (io.path_ok && io.open_ok)) _ _
          (λ b. let h = w.path_ok in let k = w.open_ok in absurd (ground (arith, b, h, k)))
          (λ b. (refl, (refl, limit))))

make_room-Succeeds :
    (m : ℕ) (io : Io) (t : ThreadWal) (size : ℕ)
    → Works m io
    → IsOpen m t
    → Succeeds (IsOpen m) (make_room io t size)
unfolding make_room
make_room-Succeeds m io t size w h =
    if_elim {A = ThreadWal × Bool} (Succeeds (IsOpen m))
      (leb t.max_size (t.current_size + length t.entry_buf + size)) _ _
      (λ a.
        and_then-Succeeds (IsOpen m) (IsOpen m) _ (rotate io)
          (and_then-Succeeds (IsOpen m) (IsOpen m) (flush io.full t) (limit_sealed io)
            (flush-Succeeds m io.full t w.full h) (λ u k. limit_sealed-Succeeds m io u w k))
          (λ u k. rotate-Succeeds m io u w k))
      (λ a. (refl, h))

synced-done : (mode : SyncMode) (ok : Bool) → ok ≡ true → synced mode ok ≡ true
synced-done immediate ok h = h
synced-done debounced ok h = h
synced-done async ok h = refl

write_direct-Succeeds :
    (m : ℕ) (io : Io) (e : Entry) (t : ThreadWal)
    → Works m io
    → IsOpen m t
    → Succeeds (IsOpen m) (write_direct io e t)
unfolding write_direct track
write_direct-Succeeds m io e t w (up, limit) =
    if_elim {A = ThreadWal × Bool} (Succeeds (IsOpen m))
      (not (is_whole io.direct.short && t.is_open)) _ _
      (λ a. let h = w.direct.whole in absurd (ground (arith, a, h, up)))
      (λ a. (synced-done t.sync_mode io.direct.fsync_ok w.direct.fsync_ok, (up, limit)))

trigger-Succeeds :
    (m : ℕ) (io : Io) (t : ThreadWal) → Works m io → IsOpen m t → Succeeds (IsOpen m) (trigger io t)
trigger-Succeeds m io t w h =
    trigger_elim (Succeeds (IsOpen m)) io t (flush-Succeeds m io.last t w.last h) (refl, h)
      (refl, h)

put-IsOpen : (m : ℕ) (e : Entry) (t : ThreadWal) → IsOpen m t → IsOpen m (put e t)
unfolding put track
put-IsOpen m e t h = h

past_flush-Succeeds :
    (m : ℕ) (io : Io) (e : Entry) (t : ThreadWal)
    → Works m io
    → IsOpen m t
    → Succeeds (IsOpen m) (past_flush io e t)
unfolding past_flush
past_flush-Succeeds m io e t w h =
    if_elim {A = ThreadWal × Bool} (Succeeds (IsOpen m)) (ltb entry_buf_size (length (encode e))) _
      _ (λ a. write_direct-Succeeds m io e t w h)
      (λ a. trigger-Succeeds m io (put e t) w (put-IsOpen m e t h))

store-Succeeds :
    (m : ℕ) (io : Io) (e : Entry) (t : ThreadWal)
    → Works m io
    → IsOpen m t
    → Succeeds (IsOpen m) (store io e t)
unfolding store
store-Succeeds m io e t w h =
    if_elim {A = ThreadWal × Bool} (Succeeds (IsOpen m))
      (ltb entry_buf_size (length t.entry_buf + length (encode e))) _ _
      (λ a.
        and_then-Succeeds (IsOpen m) (IsOpen m) (flush io.full t) (past_flush io e)
          (flush-Succeeds m io.full t w.full h) (λ u k. past_flush-Succeeds m io e u w k))
      (λ a. trigger-Succeeds m io (put e t) w (put-IsOpen m e t h))

append-Succeeds :
    (m : ℕ) (io : Io) (t : ThreadWal) (e : Entry)
    → Works m io
    → IsOpen m t
    → Succeeds (IsOpen m) (append io t e)
unfolding append
append-Succeeds m io t e w h =
    and_then-Succeeds (IsOpen m) (IsOpen m) (make_room io t (length (encode e))) (store io e)
      (make_room-Succeeds m io t (length (encode e)) w h) (λ u k. store-Succeeds m io e u w k)

-- A write to an open file succeeds, leaves a file open and the limit as it was, when the encryption
-- and every system call succeed and compaction brings the sealed files below their limit.
pub write-Succeeds :
    (io : Io) (encryption : Option Cipher) (nonce : List ℕ) (t : ThreadWal) (e stored : Entry)
    → seal encryption nonce e ≡ some stored
    → Works t.max_sealed io
    → t.is_open ≡ true
    → ((write io encryption nonce t e).1 ≡ true)
      × ((write io encryption nonce t e).0.is_open ≡ true)
      × ((write io encryption nonce t e).0.max_sealed ≡ t.max_sealed)
write-Succeeds io encryption nonce t e stored sealed w up =
    subst (λ o. (o.1 ≡ true) × (o.0.is_open ≡ true) × (o.0.max_sealed ≡ t.max_sealed))
      (sym (write-append io encryption nonce t e (some stored) sealed))
      (let (done, (still, limit)) = append-Succeeds t.max_sealed io t stored w (up, refl) in
        (done, still, limit))
