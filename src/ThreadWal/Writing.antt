-- ===== src/ThreadWal/Writing.antt =====
-- What a write to a thread's log keeps, and what it adds.
use wave_db.Base.{
  ℕ, ◌+◌, ◌≤◌, ◌≡◌, ◌∙◌, refl, sym, ap, arith, Bool, true, false, ◌&&◌, not, List, [], ◌∷◌, ◌++◌,
  ltb, leb, ◌==◌, length, length-append, if_elim,
}
use wave_db.Wal.{Entry, encode}
use wave_db.Wal.Prefix.{encode_all, length-encode}
use wave_db.ThreadWal.{
  ThreadWal, Written, Io, entry_buf_size, flush, rotate, limit_sealed, compact, make_room, and_then,
  track, write_direct, put, trigger, cut_direct, stored_direct, synced, is_whole, is_immediate,
}
use wave_db.ThreadWal.Flushing.{
  IsValid, Ensures, Always, and_then-Ensures, and_then-Always, same_buffer, flush-IsValid,
  flush-Logs, flush-empty, rotate-IsValid, rotate-Logs,
}
use wave_db.ThreadWal.Concat.{encode_all_sole}
use wave_db.ThreadWal.Files.{Logs, same_Logs, buffered-Logs, written-Logs, compact-Logs}
use mathlib.Core.List.{append-nil}

-- Both at once.
abbrev pub Holds : List Entry → ThreadWal → Type 0
Holds es t = IsValid t × Logs t es

abbrev pub IsEmptied : List Entry → ThreadWal → Type 0
IsEmptied es t = IsValid t × Logs t es × (t.entry_buf ≡ [])

pub flush-IsEmptied :
    (io : Written) (t : ThreadWal) (es : List Entry)
    → Holds es t
    → Ensures (IsEmptied es) (flush io t)
flush-IsEmptied io t es (v, l) d =
    (flush-IsValid io t v, flush-Logs io t es l d, flush-empty io t v d)

-- The outcomes of the limit on sealed files.
pub limit_sealed_elim :
    (P : ThreadWal × Bool → Type 0) (io : Io) (t : ThreadWal)
    → (io.compact_ok ≡ true
        → ltb 0 t.max_sealed && leb t.max_sealed t.sealed_count ≡ true
        → P (compact io.compacted_count t, ltb io.compacted_count t.max_sealed))
    → (io.compact_ok ≡ false → P (record t { sealed_count = io.compacted_count }, false))
    → P (t, true)
    → P (limit_sealed io t)
unfolding limit_sealed
limit_sealed_elim P io t compacted refused below =
    if_elim P (ltb 0 t.max_sealed && leb t.max_sealed t.sealed_count) _ _
      (λ a. if_elim P io.compact_ok _ _ (λ b. compacted b a) refused) (λ a. below)

pub compact-IsValid : (count : ℕ) (t : ThreadWal) → IsValid t → IsValid (compact count t)
unfolding compact
compact-IsValid count t v = same_buffer t (compact count t) v refl refl

limit_sealed-IsValid : (io : Io) (t : ThreadWal) → IsValid t → IsValid (limit_sealed io t).0
limit_sealed-IsValid io t v =
    limit_sealed_elim (Always IsValid) io t (λ a b. compact-IsValid io.compacted_count t v)
      (λ a. same_buffer t (record t { sealed_count = io.compacted_count }) v refl refl) v

limit_sealed-Logs :
    (io : Io) (t : ThreadWal) (es : List Entry)
    → Logs t es
    → Ensures (λ u. Logs u es) (limit_sealed io t)
limit_sealed-Logs io t es l =
    limit_sealed_elim (Ensures (λ u. Logs u es)) io t
      (λ a b d. compact-Logs io.compacted_count t es l) (λ a d. cc) (λ d. l)

limit_sealed-Holds :
    (io : Io) (t : ThreadWal) (es : List Entry)
    → Holds es t
    → Ensures (Holds es) (limit_sealed io t)
limit_sealed-Holds io t es (v, l) d = (limit_sealed-IsValid io t v, limit_sealed-Logs io t es l d)

pub make_room-Holds :
    (io : Io) (t : ThreadWal) (size : ℕ) (es : List Entry)
    → io.existing ≡ []
    → Holds es t
    → Ensures (Holds es) (make_room io t size)
unfolding make_room
make_room-Holds io t size es fresh (v, l) =
    if_elim {A = ThreadWal × Bool} (Ensures (Holds es)) _ _ _
      (λ a.
        and_then-Ensures (Holds es) (Holds es) _ (rotate io)
          (and_then-Ensures (Holds es) (Holds es) (flush io.full t) (limit_sealed io)
            (λ d. (flush-IsValid io.full t v, flush-Logs io.full t es l d))
            (λ u k. limit_sealed-Holds io u es k))
          (λ u k d. (rotate-IsValid io u k.0, rotate-Logs io u es fresh k.1 d)))
      (λ a d. (v, l))

pub make_room-IsValid :
    (io : Io) (t : ThreadWal) (size : ℕ) → IsValid t → IsValid (make_room io t size).0
unfolding make_room
make_room-IsValid io t size v =
    if_elim (Always IsValid) (leb t.max_size (t.current_size + length t.entry_buf + size))
      (and_then (and_then (flush io.full t) (limit_sealed io)) (rotate io)) (t, true)
      (λ a.
        and_then-Always IsValid (and_then (flush io.full t) (limit_sealed io)) (rotate io)
          (and_then-Always IsValid (flush io.full t) (limit_sealed io) (flush-IsValid io.full t v)
            (limit_sealed-IsValid io))
          (rotate-IsValid io))
      (λ a. v)

-- An entry that fits goes to the buffer.
pub put-IsValid :
    (e : Entry) (t : ThreadWal)
    → length t.entry_buf + length (encode e) ≤ entry_buf_size
    → IsValid t
    → IsValid (put e t)
unfolding put track
put-IsValid e t fits v =
    let c = v.count in
    let n = length-append t.entry_buf (encode e) in
    let m = length-encode e in
    record {
      room = omega (arith, fits, n);
      count = omega (arith, fits, c, n, m);
      none_left = λ h. absurd (omega (arith, fits, c, m, h));
    }

pub put-Logs :
    (e : Entry) (t : ThreadWal) (es : List Entry) → Logs t es → Logs (put e t) (es ++ (e ∷ []))
unfolding put track
put-Logs e t es l = buffered-Logs t (put e t) es e l refl refl refl refl

-- The triggers flush the buffer or leave it.
pub trigger_elim :
    (P : ThreadWal × Bool → Type 0) (io : Io) (t : ThreadWal)
    → P (flush io.last t)
    → P (record t { timer_active = true }, true)
    → P (t, true)
    → P (trigger io t)
unfolding trigger
trigger_elim P io t flushed timed left =
    if_elim P (ltb 2048 (length t.entry_buf)) _ _ (λ a. flushed)
      (λ a.
        if_elim P (ltb 0 t.batch_size && leb t.batch_size t.batch_count) _ _ (λ b. flushed)
          (λ b.
            if_elim P
              (t.batch_count == 1
                && not t.timer_active
                && not (is_immediate t.sync_mode)
                && t.has_wheel
                && ltb 0 t.debounce_ms)
              _ _ (λ c. timed) (λ c. left)))

pub trigger-IsValid : (io : Io) (t : ThreadWal) → IsValid t → IsValid (trigger io t).0
trigger-IsValid io t v =
    trigger_elim (λ o. IsValid o.0) io t (flush-IsValid io.last t v)
      (same_buffer t (record t { timer_active = true }) v refl refl) v

pub trigger-Logs :
    (io : Io) (t : ThreadWal) (es : List Entry)
    → Logs t es
    → Ensures (λ u. Logs u es) (trigger io t)
trigger-Logs io t es l =
    trigger_elim (Ensures (λ u. Logs u es)) io t (flush-Logs io.last t es l)
      (λ d. same_Logs t (record t { timer_active = true }) es l refl refl refl refl) (λ d. l)

pub write_direct_elim :
    (P : ThreadWal × Bool → Type 0) (io : Io) (e : Entry) (t : ThreadWal)
    → P (t, false)
    → P (cut_direct io.direct e t, false)
    → P (track e.txn_id (stored_direct e t), synced t.sync_mode io.direct.fsync_ok)
    → P (write_direct io e t)
unfolding write_direct
write_direct_elim P io e t shut short done =
    if_elim P (not (is_whole io.direct.short && t.is_open)) _ _
      (λ a. if_elim (λ u. P (u, false)) t.is_open _ _ (λ b. short) (λ b. shut)) (λ a. done)

pub write_direct-IsValid :
    (io : Io) (e : Entry) (t : ThreadWal) → IsValid t → IsValid (write_direct io e t).0
unfolding track
write_direct-IsValid io e t v =
    write_direct_elim (λ o. IsValid o.0) io e t v
      (same_buffer t (cut_direct io.direct e t) v refl refl)
      (same_buffer t (track e.txn_id (stored_direct e t)) v refl refl)

pub write_direct-Logs :
    (io : Io) (e : Entry) (t : ThreadWal) (es : List Entry)
    → Logs t es
    → t.entry_buf ≡ []
    → Ensures (λ u. Logs u (es ++ (e ∷ []))) (write_direct io e t)
unfolding track
write_direct-Logs io e t es l none_left =
    write_direct_elim (Ensures (λ u. Logs u (es ++ (e ∷ [])))) io e t (λ d. cc) (λ d. cc)
      (λ d.
        written-Logs t (track e.txn_id (stored_direct e t)) es (e ∷ []) l refl refl file none_left)
  where
    file : t.file ++ encode e ≡ (t.file ++ t.entry_buf) ++ encode_all (e ∷ [])
    file =
        ap (λ b. b ++ encode e) (sym (append-nil t.file) ∙ ap (λ b. t.file ++ b) (sym none_left))
        ∙ ap (λ b. (t.file ++ t.entry_buf) ++ b) (sym (encode_all_sole e))
