-- ===== src/ThreadWal/Flushing.antt =====
-- What the flush and the rotation of a thread's log keep.
use wave_db.Base.{
  ℕ, ◌*◌, ◌≤◌, ◌≡◌, ◌⊎◌, ◌∙◌, refl, sym, arith, inl, inr, Bool, true, false, ◌&&◌, not, List, [],
  ◌∷◌, ◌++◌, ◌==◌, if◌then◌else◌, length, if_elim,
}
use wave_db.Wal.{Entry}
use wave_db.Wal.Prefix.{encode_all}
use wave_db.ThreadWal.{
  ThreadWal, Written, Io, entry_buf_size, flush, rotate, and_then, cut, grown, emptied, opened,
  closed, unsealed, is_whole, is_immediate,
}
use wave_db.ThreadWal.Files.{Logs, written-Logs, closed-Logs}
use mathlib.Core.List.{append-nil}
use mathlib.Core.Path.{subst}

-- The buffer is within its bounds, and the count of its entries is true to it: each takes 33 bytes
-- or more.
pub record IsValid (t : ThreadWal) : Type 0 where
  pub room : length t.entry_buf ≤ entry_buf_size
  pub count : 33 * t.batch_count ≤ length t.entry_buf
  pub none_left : t.batch_count ≡ 0 → t.entry_buf ≡ []

-- The outcomes of a flush.
pub flush_elim :
    (P : ThreadWal × Bool → Type 0) (io : Written) (t : ThreadWal)
    → ((t.batch_count ≡ 0) ⊎ (length t.entry_buf ≡ 0) → P (t, true))
    → P (t, false)
    → P (cut io t, false)
    → P (grown t, false)
    → P (emptied t, true)
    → P (flush io t)
unfolding flush
flush_elim P io t idle shut short unsynced done =
    if_elim P (t.batch_count == 0) _ _ (λ a. idle (inl (ground arith)))
      (λ a.
        if_elim P (length t.entry_buf == 0) _ _ (λ b. idle (inr (ground arith)))
          (λ b.
            if_elim P (not (is_whole io.short && t.is_open)) _ _
              (λ c. if_elim (λ u. P (u, false)) t.is_open _ _ (λ d. short) (λ d. shut))
              (λ c.
                if_elim P (is_immediate t.sync_mode && not io.fsync_ok) _ _ (λ d. unsynced)
                  (λ d. done))))

no_bytes : (xs : List ℕ) → length xs ≡ 0 → xs ≡ []
no_bytes [] h = refl
no_bytes (x ∷ xs) h = absurd (omega (arith, h))

-- A state with the same buffer is as valid.
pub same_buffer :
    (t u : ThreadWal)
    → IsValid t
    → u.entry_buf ≡ t.entry_buf
    → u.batch_count ≡ t.batch_count
    → IsValid u
same_buffer t u v b c = record {
  room = rw b v.room;
  count = rw (b, c) v.count;
  none_left = λ h. b ∙ v.none_left (sym c ∙ h);
}

pub flush-IsValid : (io : Written) (t : ThreadWal) → IsValid t → IsValid (flush io t).0
flush-IsValid io t v =
    flush_elim (λ o. IsValid o.0) io t (λ h. v) v (same_buffer t (cut io t) v refl refl)
      (same_buffer t (grown t) v refl refl)
      (record { room = omega arith; count = omega arith; none_left = λ h. refl })

pub flush-Logs :
    (io : Written) (t : ThreadWal) (es : List Entry)
    → Logs t es
    → (flush io t).1 ≡ true
    → Logs (flush io t).0 es
unfolding encode_all
flush-Logs io t es l =
    flush_elim (λ o. o.1 ≡ true → Logs o.0 es) io t (λ h d. l) (λ d. cc) (λ d. cc) (λ d. cc)
      (λ d. subst (Logs (emptied t)) (append-nil es) (
        written-Logs t (emptied t) es [] l refl refl (sym (append-nil (t.file ++ t.entry_buf)))
          refl))

-- A flush that succeeds leaves the buffer empty.
pub flush-empty :
    (io : Written) (t : ThreadWal)
    → IsValid t
    → (flush io t).1 ≡ true
    → (flush io t).0.entry_buf ≡ []
flush-empty io t v =
    flush_elim (λ o. o.1 ≡ true → o.0.entry_buf ≡ []) io t
      (λ h d. elim h [ inl e ↦ v.none_left e | inr e ↦ no_bytes t.entry_buf e ]) (λ d. cc) (λ d. cc)
      (λ d. cc) (λ d. refl)

-- What holds of the state after success, and of the state whatever the outcome.
abbrev pub Ensures : (ThreadWal → Type 0) → ThreadWal × Bool → Type 0
Ensures P o = o.1 ≡ true → P o.0

abbrev pub Always : (ThreadWal → Type 0) → ThreadWal × Bool → Type 0
Always P o = P o.0

pub and_then-Ensures :
    (P Q : ThreadWal → Type 0) (o : ThreadWal × Bool) (next : ThreadWal → ThreadWal × Bool)
    → Ensures P o
    → ((u : ThreadWal) → P u → Ensures Q (next u))
    → Ensures Q (and_then o next)
and_then-Ensures P Q (t, false) next h k = λ d. cc
and_then-Ensures P Q (t, true) next h k = k t (h refl)

pub and_then-Always :
    (P : ThreadWal → Type 0) (o : ThreadWal × Bool) (next : ThreadWal → ThreadWal × Bool)
    → Always P o
    → ((u : ThreadWal) → P u → Always P (next u))
    → Always P (and_then o next)
and_then-Always P (t, false) next h k = h
and_then-Always P (t, true) next h k = k t h

-- The same, where the next step also needs what the success of the first one gives.
pub and_then-Success :
    (P Q : ThreadWal → Type 0) (o : ThreadWal × Bool) (next : ThreadWal → ThreadWal × Bool)
    → Always P o
    → Ensures Q o
    → ((u : ThreadWal) → P u → Q u → Always P (next u))
    → Always P (and_then o next)
and_then-Success P Q (t, false) next h q k = h
and_then-Success P Q (t, true) next h q k = k t h (q refl)

-- A rotation that succeeds closes the file, and the next one is empty where its path held nothing.
pub rotate-Logs :
    (io : Io) (t : ThreadWal) (es : List Entry)
    → io.existing ≡ []
    → Logs t es
    → Ensures (λ u. Logs u es) (rotate io t)
unfolding rotate
rotate-Logs io t es fresh l =
    if_elim {A = ThreadWal × Bool} (Ensures (λ u. Logs u es)) (not io.manifest_ok) _ _ (λ a d. cc)
      (λ a.
        if_elim {A = ThreadWal × Bool} (Ensures (λ u. Logs u es)) (not (io.path_ok && io.open_ok)) _
          _ (λ b d. cc) (λ b d. closed-Logs t (opened io t) es l refl refl fresh refl))

pub rotate-IsValid : (io : Io) (t : ThreadWal) → IsValid t → IsValid (rotate io t).0
unfolding rotate
rotate-IsValid io t v =
    if_elim (Always IsValid) (not io.manifest_ok) (unsealed io t, false)
      (if not (io.path_ok && io.open_ok) then (closed t, false) else (opened io t, true))
      (λ a. same (unsealed io t) refl refl)
      (λ a.
        if_elim (Always IsValid) (not (io.path_ok && io.open_ok)) (closed t, false)
          (opened io t, true) (λ b. same (closed t) refl refl) (λ b. same (opened io t) refl refl))
  where
    same : (u : ThreadWal) → u.entry_buf ≡ t.entry_buf → u.batch_count ≡ t.batch_count → IsValid u
    same u b c = same_buffer t u v b c
