-- ===== src/ThreadWal/Appending.antt =====
-- `thread_wal_write` as a whole: the bounds of its buffer, and the entry that a success adds.
use mathlib.Core.Path.{subst}
use wave_db.Base.{
  ℕ, ◌+◌, ◌≤◌, ◌≡◌, sym, ap, arith, inl, inr, Bool, true, false, Option, none, some, List, [], ◌∷◌,
  ◌++◌, ltb, length, Option-cases, if_elim,
}
use wave_db.Wal.{Entry, encode}
use wave_db.Wal.Recovery.{Cipher, seal}
use wave_db.ThreadWal.{
  ThreadWal, Io, entry_buf_size, flush, make_room, and_then, write_direct, put, trigger, past_flush,
  store, append, write,
}
use wave_db.ThreadWal.Files.{Logs}
use wave_db.ThreadWal.Flushing.{
  IsValid, Ensures, Always, and_then-Ensures, and_then-Always, and_then-Success, flush-IsValid,
  flush-empty,
}
use wave_db.ThreadWal.Writing.{
  Holds, IsEmptied, flush-IsEmptied, make_room-Holds, make_room-IsValid, put-IsValid, put-Logs,
  trigger-IsValid, trigger-Logs, write_direct-IsValid, write_direct-Logs,
}

past_flush-Logs :
    (io : Io) (e : Entry) (t : ThreadWal) (es : List Entry)
    → Logs t es
    → t.entry_buf ≡ []
    → Ensures (λ u. Logs u (es ++ (e ∷ []))) (past_flush io e t)
unfolding past_flush
past_flush-Logs io e t es l none_left =
    if_elim {A = ThreadWal × Bool} (Ensures (λ u. Logs u (es ++ (e ∷ [])))) _ _ _
      (λ a. write_direct-Logs io e t es l none_left)
      (λ a. trigger-Logs io (put e t) (es ++ (e ∷ [])) (put-Logs e t es l))

store-Logs :
    (io : Io) (e : Entry) (t : ThreadWal) (es : List Entry)
    → Holds es t
    → Ensures (λ u. Logs u (es ++ (e ∷ []))) (store io e t)
unfolding store
store-Logs io e t es h =
    if_elim {A = ThreadWal × Bool} (Ensures (λ u. Logs u (es ++ (e ∷ [])))) _ _ _
      (λ a.
        and_then-Ensures (IsEmptied es) (λ u. Logs u (es ++ (e ∷ []))) (flush io.full t)
          (past_flush io e) (flush-IsEmptied io.full t es h)
          (λ u (v, l, none_left). past_flush-Logs io e u es l none_left))
      (λ a. trigger-Logs io (put e t) (es ++ (e ∷ [])) (put-Logs e t es h.1))

append-Logs :
    (io : Io) (t : ThreadWal) (e : Entry) (es : List Entry)
    → io.existing ≡ []
    → Holds es t
    → Ensures (λ u. Logs u (es ++ (e ∷ []))) (append io t e)
unfolding append
append-Logs io t e es fresh h =
    and_then-Ensures (Holds es) (λ u. Logs u (es ++ (e ∷ []))) (make_room io t (length (encode e)))
      (store io e) (make_room-Holds io t (length (encode e)) es fresh h)
      (λ u k. store-Logs io e u es k)

pub write-append :
    (io : Io) (encryption : Option Cipher) (nonce : List ℕ) (t : ThreadWal) (e : Entry)
    (sealing : Option Entry)
    → seal encryption nonce e ≡ sealing
    → write io encryption nonce t e
      ≡ elim sealing [ none ↦ (t, false) | some stored ↦ append io t stored ]
unfolding write
write-append io encryption nonce t e sealing h =
    ap (λ s. elim s [ none ↦ (t, false) | some stored ↦ append io t stored ]) h

-- A write that succeeds adds its entry, as it is stored, behind all entries of the log. The path of
-- a new file held nothing before.
pub write-Logs :
    (io : Io) (encryption : Option Cipher) (nonce : List ℕ) (t : ThreadWal) (e stored : Entry)
    (es : List Entry)
    → seal encryption nonce e ≡ some stored
    → io.existing ≡ []
    → IsValid t
    → Logs t es
    → (write io encryption nonce t e).1 ≡ true
    → Logs (write io encryption nonce t e).0 (es ++ (stored ∷ []))
write-Logs io encryption nonce t e stored es sealed fresh v l =
    subst (Ensures (λ u. Logs u (es ++ (stored ∷ []))))
      (sym (write-append io encryption nonce t e (some stored) sealed))
      (append-Logs io t stored es fresh (v, l))

past_flush-IsValid :
    (io : Io) (e : Entry) (t : ThreadWal)
    → IsValid t
    → t.entry_buf ≡ []
    → IsValid (past_flush io e t).0
unfolding past_flush
past_flush-IsValid io e t v none_left =
    if_elim (Always IsValid) (ltb entry_buf_size (length (encode e))) (write_direct io e t)
      (trigger io (put e t)) (λ a. write_direct-IsValid io e t v)
      (λ a.
        let fits : length t.entry_buf + length (encode e) ≤ entry_buf_size =
          let b = ap length none_left in ground (arith, b) in
        trigger-IsValid io (put e t) (put-IsValid e t fits v))

store-IsValid : (io : Io) (e : Entry) (t : ThreadWal) → IsValid t → IsValid (store io e t).0
unfolding store
store-IsValid io e t v =
    if_elim (Always IsValid) (ltb entry_buf_size (length t.entry_buf + length (encode e)))
      (and_then (flush io.full t) (past_flush io e)) (trigger io (put e t))
      (λ a.
        and_then-Success IsValid (λ u. u.entry_buf ≡ []) (flush io.full t) (past_flush io e)
          (flush-IsValid io.full t v) (flush-empty io.full t v)
          (λ u w none_left. past_flush-IsValid io e u w none_left))
      (λ a. trigger-IsValid io (put e t) (put-IsValid e t (ground arith) v))

append-IsValid : (io : Io) (t : ThreadWal) (e : Entry) → IsValid t → IsValid (append io t e).0
unfolding append
append-IsValid io t e v =
    and_then-Always IsValid (make_room io t (length (encode e))) (store io e)
      (make_room-IsValid io t (length (encode e)) v) (store-IsValid io e)

-- Whatever the system calls answer, a write leaves at most 4096 bytes in the buffer, at least 33 of
-- them for each entry that it counts, and none where it counts none.
pub write-IsValid :
    (io : Io) (encryption : Option Cipher) (nonce : List ℕ) (t : ThreadWal) (e : Entry)
    → IsValid t
    → IsValid (write io encryption nonce t e).0
write-IsValid io encryption nonce t e v = elim (Option-cases (seal encryption nonce e)) [
  | inl refused ↦ subst (Always IsValid) (sym (write-append io encryption nonce t e none refused)) v
  | inr (stored, done) ↦
      subst (Always IsValid) (sym (write-append io encryption nonce t e (some stored) done))
        (append-IsValid io t stored v)
]
