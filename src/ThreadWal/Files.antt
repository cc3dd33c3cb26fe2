-- ===== src/ThreadWal/Files.antt =====
-- Where the entries of a thread's log lie.
use wave_db.Base.{
  ℕ, ◌≡◌, ◌∙◌, refl, sym, ap, Bool, true, false, List, [], ◌∷◌, ◌++◌, map, if◌then◌else◌,
}
use wave_db.Wal.{Entry, encode}
use wave_db.Wal.Prefix.{encode_all}
use wave_db.ThreadWal.Concat.{
  concat, concat-append, concat-snoc, encode_all-append, encode_all_sole, map-encode_all-append,
  behind,
}
use wave_db.ThreadWal.{ThreadWal, compact}
use mathlib.Core.List.{append_assoc, append-nil}

-- The entries of the log: those of the files that are gone, of the closed ones, of the last file and
-- of the buffer, each part whole.
pub record Logs (t : ThreadWal) (es : List Entry) : Type 0 where
  pub gone : List (List Entry)
  pub closed : List (List Entry)
  pub in_file : List Entry
  pub in_buffer : List Entry
  pub removed : t.removed ≡ map encode_all gone
  pub sealed : t.sealed ≡ map encode_all closed
  pub file : t.file ≡ encode_all in_file
  pub buffer : t.entry_buf ≡ encode_all in_buffer
  pub order : concat gone ++ (concat closed ++ (in_file ++ in_buffer)) ≡ es

-- A state with the same files and the same buffer.
pub same_Logs :
    (t u : ThreadWal) (es : List Entry)
    → Logs t es
    → u.removed ≡ t.removed
    → u.sealed ≡ t.sealed
    → u.file ≡ t.file
    → u.entry_buf ≡ t.entry_buf
    → Logs u es
same_Logs t u es l r s f b = record {
  gone = l.gone;
  closed = l.closed;
  in_file = l.in_file;
  in_buffer = l.in_buffer;
  removed = r ∙ l.removed;
  sealed = s ∙ l.sealed;
  file = f ∙ l.file;
  buffer = b ∙ l.buffer;
  order = l.order;
}

-- An entry more in the buffer.
pub buffered-Logs :
    (t u : ThreadWal) (es : List Entry) (e : Entry)
    → Logs t es
    → u.removed ≡ t.removed
    → u.sealed ≡ t.sealed
    → u.file ≡ t.file
    → u.entry_buf ≡ t.entry_buf ++ encode e
    → Logs u (es ++ (e ∷ []))
buffered-Logs t u es e l r s f b = record {
  gone = l.gone;
  closed = l.closed;
  in_file = l.in_file;
  in_buffer = l.in_buffer ++ (e ∷ []);
  removed = r ∙ l.removed;
  sealed = s ∙ l.sealed;
  file = f ∙ l.file;
  buffer =
      b
      ∙ ap (λ x. x ++ encode e) l.buffer
      ∙ ap (λ x. encode_all l.in_buffer ++ x) (sym (encode_all_sole e))
      ∙ sym (encode_all-append l.in_buffer (e ∷ []));
  order =
      ap (λ x. concat l.gone ++ (concat l.closed ++ x))
        (sym (append_assoc l.in_file l.in_buffer (e ∷ [])))
      ∙ behind (concat l.gone) (concat l.closed) (l.in_file ++ l.in_buffer) es (e ∷ []) l.order;
}

-- The buffer moved to the file, and an entry more behind it.
pub written-Logs :
    (t u : ThreadWal) (es more : List Entry)
    → Logs t es
    → u.removed ≡ t.removed
    → u.sealed ≡ t.sealed
    → u.file ≡ (t.file ++ t.entry_buf) ++ encode_all more
    → u.entry_buf ≡ []
    → Logs u (es ++ more)
unfolding encode_all
written-Logs t u es more l r s f b = record {
  gone = l.gone;
  closed = l.closed;
  in_file = (l.in_file ++ l.in_buffer) ++ more;
  in_buffer = [];
  removed = r ∙ l.removed;
  sealed = s ∙ l.sealed;
  file =
      f
      ∙ ap (λ x. (x ++ t.entry_buf) ++ encode_all more) l.file
      ∙ ap (λ x. (encode_all l.in_file ++ x) ++ encode_all more) l.buffer
      ∙ ap (λ x. x ++ encode_all more) (sym (encode_all-append l.in_file l.in_buffer))
      ∙ sym (encode_all-append (l.in_file ++ l.in_buffer) more);
  buffer = b;
  order =
      ap (λ x. concat l.gone ++ (concat l.closed ++ x))
        (append-nil ((l.in_file ++ l.in_buffer) ++ more))
      ∙ behind (concat l.gone) (concat l.closed) (l.in_file ++ l.in_buffer) es more l.order;
}

-- The file closed, and the next one empty.
pub closed-Logs :
    (t u : ThreadWal) (es : List Entry)
    → Logs t es
    → u.removed ≡ t.removed
    → u.sealed ≡ t.sealed ++ (t.file ∷ [])
    → u.file ≡ []
    → u.entry_buf ≡ t.entry_buf
    → Logs u es
unfolding encode_all
closed-Logs t u es l r s f b = record {
  gone = l.gone;
  closed = l.closed ++ (l.in_file ∷ []);
  in_file = [];
  in_buffer = l.in_buffer;
  removed = r ∙ l.removed;
  sealed =
      s
      ∙ ap (λ x. x ++ (t.file ∷ [])) l.sealed
      ∙ ap (λ x. map encode_all l.closed ++ (x ∷ [])) l.file
      ∙ sym (map-encode_all-append l.closed (l.in_file ∷ []));
  file = f;
  buffer = b ∙ l.buffer;
  order = ap (λ x. concat l.gone ++ x) (concat-snoc l.closed l.in_file l.in_buffer) ∙ l.order;
}

-- The closed files gone.
removed-Logs :
    (t u : ThreadWal) (es : List Entry)
    → Logs t es
    → u.removed ≡ t.removed ++ t.sealed
    → u.sealed ≡ []
    → u.file ≡ t.file
    → u.entry_buf ≡ t.entry_buf
    → Logs u es
unfolding concat
removed-Logs t u es l r s f b = record {
  gone = l.gone ++ l.closed;
  closed = [];
  in_file = l.in_file;
  in_buffer = l.in_buffer;
  removed =
      r
      ∙ ap (λ x. x ++ t.sealed) l.removed
      ∙ ap (λ x. map encode_all l.gone ++ x) l.sealed
      ∙ sym (map-encode_all-append l.gone l.closed);
  sealed = s;
  file = f ∙ l.file;
  buffer = b ∙ l.buffer;
  order =
      ap (λ x. x ++ (l.in_file ++ l.in_buffer)) (concat-append l.gone l.closed)
      ∙ append_assoc (concat l.gone) (concat l.closed) (l.in_file ++ l.in_buffer)
      ∙ l.order;
}

-- A compaction removes the closed files, and the last one where that is sealed: as if it were
-- closed before.
compact_if-Logs :
    (shut : Bool) (t u : ThreadWal) (es : List Entry)
    → Logs t es
    → u.removed ≡ t.removed ++ (t.sealed ++ (if shut then t.file ∷ [] else []))
    → u.sealed ≡ []
    → u.file ≡ (if shut then [] else t.file)
    → u.entry_buf ≡ t.entry_buf
    → Logs u es
compact_if-Logs false t u es l r s f b =
    removed-Logs t u es l (r ∙ ap (λ x. t.removed ++ x) (append-nil t.sealed)) s f b
compact_if-Logs true t u es l r s f b =
    let next = record t { sealed = t.sealed ++ (t.file ∷ []); file = [] } in
    removed-Logs next u es (closed-Logs t next es l refl refl refl refl) r s f b

pub compact-Logs :
    (count : ℕ) (t : ThreadWal) (es : List Entry) → Logs t es → Logs (compact count t) es
unfolding compact
compact-Logs count t es l =
    compact_if-Logs t.file_sealed t (compact count t) es l refl refl refl refl
