-- ===== src/ThreadWal/Concat.antt =====
-- The entries of several files of a log one after another, and their bytes.
use wave_db.Base.{◌≡◌, ◌∙◌, refl, sym, ap, List, [], ◌∷◌, ◌++◌, map, All}
use wave_db.Wal.{Entry, encode}
use wave_db.Wal.Entries.{IsEntry}
use wave_db.Wal.Prefix.{encode_all}
use mathlib.Core.List.{append_assoc, append-nil}

-- The entries of several files.
unfoldable pub concat : List (List Entry) → List Entry
concat [] = []
concat (es ∷ files) = es ++ concat files

pub concat-append :
    (files more : List (List Entry)) → concat (files ++ more) ≡ concat files ++ concat more
unfolding concat
concat-append [] more = refl
concat-append (fs ∷ files) more =
    ap (λ l. fs ++ l) (concat-append files more)
    ∙ sym (append_assoc fs (concat files) (concat more))

pub concat-snoc :
    (files : List (List Entry)) (es rest : List Entry)
    → concat (files ++ (es ∷ [])) ++ rest ≡ concat files ++ (es ++ rest)
unfolding concat
concat-snoc files es rest =
    ap (λ l. l ++ rest)
      (concat-append files (es ∷ []) ∙ ap (λ l. concat files ++ l) (append-nil es))
    ∙ append_assoc (concat files) es rest

pub encode_all-append :
    (es more : List Entry) → encode_all (es ++ more) ≡ encode_all es ++ encode_all more
unfolding encode_all
encode_all-append [] more = refl
encode_all-append (e ∷ es) more =
    ap (λ l. encode e ++ l) (encode_all-append es more)
    ∙ sym (append_assoc (encode e) (encode_all es) (encode_all more))

pub encode_all_sole : (e : Entry) → encode_all (e ∷ []) ≡ encode e
unfolding encode_all
encode_all_sole e = append-nil (encode e)

pub map-encode_all-append :
    (files more : List (List Entry))
    → map encode_all (files ++ more) ≡ map encode_all files ++ map encode_all more
map-encode_all-append [] more = refl
map-encode_all-append (f ∷ files) more =
    ap (λ l. encode_all f ∷ l) (map-encode_all-append files more)

-- What comes behind all parts comes behind the last one.
pub behind :
    (xs ys zs es more : List Entry)
    → xs ++ (ys ++ zs) ≡ es
    → xs ++ (ys ++ (zs ++ more)) ≡ es ++ more
behind xs ys zs es more h =
    ap (λ l. xs ++ l) (sym (append_assoc ys zs more))
    ∙ sym (append_assoc xs (ys ++ zs) more)
    ∙ ap (λ l. l ++ more) h

pub All-split :
    (es more : List Entry) → All IsEntry (es ++ more) → All IsEntry es × All IsEntry more
All-split [] more h = (tt, h)
All-split (e ∷ es) more (h, k) = let (left, right) = All-split es more k in ((h, left), right)
