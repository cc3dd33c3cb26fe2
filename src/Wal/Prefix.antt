-- ===== src/Wal/Prefix.antt =====
-- Recovery of a file that ends anywhere in a sequence of entries: what a crash leaves of a log.
use wave_db.Base.{
  ℕ, zero, suc, ◌+◌, ◌-◌, ◌<◌, ◌≤◌, ◌≡◌, ◌∙◌, refl, ap, arith, inl, inr, true, false, Option, none,
  some, List, [], ◌∷◌, ◌++◌, ltb, leb, if◌then◌else◌, length, take, length-append, Bool-cases,
  take-append_past, length-take, All,
}
use wave_db.Wal.{Entry, header, encode, Header, parse_header, read_payload, read_entry}
use wave_db.Wal.Entries.{
  IsEntry, read_entry-encode, parse_header-header, Consumes, parse_header-Consumes, length-header,
}
use wave_db.Wal.Recovery.{Cipher, RecoveryEntry, open_entry, read_loop, read_wal_file}
use mathlib.Core.List.{append_assoc}

-- A log: its entries one behind the other.
unfoldable pub encode_all : List Entry → List ℕ
encode_all [] = []
encode_all (e ∷ es) = encode e ++ encode_all es

-- The entries that lie wholly within the first `k` bytes, with their offsets, up to the first that
-- the encryption context does not open.
unfoldable pub within : Option Cipher → ℕ → ℕ → List Entry → List RecoveryEntry
within encryption k cursor [] = []
within encryption k cursor (e ∷ es) =
    let rest =
      within encryption (k - (33 + length e.payload)) (cursor + (33 + length e.payload)) es in
    if leb (33 + length e.payload) k
    then elim (open_entry encryption e) [
      | none ↦ []
      | some e' ↦ record { entry = e'; offset = cursor } ∷ rest
    ]
    else []

pub length-encode : (e : Entry) → length (encode e) ≡ 33 + length e.payload
unfolding encode
length-encode e = omega (arith, length-append (header e) e.payload, length-header e)

no_header :
    (bytes : List ℕ) (o : Option (Header × List ℕ))
    → Consumes 33 bytes o
    → length bytes < 33
    → o ≡ none
no_header bytes none c h = refl
no_header bytes (some (a, rest)) c h = absurd (omega (arith, c, h))

-- Within the header nothing is read.
cut_header : (bytes : List ℕ) → length bytes < 33 → read_entry bytes ≡ none
unfolding read_entry
cut_header bytes h = rw (no_header bytes (parse_header bytes) (parse_header-Consumes bytes) h) refl

-- Within the payload neither.
cut_payload :
    (e : Entry) (bytes : List ℕ)
    → IsEntry e
    → length bytes < length e.payload
    → read_entry (header e ++ bytes) ≡ none
unfolding read_entry read_payload
cut_payload e bytes h short =
    let l : ltb (length bytes) (length e.payload) ≡ true = ground arith in
    rw (parse_header-header e bytes h, l) refl

take_past :
    (xs more : List ℕ) (n k : ℕ)
    → length xs ≡ n
    → n ≤ k
    → take k (xs ++ more) ≡ xs ++ take (k - n) more
take_past xs more n k l h =
    let e : k ≡ length xs + (k - n) = omega (arith, l) in
    ap (λ m. take m (xs ++ more)) e ∙ take-append_past xs more (k - n)

cut_entry :
    (e : Entry) (more : List ℕ) (k : ℕ)
    → IsEntry e
    → k < 33 + length e.payload
    → read_entry (take k (encode e ++ more)) ≡ none
unfolding encode
cut_entry e more k h short = elim (Bool-cases (ltb k 33)) [
  | inl early ↦
      cut_header (take k (encode e ++ more))
        (let a : k < 33 = ground arith in omega (arith, a, length-take k (encode e ++ more)))
  | inr late ↦
      let a : 33 ≤ k = ground arith in
      ap (λ l. read_entry (take k l)) (append_assoc (header e) e.payload more)
      ∙ ap (λ l. read_entry l) (take_past (header e) (e.payload ++ more) 33 k (length-header e) a)
      ∙ cut_payload e (take (k - 33) (e.payload ++ more)) h
          (omega (arith, a, short, length-take (k - 33) (e.payload ++ more)))
]

whole_entry :
    (e : Entry) (more : List ℕ) (k : ℕ)
    → 33 + length e.payload ≤ k
    → take k (encode e ++ more) ≡ encode e ++ take (k - (33 + length e.payload)) more
whole_entry e more k h = take_past (encode e) more (33 + length e.payload) k (length-encode e) h

take-none : (k : ℕ) → take {A = ℕ} k [] ≡ []
take-none zero = refl
take-none (suc k) = refl

read_loop-within :
    (encryption : Option Cipher) (es : List Entry) (fuel k cursor : ℕ)
    → All IsEntry es
    → length (take k (encode_all es)) ≤ fuel
    → read_loop fuel encryption cursor (take k (encode_all es)) ≡ within encryption k cursor es
unfolding read_loop within encode_all
read_loop-within encryption [] zero k cursor h enough = refl
read_loop-within encryption [] (suc fuel) k cursor h enough =
    rw (take-none k, cut_header [] (omega arith), read_loop) refl
read_loop-within encryption (e ∷ es) zero k cursor h enough =
    let l : leb (33 + length e.payload) k ≡ false = ground (
      arith,
      length-take k (encode e ++ encode_all es),
      length-append (encode e) (encode_all es),
      length-encode e,
    ) in
    rw l refl
read_loop-within encryption (e ∷ es) (suc fuel) k cursor h enough =
    elim (Bool-cases (leb (33 + length e.payload) k)) [
      | inr cut ↦ rw (cut, cut_entry e (encode_all es) k h.0 (ground arith), read_loop) refl
      | inl whole ↦
          let a : 33 + length e.payload ≤ k = ground arith in
          let n = k - (33 + length e.payload) in
          let ih = read_loop-within encryption es fuel n (cursor + (33 + length e.payload)) h.1 (
            omega (
              arith,
              enough,
              ap length (whole_entry e (encode_all es) k a),
              length-append (encode e) (take n (encode_all es)),
              length-encode e,
            )) in
          rw
            (
              whole,
              whole_entry e (encode_all es) k a,
              read_entry-encode e (take n (encode_all es)) h.0,
              read_loop,
            )
            (ap
              (λ (l : List RecoveryEntry).
                elim (open_entry encryption e) as (λ x. List RecoveryEntry) [
                  | none ↦ []
                  | some e' ↦ record { entry = e'; offset = cursor } ∷ l
                ])
              ih)
    ]

-- Recovery of the first `k` bytes of a log gives the entries that lie wholly within them, in order
-- and at their offsets, up to the first that the encryption context does not open.
pub read_wal_file-within :
    (encryption : Option Cipher) (es : List Entry) (k : ℕ)
    → All IsEntry es
    → read_wal_file encryption (take k (encode_all es)) ≡ within encryption k 0 es
unfolding read_wal_file
read_wal_file-within encryption es k h = read_loop-within encryption es _ k 0 h (omega arith)
