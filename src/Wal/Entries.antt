-- ===== src/Wal/Entries.antt =====
-- Reading what `encode` writes.
use wave_db.Base.{
  ℕ, ◌+◌, ◌%◌, ◌^◌, ◌<◌, ◌≡◌, ◌∙◌, refl, ap, arith, true, false, Option, none, some, List, [], ◌∷◌,
  ◌++◌, ltb, ◌==◌, length, length-append, take-append_left, drop-append_left,
}
use wave_db.Base.Bytes.{write_be32, read_be32, read_be64, read_be32-write_be32, ◌>>=◌}
use wave_db.TransactionId.{InRange, deserialize}
use wave_db.TransactionId.Codec.{deserialize-serialize, length-serialize}
use wave_db.Wal.Crc.{crc32, crc32-lt}
use wave_db.Wal.{Entry, header, encode, parse_header, read_payload, read_entry}
use mathlib.Core.List.{append_assoc}

-- An entry that a log can hold: a type byte, 64-bit fields, a payload of a 32-bit length.
pub record IsEntry (e : Entry) : Type 0 where
  pub type : e.type < 256
  pub txn_id : InRange e.txn_id
  pub payload : length e.payload < 2 ^ 32

pub parse_header-header :
    (e : Entry) (rest : List ℕ)
    → IsEntry e
    → parse_header (header e ++ rest)
      ≡ some (
        record { type = e.type; txn_id = e.txn_id; crc = crc32 e.payload; len = length e.payload },
        rest,
      )
unfolding parse_header header
parse_header-header e rest h =
    let t : e.type % 256 ≡ e.type = let b = h.type in omega arith in
    simp (
      append_assoc,
      t,
      deserialize-serialize e.txn_id
          (write_be32 (crc32 e.payload) ++ (write_be32 (length e.payload) ++ rest)) h.txn_id,
      read_be32-write_be32 (crc32 e.payload) (write_be32 (length e.payload) ++ rest)
          (crc32-lt e.payload),
      read_be32-write_be32 (length e.payload) rest h.payload,
    )

read_payload-whole :
    (e : Entry) (rest : List ℕ)
    → read_payload (
      record { type = e.type; txn_id = e.txn_id; crc = crc32 e.payload; len = length e.payload },
      e.payload ++ rest,
    )
      ≡ some (e, rest)
unfolding read_payload
read_payload-whole e rest =
    let l : ltb (length (e.payload ++ rest)) (length e.payload) ≡ false =
      ground (arith, length-append e.payload rest) in
    let c : (crc32 e.payload == crc32 e.payload) ≡ true = ground arith in
    rw (l, take-append_left e.payload rest, drop-append_left e.payload rest, c) refl

-- An entry in front of anything is read whole, and the rest is left.
pub read_entry-encode :
    (e : Entry) (rest : List ℕ) → IsEntry e → read_entry (encode e ++ rest) ≡ some (e, rest)
unfolding read_entry encode read_payload
read_entry-encode e rest h =
    ap (λ bytes. read_entry bytes) (append_assoc (header e) e.payload rest)
    ∙ rw (parse_header-header e (e.payload ++ rest) h) (read_payload-whole e rest)

-- What a reader of at least `n` bytes leaves.
abbrev pub Consumes {ℓ} : {A : Type ℓ} → ℕ → List ℕ → Option (A × List ℕ) → Type 0
Consumes n bytes none = Unit
Consumes n bytes (some (a, rest)) = length bytes ≡ n + length rest

Consumes-step {ℓ} :
    {A : Type ℓ} (n k : ℕ) (bytes rest : List ℕ) (o : Option (A × List ℕ))
    → length bytes ≡ n + length rest
    → Consumes k rest o
    → Consumes (n + k) bytes o
Consumes-step n k bytes rest none h c = tt
Consumes-step n k bytes rest (some (a, left)) h c = omega (arith, h, c)

Consumes-then {ℓ κ} :
    {A : Type ℓ} {B : Type κ} (n k : ℕ) (bytes : List ℕ) (m : Option (A × List ℕ))
    (f : A × List ℕ → Option (B × List ℕ))
    → Consumes n bytes m
    → ((a : A) (rest : List ℕ) → Consumes k rest (f (a, rest)))
    → Consumes (n + k) bytes (m >>= f)
Consumes-then n k bytes none f h c = tt
Consumes-then n k bytes (some (a, rest)) f h c =
    Consumes-step n k bytes rest (f (a, rest)) h (c a rest)

read_be32-Consumes : (bytes : List ℕ) → Consumes 4 bytes (read_be32 bytes)
unfolding read_be32
read_be32-Consumes [] = tt
read_be32-Consumes (a ∷ []) = tt
read_be32-Consumes (a ∷ b ∷ []) = tt
read_be32-Consumes (a ∷ b ∷ c ∷ []) = tt
read_be32-Consumes (a ∷ b ∷ c ∷ d ∷ rest) = omega arith

read_be64-Consumes : (bytes : List ℕ) → Consumes 8 bytes (read_be64 bytes)
unfolding read_be64
read_be64-Consumes bytes =
    Consumes-then 4 4 bytes (read_be32 bytes) _ (read_be32-Consumes bytes) (λ high rest.
      Consumes-then 4 0 rest (read_be32 rest) _ (read_be32-Consumes rest) (λ low left. omega arith))

deserialize-Consumes : (bytes : List ℕ) → Consumes 24 bytes (deserialize bytes)
unfolding deserialize
deserialize-Consumes bytes =
    Consumes-then 8 16 bytes (read_be64 bytes) _ (read_be64-Consumes bytes) (λ time rest1.
      Consumes-then 8 8 rest1 (read_be64 rest1) _ (read_be64-Consumes rest1) (λ nanos rest2.
        Consumes-then 8 0 rest2 (read_be64 rest2) _ (read_be64-Consumes rest2)
          (λ count left. omega arith)))

pub parse_header-Consumes : (bytes : List ℕ) → Consumes 33 bytes (parse_header bytes)
unfolding parse_header
parse_header-Consumes [] = tt
parse_header-Consumes (type ∷ bytes) =
    Consumes-step 1 32 (type ∷ bytes) bytes (parse_header (type ∷ bytes)) (omega arith) (
      Consumes-then 24 8 bytes (deserialize bytes) _ (deserialize-Consumes bytes) (λ id rest1.
        Consumes-then 4 4 rest1 (read_be32 rest1) _ (read_be32-Consumes rest1) (λ crc rest2.
          Consumes-then 4 0 rest2 (read_be32 rest2) _ (read_be32-Consumes rest2)
            (λ len left. omega arith))))

pub length-header : (e : Entry) → length (header e) ≡ 33
unfolding header write_be32
length-header e = simp (length-append, length-serialize e.txn_id) refl
