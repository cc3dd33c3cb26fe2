-- ===== src/Wal/Corruption.antt =====
-- What the checksum of an entry does not see.
use wave_db.Base.{ℕ, ◌%◌, ◌≡◌, ◌∙◌, sym, ap, some, List, ◌∷◌, ◌++◌, length, length-append}
use wave_db.Base.Bytes.{write_be32}
use wave_db.TransactionId.{serialize}
use wave_db.Wal.{Entry, header, encode, read_entry}
use wave_db.Wal.Crc.{crc32, state, crc32_blind}
use wave_db.Wal.Entries.{IsEntry, read_entry-encode}
use Prim.Native.Nat.{bit_xor}

-- One byte `x` of the payload, between `p` and `s`.
abbrev pub with_byte : Entry → List ℕ → ℕ → List ℕ → Entry
with_byte e p x s = record e { payload = p ++ (x ∷ s) }

same_length : (p s : List ℕ) (x y : ℕ) → length (p ++ (x ∷ s)) ≡ length (p ++ (y ∷ s))
same_length p s x y = length-append p (x ∷ s) ∙ sym (length-append p (y ∷ s))

same_header :
    (e : Entry) (p s : List ℕ) (x y : ℕ)
    → crc32 (p ++ (x ∷ s)) ≡ crc32 (p ++ (y ∷ s))
    → header (with_byte e p x s) ≡ header (with_byte e p y s)
unfolding header
same_header e p s x y h =
    ap
      (λ c.
        e.type % 256 ∷ (serialize e.txn_id ++ (write_be32 c ++ write_be32 (length (p ++ (x ∷ s))))))
      h
    ∙ ap
        (λ n.
          e.type % 256
          ∷ (serialize e.txn_id ++ (write_be32 (crc32 (p ++ (y ∷ s))) ++ write_be32 n)))
        (same_length p s x y)

-- A damaged payload that is read as a good one: where a byte of an entry, together with the checksum
-- of the bytes in front of it, selects element 254 of the table, another byte in its place that
-- selects element 255 is not noticed.
pub read_entry-damaged :
    (e : Entry) (p s rest : List ℕ) (x y : ℕ)
    → IsEntry (with_byte e p y s)
    → bit_xor (state p) x % 256 ≡ 254
    → bit_xor (state p) y % 256 ≡ 255
    → read_entry ((header (with_byte e p x s) ++ (p ++ (y ∷ s))) ++ rest)
      ≡ some (with_byte e p y s, rest)
unfolding encode
read_entry-damaged e p s rest x y entry h k =
    ap (λ b. read_entry ((b ++ (p ++ (y ∷ s))) ++ rest))
      (same_header e p s x y (crc32_blind p s x y h k))
    ∙ read_entry-encode (with_byte e p y s) rest entry
