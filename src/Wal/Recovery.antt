-- ===== src/Wal/Recovery.antt =====
-- src/Database/wal_manager.c: reading the entries of one log file back, `read_wal_file`.
use wave_db.Base.{
  ℕ, zero, suc, ◌+◌, ◌%◌, Option, none, some, List, [], ◌∷◌, ◌==◌, if◌then◌else◌, length,
}
use wave_db.Wal.{Entry, read_entry}

-- The encryption context, over OpenSSL: `encryption_encrypt` with the nonce that it draws, and
-- `encryption_decrypt`.
pub record Cipher : Type 0 where
  pub encrypt : List ℕ → List ℕ → Option (List ℕ)
  pub decrypt : List ℕ → Option (List ℕ)

abbrev pub wal_encrypted_magic : ℕ
wal_encrypted_magic = 225

-- `recovery_entry_t`, without the path of the file.
pub record RecoveryEntry : Type 0 where
  pub entry : Entry
  pub offset : ℕ

-- The first byte of a decrypted payload is the entry's own type.
decrypted : Entry → Option (List ℕ) → Option Entry
decrypted e none = none
decrypted e (some []) = none
decrypted e (some (type ∷ plaintext)) = some (record e { type = type; payload = plaintext })

-- An entry as recovery takes it: decrypted where its type byte says so.
unfoldable pub open_entry : Option Cipher → Entry → Option Entry
unfolding decrypted
open_entry none e = if e.type == wal_encrypted_magic then none else some e
open_entry (some encryption) e =
    if e.type == wal_encrypted_magic then decrypted e (encryption.decrypt e.payload) else some e

-- The loop of `read_wal_file`: it stops at the end and at the first entry that it cannot read. Each
-- round takes at least 33 bytes, so as many rounds as bytes are enough.
unfoldable pub read_loop : ℕ → Option Cipher → ℕ → List ℕ → List RecoveryEntry
read_loop zero encryption cursor bytes = []
read_loop (suc fuel) encryption cursor bytes = elim (read_entry bytes) [
  | none ↦ []
  | some (e, rest) ↦ elim (open_entry encryption e) [
    | none ↦ []
    | some e' ↦
        record { entry = e'; offset = cursor }
        ∷ read_loop fuel encryption (cursor + (33 + length e.payload)) rest
  ]
]

-- `read_wal_file` on the bytes of the file.
unfoldable pub read_wal_file : Option Cipher → List ℕ → List RecoveryEntry
read_wal_file encryption file = read_loop (length file) encryption 0 file

-- What `thread_wal_write` stores for an entry: under encryption the type goes in front of the
-- payload and both are encrypted. `none` is a failed encryption.
unfoldable pub seal : Option Cipher → List ℕ → Entry → Option Entry
seal none nonce e = some e
seal (some encryption) nonce e = elim (encryption.encrypt nonce (e.type % 256 ∷ e.payload)) [
  | none ↦ none
  | some payload ↦ some (record e { type = wal_encrypted_magic; payload = payload })
]
