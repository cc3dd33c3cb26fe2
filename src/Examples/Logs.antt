-- ===== src/Examples/Logs.antt =====
-- Runs of src/Database/wal.c, src/Database/wal_manager.c and src/Database/crc32.h.
use wave_db.Base.{
  ℕ, ◌≡◌, ◌∙◌, refl, sym, ap, arith, none, some, List, [], ◌∷◌, ◌++◌, length, drop, take, replicate,
  length-replicate, drop-append_left,
}
use wave_db.TransactionId.{TransactionId}
use wave_db.Identifier
use wave_db.Identifier.{Identifier, to_buffer}
use wave_db.Identifier.Chunking.{to_buffer-create}
use wave_db.Wal.{Entry, header, read_entry}
use wave_db.Wal.Crc.{crc32, crc_loop, crc_step, crc32_table}
use wave_db.Wal.Entries.{IsEntry}
use wave_db.Wal.Recovery.{Cipher, read_wal_file, open_entry}
use wave_db.Wal.Prefix.{encode_all, within, read_wal_file-within}
use wave_db.Wal.Payload.{path_byte_len, encode_put, decode_put}
use wave_db.Wal.Payload.RoundTrip.{
  IsWhole, bytes_of, value_bytes, read_back, decode_put-encode_put, decode_put-long_key,
}
use wave_db.Wal.Corruption.{with_byte, read_entry-damaged}

abbrev at : ℕ → TransactionId
at time = record { time = time; nanos = 5; count = 1 }

abbrev first : Entry
first = record { type = 112; txn_id = at 1000; payload = 1 ∷ 2 ∷ 3 ∷ [] }

abbrev second : Entry
second = record { type = 112; txn_id = at 1001; payload = 4 ∷ 5 ∷ [] }

first-IsEntry : IsEntry first
first-IsEntry = record {
  type = omega arith;
  txn_id = record { time = omega arith; nanos = omega arith; count = omega arith };
  payload = omega arith;
}

second-IsEntry : IsEntry second
second-IsEntry = record {
  type = omega arith;
  txn_id = record { time = omega arith; nanos = omega arith; count = omega arith };
  payload = omega arith;
}

-- The checksum of the letter a. With the table of the polynomial 0xEDB88320 it is 3904355907.
crc32_letter : crc32 (97 ∷ []) ≡ 1457758440
unfolding crc32 crc_step crc32_table
crc32_letter = refl

-- The first 50 bytes hold one entry and half of the next.
read_wal_file-within_example :
    read_wal_file none (take 50 (encode_all (first ∷ second ∷ [])))
    ≡ within none 50 0 (first ∷ second ∷ [])
read_wal_file-within_example =
    read_wal_file-within none (first ∷ second ∷ []) 50 (first-IsEntry, (second-IsEntry, tt))

one_of_two : within none 50 0 (first ∷ second ∷ []) ≡ record { entry = first; offset = 0 } ∷ []
unfolding within open_entry
one_of_two = refl

-- A cipher that puts the nonce, of one byte, in front.
abbrev prefix_cipher : Cipher
prefix_cipher = record {
  encrypt = λ nonce plain. some (length nonce ∷ (nonce ++ plain));
  decrypt = λ secret. elim secret [ [] ↦ none | n ∷ rest ↦ some (drop n rest) ];
}

prefix_cipher_right :
    (n plain secret : List ℕ)
    → prefix_cipher.encrypt n plain ≡ some secret
    → prefix_cipher.decrypt secret ≡ some plain
prefix_cipher_right n plain secret h =
    sym (ap (λ o. elim o [ none ↦ none | some bytes ↦ prefix_cipher.decrypt bytes ]) h)
    ∙ ap (λ bytes. some bytes) (drop-append_left n plain)

-- A payload that says 1 and holds 0 has the checksum that it announces.
read_entry-damaged_example :
    read_entry ((header (with_byte first [] 1 (2 ∷ 3 ∷ [])) ++ (0 ∷ 2 ∷ 3 ∷ [])) ++ [])
    ≡ some (with_byte first [] 0 (2 ∷ 3 ∷ []), [])
unfolding crc_loop
read_entry-damaged_example =
    read_entry-damaged first [] (2 ∷ 3 ∷ []) [] 1 0
      (record {
        type = omega arith;
        txn_id = record { time = omega arith; nanos = omega arith; count = omega arith };
        payload = omega arith;
      })
      refl refl

-- A path of two identifiers, and a value.
abbrev key : List ℕ → Identifier
key bytes = Identifier.create (some bytes) [] 4

key-IsWhole : (bytes : List ℕ) → IsWhole (key bytes)
unfolding Identifier.create
key-IsWhole bytes = ap length (to_buffer-create bytes [] 4)

decode_put-encode_put_example :
    read_back (
      decode_put [] 4
        (encode_put (key (97 ∷ []) ∷ key (98 ∷ 99 ∷ []) ∷ []) (some (key (7 ∷ 8 ∷ [])))))
    ≡ some
        (bytes_of (key (97 ∷ []) ∷ key (98 ∷ 99 ∷ []) ∷ []), value_bytes (some (key (7 ∷ 8 ∷ []))))
unfolding Identifier.create path_byte_len
decode_put-encode_put_example =
    decode_put-encode_put [] 4 (key (97 ∷ []) ∷ key (98 ∷ 99 ∷ []) ∷ []) (some (key (7 ∷ 8 ∷ [])))
      (
        record { whole = key-IsWhole (97 ∷ []); short = omega arith },
        (record { whole = key-IsWhole (98 ∷ 99 ∷ []); short = omega arith }, tt),
      )
      (omega arith) (omega arith) (key-IsWhole (7 ∷ 8 ∷ []), omega arith)

abbrev long_key : List ℕ
long_key = replicate 65536 7

long_key_size : (key long_key).size ≡ 65536
unfolding Identifier.create
long_key_size = length-replicate {A = ℕ} 65536 7

decode_put-long_key_example : decode_put [] 4 (encode_put (key long_key ∷ []) none) ≡ none
decode_put-long_key_example =
    decode_put-long_key [] 4 (key long_key) none (key-IsWhole long_key)
      (omega (arith, long_key_size)) (omega (arith, long_key_size))
