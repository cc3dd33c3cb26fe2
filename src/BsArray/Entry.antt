-- ===== src/BsArray/Entry.antt =====
-- src/HBTrie/bnode.c and bnode.h: the key of an entry, with up to eight bytes of it inline.
use wave_db.Base.{
  ℕ, ◌-◌, ◌%◌, ◌<◌, ◌≡◌, Ordering, Option, none, some, List, ◌++◌, ◌&&◌, ltb, leb, if◌then◌else◌,
  length, replicate, arith,
}
use wave_db.Chunk
use wave_db.Chunk.{Chunk}
use wave_db.Chunk.Order.{inline_key_compare-compare}

abbrev pub bnode_inline_key_size : ℕ
bnode_inline_key_size = 8

-- The key fields of `bnode_entry_t`, with the rest of the entry as a value of any type.
pub record BnodeEntry {ℓ} (V : Type ℓ) : Type ℓ where
  pub key_data : List ℕ
  pub key_len : ℕ
  pub key : Option Chunk
  pub payload : V

module _ {ℓ} {V : Type ℓ} where
  -- `bnode_entry_set_key`. The length is kept in a `uint8_t`.
  unfoldable pub set_key : BnodeEntry V → Option Chunk → BnodeEntry V
  set_key entry none = record entry {
    key = none;
    key_len = 0;
    key_data = replicate bnode_inline_key_size 0;
  }
  set_key entry (some key) = record entry {
    key = some key;
    key_len = length key % 256;
    key_data =
        if leb (length key) bnode_inline_key_size
        then key ++ replicate (bnode_inline_key_size - length key) 0
        else replicate bnode_inline_key_size 0;
  }

  -- `bnode_entry_get_key`
  abbrev pub get_key : BnodeEntry V → Option Chunk
  get_key entry = entry.key

  -- `bs_array_entry_cmp`
  unfoldable pub entry_cmp : BnodeEntry V → Option Chunk → Ordering
  entry_cmp entry key =
      if ltb 0 entry.key_len && leb entry.key_len bnode_inline_key_size
      then Chunk.inline_key_compare (some entry.key_data) entry.key_len key
      else Chunk.compare entry.key key

  -- An entry whose key was set to `key` compares as `key` does, inline or not, for keys of at most
  -- 255 bytes.
  pub entry_cmp-set_key :
      (entry : BnodeEntry V) (key : Chunk) (other : Option Chunk)
      → length key < 256
      → entry_cmp (set_key entry (some key)) other ≡ Chunk.compare (some key) other
  unfolding entry_cmp set_key
  entry_cmp-set_key entry key other h = ground (
    arith,
    inline_key_compare-compare key other (replicate (bnode_inline_key_size - length key) 0),
  )
