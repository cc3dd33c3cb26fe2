-- ===== src/LeafEntry.antt =====
-- src/HBTrie/hbtrie.c: the value of one leaf entry, at the end of a key's path, as
-- `hbtrie_find`, `hbtrie_insert`, `hbtrie_delete` and `hbtrie_gc` read and write it under the
-- node's lock.
pub mod Reads
pub mod Collected
use wave_db.Base.{ℕ, ◌+◌, Bool, true, false, Option, none, some, List, [], ◌∷◌, if◌then◌else◌}
use wave_db.TransactionId
use wave_db.TransactionId.{TransactionId, is_le, is_lt}
use wave_db.VersionChain
use wave_db.VersionChain.{VersionEntry, create}

-- `has_value` and `has_versions` of `bnode_entry_t` say which member of the union is in use.
-- A NULL value is `none`.
pub data LeafEntry {ℓ} (V : Type ℓ) : Type ℓ where
  no_value : LeafEntry V
  legacy : Option V → TransactionId → LeafEntry V
  versioned : List (VersionEntry V) → LeafEntry V

module _ {ℓ} {V : Type ℓ} where
  -- `visible == NULL || visible->value == NULL`
  abbrev pub value_of : Option (VersionEntry V) → Option V
  value_of none = none
  value_of (some version) = version.value

  -- The end of `hbtrie_find`.
  unfoldable pub read : LeafEntry V → TransactionId → Option V
  read no_value read_txn_id = none
  read (legacy value value_txn_id) read_txn_id = value
  read (versioned versions) read_txn_id = value_of (VersionChain.find_visible versions read_txn_id)

  -- A legacy value, upgraded to a chain of one version and written on top of. The pool gives out
  -- the old version, then the new one; if it gives only the first, the entry is left with no
  -- version and no value.
  upgrade_and_add :
      Bool → Bool → Option V → TransactionId → TransactionId → Option V → Bool → LeafEntry V × Bool
  upgrade_and_add false add_ok old old_id txn_id value is_deleted = (legacy old old_id, false)
  upgrade_and_add true false old old_id txn_id value is_deleted = (legacy none old_id, false)
  upgrade_and_add true true old old_id txn_id value is_deleted =
      (versioned (create txn_id value is_deleted ∷ create old_id old false ∷ []), true)

  -- `version_entry_add` on an entry that has a chain; on failure the chain stays.
  add_version : List (VersionEntry V) → Option (List (VersionEntry V)) → LeafEntry V × Bool
  add_version versions none = (versioned versions, false)
  add_version versions (some versions') = (versioned versions', true)

  -- The end of `hbtrie_insert` at an existing entry. The first two arguments are the pool's answers
  -- to the allocations of an old and of a new version; the result's flag is false where the code
  -- returns -1.
  unfoldable pub insert : Bool → Bool → LeafEntry V → TransactionId → V → LeafEntry V × Bool
  unfolding upgrade_and_add add_version
  insert old_ok add_ok no_value txn_id value = (legacy (some value) txn_id, true)
  insert old_ok add_ok (legacy old old_id) txn_id value =
      upgrade_and_add old_ok add_ok old old_id txn_id (some value) false
  insert old_ok add_ok (versioned versions) txn_id value =
      add_version versions (VersionChain.add add_ok versions txn_id (some value) false)

  -- The value that `hbtrie_delete` returns where it could write the tombstone.
  abbrev if_done : LeafEntry V × Bool → Option V → LeafEntry V × Option V
  if_done (entry, false) last_visible = (entry, none)
  if_done (entry, true) last_visible = (entry, last_visible)

  -- The end of `hbtrie_delete`, with the value that it returns.
  unfoldable pub delete : Bool → Bool → LeafEntry V → TransactionId → LeafEntry V × Option V
  unfolding upgrade_and_add add_version
  delete old_ok add_ok no_value txn_id = (no_value, none)
  delete old_ok add_ok (legacy none old_id) txn_id = (legacy none old_id, none)
  delete old_ok add_ok (legacy (some old) old_id) txn_id =
      if_done (upgrade_and_add old_ok add_ok (some old) old_id txn_id none true) (some old)
  delete old_ok add_ok (versioned versions) txn_id =
      if_done (add_version versions (VersionChain.add add_ok versions txn_id none true))
        (value_of (VersionChain.find_visible versions txn_id))

  -- What `hbtrie_gc` does to a collected chain: a sole live version becomes a legacy value, a sole
  -- tombstone below `min_active` takes the entry with it (`none`).
  unfoldable pub settle : List (VersionEntry V) → TransactionId → ℕ → Option (LeafEntry V) × ℕ
  settle [] min_active removed = (some (versioned []), removed)
  settle (sole ∷ []) min_active removed =
      if sole.is_deleted
      then if is_lt (TransactionId.compare sole.txn_id min_active)
        then (none, removed + 1)
        else (some (versioned (sole ∷ [])), removed)
      else (some (legacy sole.value sole.txn_id), removed)
  settle (newest ∷ next ∷ older) min_active removed =
      (some (versioned (newest ∷ next ∷ older)), removed)

  -- One leaf entry of `hbtrie_gc`, with what it adds to `total_removed`.
  unfoldable pub gc : LeafEntry V → TransactionId → Option (LeafEntry V) × ℕ
  gc no_value min_active = (some no_value, 0)
  gc (legacy value id) min_active = (some (legacy value id), 0)
  gc (versioned versions) min_active =
      let (kept, removed) = VersionChain.gc versions min_active in settle kept min_active removed
