-- ===== src/HbTrie.antt =====
-- src/HBTrie/hbtrie.c: the trie of nodes that each hold a B+ tree. A path is the chunks of its
-- identifiers in a row, since each of them has one or more and the code descends one node per chunk.
-- The identifiers are as `identifier_create` makes them, which pass the guard on their lengths.
-- A trie of depth d is what d chunks of a path can reach. Nodes are in memory, and their allocation
-- succeeds.
pub mod Slots
pub mod Admission
pub mod Writes
pub mod Invariant
pub mod Rewrites
pub mod Deletes
pub mod Runs
use wave_db.Base.{ℕ, zero, suc, Bool, false, Option, none, some, List, [], ◌∷◌}
use wave_db.TransactionId.{TransactionId}
use wave_db.Chunk.{Chunk}
use wave_db.BsArray.Entry.{BnodeEntry, set_key}
use wave_db.Bnode
use wave_db.Bnode.{Sizes, Btree, blank}
use wave_db.Bnode.Update.{update}
use wave_db.LeafEntry
use wave_db.LeafEntry.{LeafEntry, no_value}

-- What an entry of a leaf holds: a value, and the node below, which is `child`, or `trie_child` next to
-- a value.
pub record Slot {ℓ} (V N : Type ℓ) : Type ℓ where
  pub value : LeafEntry V
  pub child : Option N

abbrev pub empty_slot {ℓ} : {V N : Type ℓ} → Slot V N
empty_slot = record { value = no_value; child = none }

-- `hbtrie_node_t`
abbrev pub Node {ℓ} : Type ℓ → ℕ → Type ℓ
Node V zero = Unit
Node V (suc d) = Btree (Slot V (Node V d))

module _ {ℓ} (V : Type ℓ) where
  -- `hbtrie_node_create`
  abbrev pub node_create : (d : ℕ) → Node V d
  node_create zero = tt
  node_create (suc d) = record { height = 0; root = [] }

  -- The node below an entry, created where there is none.
  abbrev pub or_create : (d : ℕ) → Option (Node V d) → Node V d
  or_create d none = node_create d
  or_create d (some node) = node

module _ {ℓ} {S : Type ℓ} where
  -- The slot of a chunk's entry; no entry is like one that holds nothing.
  abbrev pub slot_of : S → Option (BnodeEntry S) → S
  slot_of nothing none = nothing
  slot_of nothing (some entry) = entry.payload

  -- A new entry for a chunk, or a write to the one that is there.
  unfoldable pub put : Sizes → S → Btree S → Chunk → (S → S) → Btree S
  put sizes nothing tree chunk write = elim (Bnode.find tree chunk) [
    | none ↦ Bnode.insert sizes tree (set_key (blank (write nothing)) (some chunk)) chunk
    | some entry ↦ update S tree chunk write
  ]

module _ {ℓ} (V : Type ℓ) where
  unfoldable pub slot_at : (d : ℕ) → Node V (suc d) → Chunk → Slot V (Node V d)
  slot_at d node chunk = slot_of empty_slot (Bnode.find node chunk)

  abbrev pub below : {N : Type ℓ} → (N → LeafEntry V) → Option N → LeafEntry V
  below further none = no_value
  below further (some child) = further child

  -- The value that a path leads to, in `hbtrie_find`.
  unfoldable pub value_at : (d : ℕ) → Node V d → List Chunk → LeafEntry V
  value_at zero node path = no_value
  value_at (suc d) node [] = no_value
  value_at (suc d) node (chunk ∷ []) = (slot_at d node chunk).value
  value_at (suc d) node (chunk ∷ next ∷ path) =
      below (λ child. value_at d child (next ∷ path)) (slot_at d node chunk).child

  -- `hbtrie_find`
  unfoldable pub find : (d : ℕ) → Node V d → List Chunk → TransactionId → Option V
  find d node path read_txn_id = LeafEntry.read (value_at d node path) read_txn_id

  -- The descent of `hbtrie_insert`, which creates the nodes that are missing, and the write at its end.
  unfoldable pub write :
      Sizes → (d : ℕ) → Node V d → List Chunk → (LeafEntry V → LeafEntry V) → Node V d
  write sizes zero node path f = node
  write sizes (suc d) node [] f = node
  write sizes (suc d) node (chunk ∷ []) f =
      put sizes empty_slot node chunk (λ slot. record slot { value = f slot.value })
  write sizes (suc d) node (chunk ∷ next ∷ path) f = put sizes empty_slot node chunk (λ slot.
      record slot { child = some (write sizes d (or_create V d slot.child) (next ∷ path) f) })

  -- `hbtrie_insert`, and whether it returns 0. The first two flags are the pool's answers.
  unfoldable pub insert :
      Bool → Bool → Sizes → (d : ℕ) → Node V d → List Chunk → V → TransactionId → Node V d × Bool
  insert old_ok add_ok sizes d node [] value txn_id = (node, false)
  insert old_ok add_ok sizes d node (chunk ∷ path) value txn_id = (
    write sizes d node (chunk ∷ path)
        (λ entry. (LeafEntry.insert old_ok add_ok entry txn_id value).0),
    (LeafEntry.insert old_ok add_ok (value_at d node (chunk ∷ path)) txn_id value).1,
  )

  -- The way of `hbtrie_delete` down a path, and the write at its end; it stops where an entry or a node
  -- is missing.
  unfoldable pub rewrite : (d : ℕ) → Node V d → List Chunk → (LeafEntry V → LeafEntry V) → Node V d
  rewrite zero node path f = node
  rewrite (suc d) node [] f = node
  rewrite (suc d) node (chunk ∷ []) f = elim (Bnode.find node chunk) [
    | none ↦ node
    | some entry ↦
        update (Slot V (Node V d)) node chunk (λ slot. record slot { value = f slot.value })
  ]
  rewrite (suc d) node (chunk ∷ next ∷ path) f = elim ((slot_at d node chunk).child) [
    | none ↦ node
    | some child ↦
        update (Slot V (Node V d)) node chunk
          (λ slot. record slot { child = some (rewrite d child (next ∷ path) f) })
  ]

  -- `hbtrie_delete`, with the value that it returns.
  unfoldable pub delete :
      Bool → Bool → (d : ℕ) → Node V d → List Chunk → TransactionId → Node V d × Option V
  delete old_ok add_ok d node path txn_id = (
    rewrite d node path (λ entry. (LeafEntry.delete old_ok add_ok entry txn_id).0),
    (LeafEntry.delete old_ok add_ok (value_at d node path) txn_id).1,
  )
