-- ===== src/HbTrie/Runs.antt =====
-- Insertions and deletions one after another.
use wave_db.Base.{ℕ, Bool, List, ◌∷◌, All}
use wave_db.TransactionId.{TransactionId}
use wave_db.Chunk.{Chunk}
use wave_db.Bnode.{Sizes}
use wave_db.LeafEntry
use wave_db.HbTrie.{Node, node_create, insert, delete}
use wave_db.HbTrie.Admission.{AdmitsPath, IsShort}
use wave_db.HbTrie.Invariant.{IsTrie, IsTrie-create, write-IsTrie}
use wave_db.HbTrie.Deletes.{rewrite-IsTrie}

module _ {ℓ} (V : Type ℓ) (sizes : Sizes) (d : ℕ) where
  -- Calls on a new trie. An insertion has a path of chunks of at most 255 bytes, each of them at or
  -- above the first separator of its node, if the node has more than a leaf.
  pub data Run : Node V d → Type ℓ where
    created : Run (node_create V d)
    inserted :
        (node : Node V d) (old_ok add_ok : Bool) (chunk : Chunk) (path : List Chunk) (value : V)
        (txn_id : TransactionId)
        → Run node
        → All IsShort (chunk ∷ path)
        → AdmitsPath V d node (chunk ∷ path)
        → Run (insert V old_ok add_ok sizes d node (chunk ∷ path) value txn_id).0
    deleted :
        (node : Node V d) (old_ok add_ok : Bool) (chunk : Chunk) (path : List Chunk)
        (txn_id : TransactionId)
        → Run node
        → Run (delete V old_ok add_ok d node (chunk ∷ path) txn_id).0

  -- From a new trie on, after any deletions and any insertions whose chunks have at most 255 bytes and
  -- are at or above a key from which the keys of their node are in place, each node of the trie has its
  -- keys in place, whatever the calls return and split.
  pub Run-IsTrie : (node : Node V d) → Run node → IsTrie V d node
  unfolding insert delete
  Run-IsTrie node created = IsTrie-create V d
  Run-IsTrie node (inserted before old_ok add_ok chunk path value txn_id run short admits) =
      write-IsTrie V sizes d before chunk path
        (λ entry. (LeafEntry.insert old_ok add_ok entry txn_id value).0) short admits
        (Run-IsTrie before run)
  Run-IsTrie node (deleted before old_ok add_ok chunk path txn_id run) =
      rewrite-IsTrie V d before chunk path
        (λ entry. (LeafEntry.delete old_ok add_ok entry txn_id).0) (Run-IsTrie before run)
