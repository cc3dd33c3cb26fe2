-- ===== src/Examples/Tries.antt =====
-- The trie at concrete inputs.
use wave_db.Base.{ℕ, ◌≡◌, refl, sym, true, none, some, List, [], ◌∷◌, arith, if◌then◌else◌}
use wave_db.TransactionId.{TransactionId}
use wave_db.Chunk
use wave_db.Chunk.{Chunk}
use wave_db.Chunk.Order.{lexicographic}
use wave_db.BsArray.{search, search_loop}
use wave_db.BsArray.Entry.{BnodeEntry, entry_cmp, set_key}
use wave_db.Bnode
use wave_db.Bnode.{Sizes, Btree, blank, bnode_search, bnode_find, bnode_descend, bnode_find_leaf}
use wave_db.Bnode.Nodes.{IsEntry}
use wave_db.Bnode.Raising.{IsEntry-set_key}
use wave_db.LeafEntry
use wave_db.LeafEntry.{LeafEntry, legacy, no_value}
use wave_db.HbTrie.{node_create, Slot, Node, slot_at, value_at, find, insert, delete}
use wave_db.HbTrie.Admission.{AdmitsPath-create, AdmitsPath, Within, same_path}
use wave_db.HbTrie.Writes.{find-insert_path}
use wave_db.HbTrie.Invariant.{IsTrie}
use wave_db.HbTrie.Runs.{Run, Run-IsTrie}
use wave_db.HbTrie.Deletes.{find-delete_path}
use mathlib.Core.Path.{subst}

abbrev sizes : Sizes
sizes = record { bnode = 10; bnode_entry = 10; chunk = 8; node_size = 80 }

abbrev stamp : ℕ → TransactionId
stamp time = record { time = time; nanos = 0; count = 0 }

abbrev entry : {V : Type 0} → ℕ → V → BnodeEntry V
entry key payload = set_key (blank payload) (some (key ∷ []))

abbrev lower : Node ℕ 1
lower = record {
  height = 0;
  root = entry 3 (record { value = legacy (some 70) (stamp 1); child = none }) ∷ [];
}

abbrev upper_slot : Slot ℕ (Node ℕ 1)
upper_slot = record { value = no_value; child = some lower }

-- One path of two chunks, 5 and 3.
abbrev root : Node ℕ 2
root = record { height = 0; root = entry 5 upper_slot ∷ [] }

root_slot : slot_at ℕ 1 root (5 ∷ []) ≡ upper_slot
unfolding slot_at Bnode.find bnode_find_leaf bnode_descend bnode_find bnode_search search
    search_loop set_key entry_cmp Chunk.inline_key_compare Chunk.compare
root_slot = refl

entry-IsEntry : {V : Type 0} (key : ℕ) (payload : V) → IsEntry (entry key payload)
entry-IsEntry {V} key payload = IsEntry-set_key V (blank payload) (key ∷ []) (omega arith)

lower_admits_4 : AdmitsPath ℕ 1 lower ((4 ∷ []) ∷ [])
unfolding set_key lexicographic
lower_admits_4 =
    ([], (tt, some (3 ∷ []), refl, (none, refl, entry-IsEntry 3 _, (tt, tt), (refl, tt))), refl)

root_admits :
    (next : Chunk) → AdmitsPath ℕ 1 lower (next ∷ []) → AdmitsPath ℕ 2 root ((5 ∷ []) ∷ next ∷ [])
unfolding set_key lexicographic
root_admits next h = (
  ([], (tt, some (5 ∷ []), refl, (none, refl, entry-IsEntry 5 _, (tt, tt), (refl, tt))), refl),
  subst
      (λ (slot : Slot ℕ (Node ℕ 1)). Within (λ child. AdmitsPath ℕ 1 child (next ∷ [])) slot.child)
      (sym root_slot) h,
)

abbrev new_path : List Chunk
new_path = (5 ∷ []) ∷ (4 ∷ []) ∷ []

abbrev old_path : List Chunk
old_path = (5 ∷ []) ∷ (3 ∷ []) ∷ []

find-insert_path_example :
    find ℕ 2 (insert ℕ true true sizes 2 root new_path 80 (stamp 2)).0 old_path (stamp 3) ≡ (
      if same_path new_path old_path
      then LeafEntry.read
          (LeafEntry.insert true true (value_at ℕ 2 root new_path) (stamp 2) 80).0
          (stamp 3)
      else find ℕ 2 root old_path (stamp 3))
find-insert_path_example =
    find-insert_path ℕ true true sizes 2 root (5 ∷ []) ((4 ∷ []) ∷ []) old_path 80 (stamp 2)
      (stamp 3) (omega arith) (omega arith, (omega arith, tt)) (root_admits (4 ∷ []) lower_admits_4)

first_node : Node ℕ 2
first_node = (insert ℕ true true sizes 2 (node_create ℕ 2) old_path 70 (stamp 1)).0

first_run : Run ℕ sizes 2 first_node
unfolding first_node
first_run =
    Run.inserted (node_create ℕ 2) true true (5 ∷ []) ((3 ∷ []) ∷ []) 70 (stamp 1) Run.created
      (omega arith, (omega arith, tt)) (AdmitsPath-create ℕ 2 old_path)

Run-IsTrie_example : IsTrie ℕ 2 first_node
Run-IsTrie_example = Run-IsTrie ℕ sizes 2 first_node first_run

first_IsTrie : IsTrie ℕ 2 first_node
first_IsTrie = Run-IsTrie ℕ sizes 2 first_node first_run

find-delete_path_example :
    find ℕ 2 (delete ℕ true true 2 first_node old_path (stamp 2)).0 old_path (stamp 3) ≡ (
      if same_path old_path old_path
      then LeafEntry.read
          (LeafEntry.delete true true (value_at ℕ 2 first_node old_path) (stamp 2)).0
          (stamp 3)
      else find ℕ 2 first_node old_path (stamp 3))
find-delete_path_example =
    find-delete_path ℕ true true 2 first_node (5 ∷ []) ((3 ∷ []) ∷ []) old_path (stamp 2) (stamp 3)
      first_IsTrie
