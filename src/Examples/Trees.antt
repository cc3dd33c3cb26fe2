-- ===== src/Examples/Trees.antt =====
-- The B+ tree of a node of the trie at concrete inputs.
use wave_db.Base.{
  ℕ, zero, suc, ◌≡◌, refl, ◌∙◌, none, some, List, [], ◌∷◌, arith, is_eq, if◌then◌else◌,
}
use wave_db.Chunk
use wave_db.Chunk.{Chunk}
use wave_db.Chunk.Order.{lexicographic}
use wave_db.BsArray.{search, search_loop}
use wave_db.BsArray.Entry.{BnodeEntry, entry_cmp, set_key}
use wave_db.BsArray.Sorted.{key_of, scan, IsSorted, set_key-IsKeyed}
use wave_db.Bnode.{
  Sizes, Bnode, Btree, blank, bnode_search, bnode_find, bnode_insert, bnode_size, bnode_needs_split,
  move_loop, halves, key_at, bnode_split, child_index, settle, bnode_insert_bnode_child,
  bnode_descend, bnode_find_leaf, raise, insert_below, left_of, new_root, find, insert, grow,
}
use wave_db.Bnode.Order.{UpTo, sorted_insert}
use wave_db.Bnode.Nodes.{IsEntry}
use wave_db.Bnode.Spans.{Ends, IsSpan}
use wave_db.Bnode.Trees.{IsTree}
use wave_db.Bnode.Raising.{IsEntry-set_key}
use wave_db.Bnode.Descent.{IsBtree, entries, find-scan_all}
use wave_db.Bnode.Insertion.{Holds, insert-Holds, find-insert}
use wave_db.Bnode.Lost.{bnode_split-lost}

-- A leaf of four entries is more than a node may hold.
abbrev sizes : Sizes
sizes = record { bnode = 10; bnode_entry = 10; chunk = 8; node_size = 80 }

abbrev entry {ℓ} : {V : Type ℓ} → ℕ → V → BnodeEntry V
entry key payload = set_key (blank payload) (some (key ∷ []))

entry-IsEntry {ℓ} : {V : Type ℓ} (key : ℕ) (payload : V) → IsEntry (entry key payload)
entry-IsEntry {V = V} key payload = IsEntry-set_key V (blank payload) (key ∷ []) (omega arith)

abbrev low : List (BnodeEntry ℕ)
low = entry 20 1 ∷ entry 30 2 ∷ entry 50 3 ∷ []

abbrev high : List (BnodeEntry ℕ)
high = entry 60 4 ∷ entry 70 5 ∷ []

abbrev tree : Btree ℕ
tree = record { height = 1; root = entry 20 low ∷ entry 60 high ∷ [] }

low_span : IsSpan Ends (some (20 ∷ [])) low (some (60 ∷ []))
unfolding set_key lexicographic
low_span = (
  some (30 ∷ []),
  refl,
  entry-IsEntry 20 1,
  (refl, tt),
  (
    some (50 ∷ []),
    refl,
    entry-IsEntry 30 2,
    (refl, tt),
    (some (60 ∷ []), refl, entry-IsEntry 50 3, (refl, tt), (refl, tt)),
  ),
)

high_span : IsSpan Ends (some (60 ∷ [])) high none
unfolding set_key lexicographic
high_span = (
  some (70 ∷ []),
  refl,
  entry-IsEntry 60 4,
  (refl, tt),
  (none, refl, entry-IsEntry 70 5, (tt, tt), (refl, tt)),
)

tree-IsBtree : IsBtree (20 ∷ []) tree
unfolding set_key lexicographic
tree-IsBtree = (
  tt,
  (
    some (60 ∷ []),
    refl,
    entry-IsEntry 20 low,
    (refl, some (20 ∷ []), refl, low_span),
    (none, refl, entry-IsEntry 60 high, (tt, some (60 ∷ []), refl, high_span), (refl, tt)),
  ),
)

find-scan_all_example : find tree (50 ∷ []) ≡ scan (entries tree) (50 ∷ [])
find-scan_all_example = find-scan_all (20 ∷ []) tree (50 ∷ []) tree-IsBtree

abbrev added : BnodeEntry ℕ
added = entry 40 9

absent : find tree (key_of added) ≡ none
unfolding set_key lexicographic
absent = find-scan_all (20 ∷ []) tree (key_of added) tree-IsBtree ∙ refl

above : UpTo (20 ∷ []) (key_of added)
unfolding set_key lexicographic
above = refl

-- The leaf of the new entry is split.
insert-Holds_example :
    Holds (20 ∷ []) (sorted_insert added (entries tree)) (insert sizes tree added (key_of added))
insert-Holds_example =
    insert-Holds sizes (20 ∷ []) tree added tree-IsBtree (entry-IsEntry 40 9) above absent

find-insert_example :
    find (insert sizes tree added (key_of added)) (50 ∷ [])
    ≡ (if is_eq (lexicographic (key_of added) (50 ∷ [])) then some added else find tree (50 ∷ []))
find-insert_example =
    find-insert sizes (20 ∷ []) tree added (50 ∷ []) tree-IsBtree (entry-IsEntry 40 9) above absent

abbrev leaf : List (BnodeEntry ℕ)
leaf = entry 10 1 ∷ entry 20 2 ∷ entry 30 3 ∷ entry 40 4 ∷ []

abbrev parent : List (BnodeEntry (Bnode ℕ zero))
parent = entry 50 leaf ∷ entry 60 high ∷ []

parent-IsSorted : IsSorted parent
unfolding set_key lexicographic
parent-IsSorted = (
  set_key-IsKeyed (blank leaf) (50 ∷ []) (omega arith),
  (refl, tt),
  (set_key-IsKeyed (blank high) (60 ∷ []) (omega arith), tt, tt),
)

leaf-IsTree : IsTree ℕ zero [] none leaf
unfolding set_key lexicographic
leaf-IsTree = (
  tt,
  some (10 ∷ []),
  refl,
  (
    some (20 ∷ []),
    refl,
    entry-IsEntry 10 1,
    (refl, tt),
    (
      some (30 ∷ []),
      refl,
      entry-IsEntry 20 2,
      (refl, tt),
      (
        some (40 ∷ []),
        refl,
        entry-IsEntry 30 3,
        (refl, tt),
        (none, refl, entry-IsEntry 40 4, (tt, tt), (refl, tt)),
      ),
    ),
  ),
)

abbrev left : List (BnodeEntry ℕ)
left = entry 10 1 ∷ entry 20 2 ∷ []

abbrev right : List (BnodeEntry ℕ)
right = entry 30 3 ∷ entry 40 4 ∷ []

leaf_split : bnode_split leaf ≡ some (left, 30 ∷ [], right)
unfolding bnode_split halves key_at move_loop bnode_insert bnode_search search search_loop set_key
    entry_cmp Chunk.inline_key_compare Chunk.compare
leaf_split = refl

-- The lookup of the second key of the leaf.
bnode_split-lost_example :
    (bnode_find_leaf ℕ (suc zero) parent (20 ∷ []) ≡ scan leaf (20 ∷ []))
    × (bnode_find_leaf ℕ
          (suc zero)
          (bnode_insert_bnode_child
            (record (entry 50 leaf) { payload = left } ∷ entry 60 high ∷ [])
            (30 ∷ [])
            right)
          (20 ∷ [])
        ≡ none)
unfolding set_key lexicographic
bnode_split-lost_example =
    bnode_split-lost ℕ [] (20 ∷ []) (30 ∷ []) (entry 50 leaf) (entry 60 high ∷ []) left right
      parent-IsSorted leaf-IsTree leaf_split refl refl

held : scan leaf (20 ∷ []) ≡ some (entry 20 2)
unfolding set_key lexicographic
held = refl

-- Insertion of entries one after another.
abbrev insert_all : Btree ℕ → List ℕ → Btree ℕ
insert_all t [] = t
insert_all t (key ∷ keys) = insert_all (insert sizes t (entry key key) (key ∷ [])) keys

-- Keys that descend: a split of the leftmost leaf loses the smallest ones.
descending_lost :
    find
      (insert_all (record { height = 0; root = [] }) (90 ∷ 80 ∷ 70 ∷ 60 ∷ 50 ∷ 40 ∷ 30 ∷ 20 ∷ []))
      (20 ∷ [])
    ≡ none
unfolding find insert grow insert_below raise new_root left_of settle bnode_insert_bnode_child
    bnode_needs_split bnode_size bnode_split halves key_at move_loop bnode_insert bnode_search
    bnode_find bnode_find_leaf bnode_descend child_index search search_loop set_key entry_cmp
    Chunk.inline_key_compare Chunk.compare
descending_lost = refl
