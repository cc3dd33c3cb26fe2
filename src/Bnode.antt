-- ===== src/Bnode.antt =====
-- src/HBTrie/bnode.c, and the descent and the splits of src/HBTrie/hbtrie.c: the B+ tree inside one
-- node of the trie. A bnode of level l + 1 is the list of its entries; above level 1 an entry's
-- payload is its child, one level below. Allocation succeeds; children are in memory.
pub mod Order
pub mod Nodes
pub mod Children
pub mod Spans
pub mod Trees
pub mod Descent
pub mod Splits
pub mod Leaves
pub mod Growth
pub mod Raising
pub mod Roots
pub mod Insertion
pub mod Amend
pub mod Update
pub mod Lost
use wave_db.Base.{
  ℕ, zero, suc, ◌+◌, ◌-◌, ◌/◌, Bool, true, false, ◌&&◌, Option, none, some, List, [], ◌∷◌, ◌++◌,
  ltb, ◌==◌, if◌then◌else◌, length, take, drop, set, get_elem?, is_eq, replicate,
}
use wave_db.Chunk.{Chunk}
use wave_db.BsArray.{cmp_at, search}
use wave_db.BsArray.Entry.{BnodeEntry, get_key, set_key, bnode_inline_key_size}

-- What the compiler makes of `bnode_t`, `bnode_entry_t` and `chunk_t`, and `node_size`.
pub record Sizes : Type 0 where
  pub bnode : ℕ
  pub bnode_entry : ℕ
  pub chunk : ℕ
  pub node_size : ℕ

-- `bnode_t` of level l + 1.
abbrev pub Bnode {ℓ} : Type ℓ → ℕ → Type ℓ
Bnode V zero = List (BnodeEntry V)
Bnode V (suc l) = List (BnodeEntry (Bnode V l))

-- What a key takes in `bnode_size`.
abbrev pub key_size : Sizes → Option Chunk → ℕ
key_size sizes none = 0
key_size sizes (some key) = sizes.chunk + length key

-- An entry of zeros, with a payload.
abbrev pub blank {ℓ} : {V : Type ℓ} → V → BnodeEntry V
blank payload = record {
  key_data = replicate bnode_inline_key_size 0;
  key_len = 0;
  key = none;
  payload = payload;
}

module _ {ℓ} {V : Type ℓ} where
  -- `bnode_search`. Its loop is that of `bs_array_search`.
  unfoldable pub bnode_search : List (BnodeEntry V) → Option Chunk → ℕ
  bnode_search entries key = if length entries == 0 then 0 else search entries key

  -- `bnode_find`, with `*out_index`.
  unfoldable pub bnode_find : List (BnodeEntry V) → Chunk → Option (BnodeEntry V) × ℕ
  unfolding bnode_search
  bnode_find entries key =
      let index = bnode_search entries (some key) in
      (
        if ltb index (length entries)
            then if is_eq (cmp_at entries index (some key)) then get_elem? entries index else none
            else none,
        index,
      )

  -- `bnode_insert`
  unfoldable pub bnode_insert : List (BnodeEntry V) → BnodeEntry V → List (BnodeEntry V)
  unfolding bnode_search
  bnode_insert entries entry =
      let index = bnode_search entries (get_key entry) in
      take index entries ++ (entry ∷ drop index entries)

  -- `bnode_size`
  unfoldable pub bnode_size : Sizes → List (BnodeEntry V) → ℕ
  bnode_size sizes [] = sizes.bnode
  bnode_size sizes (entry ∷ entries) =
      sizes.bnode_entry + key_size sizes (get_key entry) + bnode_size sizes entries

  -- `bnode_needs_split`
  unfoldable pub bnode_needs_split : Sizes → List (BnodeEntry V) → Bool
  unfolding bnode_size
  bnode_needs_split sizes entries =
      if ltb (length entries) 4 then false else ltb sizes.node_size (bnode_size sizes entries)

  -- The entry that `bnode_split` makes of one on the right.
  abbrev pub moved : BnodeEntry V → BnodeEntry V
  moved entry = set_key entry (get_key entry)

  -- Its loop, which inserts them one by one.
  unfoldable pub move_loop : List (BnodeEntry V) → List (BnodeEntry V) → List (BnodeEntry V)
  unfolding bnode_insert
  move_loop right [] = right
  move_loop right (entry ∷ entries) = move_loop (bnode_insert right (moved entry)) entries

  -- `bnode_split`: the left node, the key between the two, and the right node. An entry without a
  -- key in the middle is read through NULL by the code.
  unfoldable pub halves :
      List (BnodeEntry V)
      → ℕ
      → Option Chunk
      → Option (List (BnodeEntry V) × Chunk × List (BnodeEntry V))
  unfolding move_loop
  halves entries mid none = none
  halves entries mid (some key) = some (take mid entries, key, move_loop [] (drop mid entries))

  unfoldable pub key_at : List (BnodeEntry V) → ℕ → Option Chunk
  key_at entries index = elim (get_elem? entries index) [ none ↦ none | some entry ↦ get_key entry ]

  unfoldable pub bnode_split :
      List (BnodeEntry V) → Option (List (BnodeEntry V) × Chunk × List (BnodeEntry V))
  unfolding halves key_at
  bnode_split entries =
      if ltb (length entries) 4
      then none
      else halves entries (length entries / 2) (key_at entries (length entries / 2))

  -- The entry of an inner node that `bnode_descend` and `btree_descend_with_path` follow: that of
  -- the key, or the one in front of its place, or the first.
  unfoldable pub child_index : List (BnodeEntry V) → Chunk → ℕ
  unfolding bnode_find
  child_index entries key =
      let (found, index) = bnode_find entries key in
      elim found [ some entry ↦ index | none ↦ if index == 0 then 0 else index - 1 ]

  -- What stays behind an insertion into a node: the node, or its left half with the key and the
  -- right half for the parent.
  unfoldable pub settle :
      Sizes → List (BnodeEntry V) → List (BnodeEntry V) × Option (Chunk × List (BnodeEntry V))
  unfolding bnode_needs_split bnode_split
  settle sizes entries =
      if bnode_needs_split sizes entries
      then elim (bnode_split entries) [
        | none ↦ (entries, none)
        | some (left, key, right) ↦ (left, some (key, right))
      ]
      else (entries, none)

-- `bnode_insert_bnode_child`
unfoldable pub bnode_insert_bnode_child {ℓ} :
    {V : Type ℓ} → List (BnodeEntry V) → Chunk → V → List (BnodeEntry V)
unfolding bnode_insert
bnode_insert_bnode_child parent key child = bnode_insert parent (set_key (blank child) (some key))

module _ {ℓ} (V : Type ℓ) where
  -- `bnode_descend`: the leaf for a key; `none` where an inner node is empty.
  unfoldable pub bnode_descend : (l : ℕ) → Bnode V l → Chunk → Option (List (BnodeEntry V))
  unfolding child_index
  bnode_descend zero node key = some node
  bnode_descend (suc l) node key = elim (get_elem? node (child_index node key)) [
    | none ↦ none
    | some entry ↦ bnode_descend l entry.payload key
  ]

  -- `bnode_find_leaf`
  unfoldable pub bnode_find_leaf : (l : ℕ) → Bnode V l → Chunk → Option (BnodeEntry V)
  unfolding bnode_descend bnode_find
  bnode_find_leaf l root key = elim (bnode_descend l root key) [
    | none ↦ none
    | some leaf ↦ (bnode_find leaf key).0
  ]

  -- What an inner node becomes when its child was settled: the child in place and, if it was split,
  -- its right half beside it, and then a split of the node itself where one is due.
  unfoldable pub raise :
      Sizes
      → (l : ℕ) → Bnode V (suc l)
      → ℕ
      → BnodeEntry (Bnode V l)
      → Bnode V l × Option (Chunk × Bnode V l)
      → Bnode V (suc l) × Option (Chunk × Bnode V (suc l))
  unfolding settle bnode_insert_bnode_child
  raise sizes l node index followed (child, none) =
      (set node index (record followed { payload = child }), none)
  raise sizes l node index followed (child, some (split_key, right)) =
      let replaced = set node index (record followed { payload = child }) in
      settle sizes (bnode_insert_bnode_child replaced split_key right)

  -- The insertion of an entry at its leaf, with the splits on the way back up: the recursion keeps
  -- the path. What is left for the parent is a key and a right sibling.
  unfoldable pub insert_below :
      Sizes → (l : ℕ) → Bnode V l → BnodeEntry V → Chunk → Bnode V l × Option (Chunk × Bnode V l)
  unfolding child_index bnode_insert settle raise
  insert_below sizes zero node entry key = settle sizes (bnode_insert node entry)
  insert_below sizes (suc l) node entry key = elim (get_elem? node (child_index node key)) [
    | none ↦ (node, none)
    | some followed ↦
        raise sizes l node (child_index node key) followed
          (insert_below sizes l followed.payload entry key)
  ]

  -- The key of a node's first entry, if it has one.
  abbrev pub first_key : (l : ℕ) → Bnode V l → Option (Option Chunk)
  first_key zero [] = none
  first_key zero (entry ∷ entries) = some (get_key entry)
  first_key (suc l) [] = none
  first_key (suc l) (entry ∷ entries) = some (get_key entry)

  unfoldable pub left_of :
      (l : ℕ) → Bnode V l → Option (Option Chunk) → List (BnodeEntry (Bnode V l))
  unfolding bnode_insert
  left_of l old_root none = []
  left_of l old_root (some key) = bnode_insert [] (set_key (blank old_root) key)

  -- The new root over a root that was split.
  unfoldable pub new_root : (l : ℕ) → Bnode V l → Chunk → Bnode V l → Bnode V (suc l)
  unfolding bnode_insert left_of
  new_root l old_root split_key right =
      bnode_insert (left_of l old_root (first_key l old_root))
        (set_key (blank right) (some split_key))

-- The tree of a node of the trie: `btree`, of level `height` + 1.
pub record Btree {ℓ} (V : Type ℓ) : Type ℓ where
  pub height : ℕ
  pub root : Bnode V height

module _ {ℓ} {V : Type ℓ} where
  unfoldable pub find : Btree V → Chunk → Option (BnodeEntry V)
  unfolding bnode_find_leaf
  find tree key = bnode_find_leaf V tree.height tree.root key

  -- What becomes of the tree: a root that was split gets a new one above it.
  unfoldable pub grow : (l : ℕ) → Bnode V l × Option (Chunk × Bnode V l) → Btree V
  unfolding new_root
  grow l (root, none) = record { height = l; root = root }
  grow l (root, some (split_key, right)) = record {
    height = suc l;
    root = new_root V l root split_key right;
  }

  -- The insertion of a new entry, as `hbtrie_insert` does it with `btree_split_after_insert`.
  unfoldable pub insert : Sizes → Btree V → BnodeEntry V → Chunk → Btree V
  unfolding insert_below grow
  insert sizes tree entry key =
      grow tree.height (insert_below V sizes tree.height tree.root entry key)
