-- ===== src/HbTrie/Writes.antt =====
-- What the trie holds along every path after an insertion.
use wave_db.Base.{
  ℕ, zero, suc, ◌≤◌, ◌≡◌, ◌∙◌, refl, ap, inl, inr, Bool, Bool-cases, some, List, [], ◌∷◌, arith,
  length, is_eq, if◌then◌else◌, All,
}
use wave_db.TransactionId.{TransactionId}
use wave_db.Chunk.{Chunk}
use wave_db.Chunk.Order.{lexicographic}
use wave_db.Bnode.{Sizes}
use wave_db.Bnode.Amend.{is_eq→eq}
use wave_db.LeafEntry
use wave_db.LeafEntry.{LeafEntry, no_value}
use wave_db.HbTrie.{
  Slot, Node, or_create, empty_slot, slot_at, below, put, value_at, find, write, insert,
}
use wave_db.HbTrie.Admission.{
  same_path, IsShort, put_value, put_below, AdmitsPath, slot_at-put, same_slot, value_at-or_create,
  AdmitsPath-or_create,
}

module _ {ℓ} (V : Type ℓ) where
  -- The slots of a node in which the value of one chunk was written.
  pub last_value :
      (d : ℕ) (node after : Node V (suc d)) (chunk : Chunk) (f : LeafEntry V → LeafEntry V)
      (other : List Chunk)
      → ((o : Chunk)
          → slot_at V d after o ≡ (
              if is_eq (lexicographic chunk o)
              then put_value V f (slot_at V d node chunk)
              else slot_at V d node o))
      → value_at V (suc d) after other ≡ (
          if same_path (chunk ∷ []) other
          then f (value_at V (suc d) node (chunk ∷ []))
          else value_at V (suc d) node other)
  unfolding value_at
  last_value d node after chunk f [] slots = refl
  last_value d node after chunk f (o ∷ []) slots =
      ap (λ (s : Slot V (Node V d)). s.value) (slots o) ∙ ground arith
  last_value d node after chunk f (o ∷ p ∷ other) slots =
      ap (λ (s : Slot V (Node V d)). below V (λ child. value_at V d child (p ∷ other)) s.child)
        (slots o)
      ∙ elim (Bool-cases (is_eq (lexicographic chunk o))) [
        | inl t ↦ rw t (
            ap
              (λ (s : Slot V (Node V d)). below V (λ child. value_at V d child (p ∷ other)) s.child)
              (same_slot V d node chunk o (is_eq→eq (lexicographic chunk o) t)))
        | inr t ↦ rw t refl
      ]

  -- Those of a node in which the node below a chunk was written.
  pub further_value :
      (d : ℕ) (node after : Node V (suc d)) (below_it : Node V d) (chunk next : Chunk)
      (path : List Chunk) (f : LeafEntry V → LeafEntry V) (other : List Chunk)
      → ((o : Chunk)
          → slot_at V d after o ≡ (
              if is_eq (lexicographic chunk o)
              then record (slot_at V d node chunk) { child = some below_it }
              else slot_at V d node o))
      → ((o : List Chunk)
          → value_at V d below_it o ≡ (
              if same_path (next ∷ path) o
              then f (below V (λ n. value_at V d n (next ∷ path)) (slot_at V d node chunk).child)
              else below V (λ n. value_at V d n o) (slot_at V d node chunk).child))
      → value_at V (suc d) after other ≡ (
          if same_path (chunk ∷ next ∷ path) other
          then f (value_at V (suc d) node (chunk ∷ next ∷ path))
          else value_at V (suc d) node other)
  unfolding value_at
  further_value d node after below_it chunk next path f [] slots further = refl
  further_value d node after below_it chunk next path f (o ∷ []) slots further =
      ap (λ (s : Slot V (Node V d)). s.value) (slots o)
      ∙ elim (Bool-cases (is_eq (lexicographic chunk o))) [
        | inl t ↦ rw t (
            ap (λ (s : Slot V (Node V d)). s.value)
              (same_slot V d node chunk o (is_eq→eq (lexicographic chunk o) t)))
        | inr t ↦ rw t refl
      ]
  further_value d node after below_it chunk next path f (o ∷ p ∷ other) slots further =
      ap (λ (s : Slot V (Node V d)). below V (λ child. value_at V d child (p ∷ other)) s.child)
        (slots o)
      ∙ elim (Bool-cases (is_eq (lexicographic chunk o))) [
        | inl t ↦ rw t (
            further (p ∷ other)
            ∙ ap
                (λ (s : Slot V (Node V d)).
                  if same_path (next ∷ path) (p ∷ other)
                  then f
                      (below V (λ n. value_at V d n (next ∷ path)) (slot_at V d node chunk).child)
                  else below V (λ n. value_at V d n (p ∷ other)) s.child)
                (same_slot V d node chunk o (is_eq→eq (lexicographic chunk o) t)))
        | inr t ↦ rw t refl
      ]

  -- What a path leads to after a write along another.
  value_at-write :
      (sizes : Sizes) (d : ℕ) (node : Node V d) (chunk : Chunk) (path other : List Chunk)
      (f : LeafEntry V → LeafEntry V)
      → length (chunk ∷ path) ≤ d
      → All IsShort (chunk ∷ path)
      → AdmitsPath V d node (chunk ∷ path)
      → value_at V d (write V sizes d node (chunk ∷ path) f) other ≡ (
          if same_path (chunk ∷ path) other
          then f (value_at V d node (chunk ∷ path))
          else value_at V d node other)
  unfolding write
  value_at-write sizes zero node chunk path other f room short a = absurd (omega (arith, room))
  value_at-write sizes (suc d) node chunk [] other f room short a =
      last_value d node (put sizes empty_slot node chunk (put_value V f)) chunk f other
        (λ o. slot_at-put V sizes d node chunk o (put_value V f) a short.0)
  value_at-write sizes (suc d) node chunk (next ∷ path) other f room short a =
      let child = (slot_at V d node chunk).child in
      let admitted = AdmitsPath-or_create V d child (next ∷ path) a.1 in
      further_value d node (put sizes empty_slot node chunk (put_below V sizes d (next ∷ path) f))
        (write V sizes d (or_create V d child) (next ∷ path) f) chunk next path f other
        (λ o. slot_at-put V sizes d node chunk o (put_below V sizes d (next ∷ path) f) a.0 short.0)
        (λ o.
          value_at-write sizes d (or_create V d child) next path o f (omega (arith, room)) short.1
            admitted
          ∙ ap
              (λ v. if same_path (next ∷ path) o then f v else value_at V d (or_create V d child) o)
              (value_at-or_create V d child (next ∷ path))
          ∙ ap
              (λ v.
                if same_path (next ∷ path) o
                then f (below V (λ n. value_at V d n (next ∷ path)) child)
                else v)
              (value_at-or_create V d child o))

  -- Along a path of chunks of at most 255 bytes, each of them at or above a key
  -- from which the keys of its node are in place, in a trie of enough depth, an insertion changes the
  -- value of the path as `LeafEntry.insert` does, and a lookup along any other path, also one that is
  -- a part of it or goes on behind it, finds what it found before.
  pub find-insert_path :
      (old_ok add_ok : Bool) (sizes : Sizes) (d : ℕ) (node : Node V d) (chunk : Chunk)
      (path other : List Chunk) (value : V) (txn_id read_txn_id : TransactionId)
      → length (chunk ∷ path) ≤ d
      → All IsShort (chunk ∷ path)
      → AdmitsPath V d node (chunk ∷ path)
      → find V d
          (insert V old_ok add_ok sizes d node (chunk ∷ path) value txn_id).0
          other
          read_txn_id
        ≡ (if same_path (chunk ∷ path) other
            then LeafEntry.read
                (LeafEntry.insert old_ok add_ok (value_at V d node (chunk ∷ path)) txn_id value).0
                read_txn_id
            else find V d node other read_txn_id)
  unfolding find insert
  find-insert_path old_ok add_ok sizes d node chunk path other value txn_id read_txn_id room short
        a =
      ap (λ v. LeafEntry.read v read_txn_id)
        (value_at-write sizes d node chunk path other
          (λ entry. (LeafEntry.insert old_ok add_ok entry txn_id value).0) room short a)
      ∙ ground arith
