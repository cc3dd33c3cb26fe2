-- ===== src/HbTrie/Deletes.antt =====
-- What the trie holds along every path after a deletion.
use wave_db.Base.{
  ℕ, zero, suc, ◌≡◌, ◌∙◌, refl, sym, ap, inl, inr, Bool, true, Bool-cases, Option-cases, none, some,
  List, [], ◌∷◌, arith, is_eq, if◌then◌else◌,
}
use wave_db.TransactionId.{TransactionId}
use wave_db.Chunk.{Chunk}
use wave_db.Chunk.Order.{lexicographic, lexicographic-eq_iff}
use wave_db.Bnode
use wave_db.Bnode.{Sizes, bnode_find_leaf, bnode_descend, bnode_find, bnode_search}
use wave_db.Bnode.Amend.{is_eq→eq}
use wave_db.LeafEntry
use wave_db.LeafEntry.{LeafEntry, no_value}
use wave_db.HbTrie.{
  Slot, Node, empty_slot, slot_of, slot_at, below, value_at, find, rewrite, delete,
}
use wave_db.HbTrie.Admission.{same_path, put_value}
use wave_db.HbTrie.Writes.{last_value, further_value}
use wave_db.HbTrie.Invariant.{IsTrie, IsTrie-slots, found-Admits, update-InPlace, some_same}
use wave_db.Bnode.Update.{update}
use wave_db.HbTrie.Rewrites.{
  slot_at-update, there, rewrite-missing, rewrite-last, rewrite-broken, rewrite-further,
}
use mathlib.Core.Path.{subst}

module _ {ℓ} (V : Type ℓ) where
  same_path-eq : (path other : List Chunk) → same_path path other ≡ true → path ≡ other
  same_path-eq [] [] h = refl
  same_path-eq [] (o ∷ other) h = absurd cc
  same_path-eq (chunk ∷ path) [] h = absurd cc
  same_path-eq (chunk ∷ path) (o ∷ other) h = elim (Bool-cases (is_eq (lexicographic chunk o))) [
    | inl t ↦
        let first = (lexicographic-eq_iff chunk o).0 (is_eq→eq (lexicographic chunk o) t) in
        ap (λ c. c ∷ path) first ∙ ap (λ l. o ∷ l) (same_path-eq path other (ground (arith, t, h)))
    | inr t ↦ absurd (ground (arith, t, h))
  ]

  delete-no_value :
      (old_ok add_ok : Bool) (txn_id : TransactionId)
      → (LeafEntry.delete {V = V} old_ok add_ok no_value txn_id).0 ≡ no_value
  unfolding LeafEntry.delete
  delete-no_value old_ok add_ok txn_id = refl

  value_leaf : (node : Node V zero) (path : List Chunk) → value_at V zero node path ≡ no_value
  unfolding value_at
  value_leaf node path = refl

  value_missing :
      (d : ℕ) (node : Node V (suc d)) (chunk : Chunk)
      → Bnode.find node chunk ≡ none
      → value_at V (suc d) node (chunk ∷ []) ≡ no_value
  unfolding value_at slot_at
  value_missing d node chunk h = ap (λ o. (slot_of {S = Slot V (Node V d)} empty_slot o).value) h

  value_broken :
      (d : ℕ) (node : Node V (suc d)) (chunk next : Chunk) (path : List Chunk)
      → (slot_at V d node chunk).child ≡ none
      → value_at V (suc d) node (chunk ∷ next ∷ path) ≡ no_value
  unfolding value_at
  value_broken d node chunk next path h = ap (below V (λ n. value_at V d n (next ∷ path))) h

  -- Nothing is written, and nothing is there.
  nothing_there :
      (d : ℕ) (node : Node V d) (path other : List Chunk) (f : LeafEntry V → LeafEntry V)
      → f no_value ≡ no_value
      → value_at V d node path ≡ no_value
      → value_at V d node other
        ≡ (if same_path path other then f (value_at V d node path) else value_at V d node other)
  nothing_there d node path other f keeps h = elim (Bool-cases (same_path path other)) [
    | inl t ↦
        rw t
          (ap (value_at V d node) (sym (same_path-eq path other t)) ∙ h ∙ sym keeps ∙ ap f (sym h))
    | inr t ↦ rw t refl
  ]

  -- What a path leads to after a deletion along another.
  value_at-rewrite :
      (d : ℕ) (node : Node V d) (chunk : Chunk) (path other : List Chunk)
      (f : LeafEntry V → LeafEntry V)
      → f no_value ≡ no_value
      → IsTrie V d node
      → value_at V d (rewrite V d node (chunk ∷ path) f) other ≡ (
          if same_path (chunk ∷ path) other
          then f (value_at V d node (chunk ∷ path))
          else value_at V d node other)
  unfolding rewrite
  value_at-rewrite zero node chunk path other f keeps a =
      nothing_there zero node (chunk ∷ path) other f keeps (value_leaf node (chunk ∷ path))
  value_at-rewrite (suc d) node chunk [] other f keeps valid =
      elim (Option-cases (Bnode.find node chunk)) [
        | inl absent ↦
            ap (λ n. value_at V (suc d) n other) (rewrite-missing V d node chunk f absent)
            ∙ nothing_there (suc d) node (chunk ∷ []) other f keeps
                (value_missing d node chunk absent)
        | inr (e, found) ↦
            ap (λ n. value_at V (suc d) n other) (rewrite-last V d node chunk f e found)
            ∙ last_value V d node (update (Slot V (Node V d)) node chunk (put_value V f)) chunk f
                other
                (λ o.
                  slot_at-update V d node chunk o (put_value V f) e
                    (found-Admits node chunk e valid.0 found) found)
      ]
  value_at-rewrite (suc d) node chunk (next ∷ path) other f keeps valid =
      elim (Option-cases (slot_at V d node chunk).child) [
        | inl none_below ↦
            ap (λ n. value_at V (suc d) n other)
              (rewrite-broken V d node chunk next path f none_below)
            ∙ nothing_there (suc d) node (chunk ∷ next ∷ path) other f keeps
                (value_broken d node chunk next path none_below)
        | inr (child, below_it) ↦
            let (e, found) = there V d node chunk child below_it in
            let admitted = found-Admits node chunk e valid.0 found in
            ap (λ n. value_at V (suc d) n other)
              (rewrite-further V d node chunk next path f child below_it)
            ∙ further_value V d node
                (update (Slot V (Node V d)) node chunk
                  (λ slot. record slot { child = some (rewrite V d child (next ∷ path) f) }))
                (rewrite V d child (next ∷ path) f) chunk next path f other
                (λ o.
                  slot_at-update V d node chunk o
                    (λ slot. record slot { child = some (rewrite V d child (next ∷ path) f) }) e
                    admitted found)
                (λ o.
                  value_at-rewrite d child next path o f keeps (valid.1 chunk child below_it)
                  ∙ ap
                      (λ c.
                        if same_path (next ∷ path) o
                        then f (below V (λ n. value_at V d n (next ∷ path)) c)
                        else below V (λ n. value_at V d n o) c)
                      (sym below_it))
      ]

  -- A deletion keeps the keys of all nodes in place.
  pub rewrite-IsTrie :
      (d : ℕ) (node : Node V d) (chunk : Chunk) (path : List Chunk) (f : LeafEntry V → LeafEntry V)
      → IsTrie V d node
      → IsTrie V d (rewrite V d node (chunk ∷ path) f)
  unfolding rewrite
  rewrite-IsTrie zero node chunk path f valid = tt
  rewrite-IsTrie (suc d) node chunk [] f valid = elim (Option-cases (Bnode.find node chunk)) [
    | inl absent ↦ subst (IsTrie V (suc d)) (sym (rewrite-missing V d node chunk f absent)) valid
    | inr (e, found) ↦
        let admitted = found-Admits node chunk e valid.0 found in
        subst (IsTrie V (suc d)) (sym (rewrite-last V d node chunk f e found)) (
          IsTrie-slots V d node (update (Slot V (Node V d)) node chunk (put_value V f)) chunk
            (put_value V f) valid (update-InPlace node chunk (put_value V f) admitted)
            (λ o. slot_at-update V d node chunk o (put_value V f) e admitted found)
            (λ child h. valid.1 chunk child h))
  ]
  rewrite-IsTrie (suc d) node chunk (next ∷ path) f valid =
      elim (Option-cases (slot_at V d node chunk).child) [
        | inl none_below ↦
            subst (IsTrie V (suc d)) (sym (rewrite-broken V d node chunk next path f none_below))
              valid
        | inr (child, below_it) ↦
            let (e, found) = there V d node chunk child below_it in
            let admitted = found-Admits node chunk e valid.0 found in
            let after = rewrite-IsTrie d child next path f (valid.1 chunk child below_it) in
            let w = λ (slot : Slot V (Node V d)). record slot {
              child = some (rewrite V d child (next ∷ path) f);
            } in
            subst (IsTrie V (suc d))
              (sym (rewrite-further V d node chunk next path f child below_it))
              (IsTrie-slots V d node (update (Slot V (Node V d)) node chunk w) chunk w valid
                (update-InPlace node chunk w admitted)
                (λ o. slot_at-update V d node chunk o w e admitted found)
                (λ n h. subst (IsTrie V d) (some_same h) after))
      ]

  -- In a trie whose nodes have their keys in place, a deletion changes the value of its path as
  -- `LeafEntry.delete` does, where there is one, and a lookup along any other path finds what it found
  -- before.
  pub find-delete_path :
      (old_ok add_ok : Bool) (d : ℕ) (node : Node V d) (chunk : Chunk) (path other : List Chunk)
      (txn_id read_txn_id : TransactionId)
      → IsTrie V d node
      → find V d (delete V old_ok add_ok d node (chunk ∷ path) txn_id).0 other read_txn_id ≡ (
          if same_path (chunk ∷ path) other
          then LeafEntry.read
              (LeafEntry.delete old_ok add_ok (value_at V d node (chunk ∷ path)) txn_id).0
              read_txn_id
          else find V d node other read_txn_id)
  unfolding find delete
  find-delete_path old_ok add_ok d node chunk path other txn_id read_txn_id valid =
      ap (λ v. LeafEntry.read v read_txn_id)
        (value_at-rewrite d node chunk path other
          (λ entry. (LeafEntry.delete old_ok add_ok entry txn_id).0)
          (delete-no_value old_ok add_ok txn_id) valid)
      ∙ ground arith
