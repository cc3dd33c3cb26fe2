-- ===== src/Bnode/Roots.antt =====
-- The new root over a root that was split.
use wave_db.Base.{ℕ, suc, ◌≡◌, ◌∙◌, refl, sym, ap, none, some, List, [], ◌∷◌, ◌++◌}
use wave_db.Chunk.{Chunk}
use wave_db.BsArray.Entry.{BnodeEntry, set_key}
use wave_db.Bnode.{
  Bnode, blank, bnode_insert, bnode_search, bnode_insert_bnode_child, new_root, left_of, first_key,
}
use wave_db.Bnode.Spans.{IsSpan}
use wave_db.Bnode.Trees.{flatten, IsTree, IsTree-before}
use wave_db.Bnode.Growth.{IsSplit}
use wave_db.Bnode.Raising.{beside, IsEntry-set_key, blank_key, blank_tree, blank_payload}
use wave_db.Bnode.Descent.{}
use mathlib.Core.List.{append-nil}
use mathlib.Core.Path.{subst}

module _ {ℓ} (V : Type ℓ) where
  new_root-child :
      (l : ℕ) (t r : Bnode V l) (f m : Chunk)
      → first_key V l t ≡ some (some f)
      → new_root V l t m r ≡ bnode_insert_bnode_child (set_key (blank t) (some f) ∷ []) m r
  unfolding new_root left_of bnode_insert bnode_search bnode_insert_bnode_child
  new_root-child l t r f m h =
      ap (λ n. bnode_insert (left_of V l t n) (set_key (blank r) (some m))) h

  -- The root over a root that was split.
  pub new_root-IsTree :
      (l : ℕ) (lo : Chunk) (es : List (BnodeEntry V)) (t : Bnode V l) (m : Chunk) (r : Bnode V l)
      → (s : IsSplit V l lo none es t m r)
      → IsTree V (suc l) s.f none (new_root V l t m r)
        × (flatten V (suc l) (new_root V l t m r) ≡ es)
  new_root-IsTree l lo es t m r s =
      let c : BnodeEntry (Bnode V l) = set_key (blank t) (some s.f) in
      let d : BnodeEntry (Bnode V l) = set_key (blank r) (some m) in
      let entry = IsEntry-set_key V (blank t) s.f s.short_first in
      let left = blank_tree V l (some m) t s.f s.first in
      let place =
        new_root-child l t r s.f m s.named
        ∙ beside V (IsTree V l) (IsTree-before V l) (some s.f) none none [] c [] m r
            (blank_key V t s.f, tt) entry left s.short s.right (refl, tt) in
      let span : IsSpan (IsTree V l) (some s.f) (c ∷ d ∷ []) none = (
        some m,
        blank_key V t s.f,
        entry,
        left,
        (
          none,
          blank_key V r m,
          IsEntry-set_key V (blank r) m s.short,
          blank_tree V l none r m s.right,
          (refl, tt),
        ),
      ) in
      let all : flatten V l c.payload ++ (flatten V l d.payload ++ []) ≡ es =
        ap (λ n. n ++ (flatten V l d.payload ++ [])) (ap (flatten V l) (blank_payload V t s.f))
        ∙ ap (λ n. flatten V l t ++ n)
            (append-nil (flatten V l d.payload) ∙ ap (flatten V l) (blank_payload V r m))
        ∙ s.order in
      subst (λ n. IsTree V (suc l) s.f none n × (flatten V (suc l) n ≡ es)) (sym place)
        ((tt, span), all)
