-- ===== src/PageFile/Latest.antt =====
-- What the loop of `page_file_read_superblock` finds.
use wave_db.Base.{
  ℕ, zero, suc, ◌<◌, ◌≡◌, ◌⊎◌, ◌∙◌, refl, sym, ap, arith, inl, inr, Option, none, some, List, [],
  ◌∷◌, ltb, get_elem?, All, if_elim,
}
use wave_db.PageFile.{Superblock, candidate, better, read_loop}
use mathlib.Core.Path.{subst}

-- No superblock, an older one, or this one.
abbrev pub Fits : Superblock → Option Superblock → Type 0
Fits sb none = Unit
Fits sb (some other) = (other.revision < sb.revision) ⊎ (other ≡ sb)

abbrev pub found : Option (Superblock × ℕ) → Option Superblock
found none = none
found (some (sb, i)) = some sb

better-Fits :
    (sb : Superblock) (best : Option (Superblock × ℕ)) (i : ℕ) (c : Option Superblock)
    → Fits sb (found best)
    → Fits sb c
    → Fits sb (found (better best i c))
better-Fits sb none i none h k = h
better-Fits sb (some b) i none h k = h
better-Fits sb none i (some s) h k = k
better-Fits sb (some (b, j)) i (some s) h k =
    if_elim (λ o. Fits sb (found o)) (ltb b.revision s.revision) (some (s, i)) (some (b, j))
      (λ a. k) (λ a. h)

older :
    (sb b s : Superblock) (i j : ℕ)
    → b ≡ sb
    → (s.revision < sb.revision) ⊎ (s ≡ sb)
    → found (better (some (b, j)) i (some s)) ≡ some sb
older sb b s i j h k =
    if_elim (λ o. found o ≡ some sb) (ltb b.revision s.revision) (some (s, i)) (some (b, j))
      (λ a. elim k [
        | inl less ↦ let r = ap (λ x. x.revision) h in absurd (ground (arith, a, less, r))
        | inr same ↦ ap (λ x. some x) same
      ])
      (λ a. ap (λ x. some x) h)

-- The superblock stays the best one.
better-keeps :
    (sb : Superblock) (best : Option (Superblock × ℕ)) (i : ℕ) (c : Option Superblock)
    → found best ≡ some sb
    → Fits sb c
    → found (better best i c) ≡ some sb
better-keeps sb none i c h k = cc
better-keeps sb (some b) i none h k = h
better-keeps sb (some (b, j)) i (some s) h k = older sb b s i j (cc) k

-- It becomes the best one.
better-takes :
    (sb : Superblock) (best : Option (Superblock × ℕ)) (i : ℕ)
    → Fits sb (found best)
    → found (better best i (some sb)) ≡ some sb
better-takes sb none i h = refl
better-takes sb (some (b, j)) i h =
    if_elim (λ o. found o ≡ some sb) (ltb b.revision sb.revision) (some (sb, i)) (some (b, j))
      (λ a. refl)
      (λ a. elim h [
        | inl less ↦ absurd (ground (arith, a, less))
        | inr same ↦ ap (λ x. some x) same
      ])

module _ (xxh32 : List ℕ → ℕ) (block_size : ℕ) (sb : Superblock) where
  -- No slot holds a later superblock.
  abbrev pub AllFit : List (List ℕ) → Type 0
  AllFit = All (λ block. Fits sb (candidate xxh32 block_size block))

  read_loop-keeps :
      (slots : List (List ℕ)) (i : ℕ) (best : Option (Superblock × ℕ))
      → AllFit slots
      → found best ≡ some sb
      → found (read_loop xxh32 block_size slots i best) ≡ some sb
  unfolding read_loop
  read_loop-keeps [] i best h k = k
  read_loop-keeps (block ∷ slots) i best h k =
      read_loop-keeps slots (suc i) (better best i (candidate xxh32 block_size block)) h.1
        (better-keeps sb best i (candidate xxh32 block_size block) k h.0)

  -- The superblock of a slot is found, where none is later.
  pub read_loop-latest :
      (slots : List (List ℕ)) (i k : ℕ) (block : List ℕ) (best : Option (Superblock × ℕ))
      → AllFit slots
      → Fits sb (found best)
      → get_elem? slots k ≡ some block
      → candidate xxh32 block_size block ≡ some sb
      → found (read_loop xxh32 block_size slots i best) ≡ some sb
  unfolding read_loop
  read_loop-latest [] i k block best h f g c = cc
  read_loop-latest (b ∷ slots) i zero block best h f g c =
      let same : b ≡ block = cc in
      read_loop-keeps slots (suc i) (better best i (candidate xxh32 block_size b)) h.1 (
        ap (λ x. found (better best i x))
          (subst (λ x. candidate xxh32 block_size x ≡ some sb) (sym same) c)
        ∙ better-takes sb best i f)
  read_loop-latest (b ∷ slots) i (suc k) block best h f g c =
      read_loop-latest slots (suc i) k block (better best i (candidate xxh32 block_size b)) h.1
        (better-Fits sb best i (candidate xxh32 block_size b) f h.0) g c
