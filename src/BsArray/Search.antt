-- ===== src/BsArray/Search.antt =====
-- The binary search finds the lower bound of a key in a sorted array.
use wave_db.Base.{
  ℕ, zero, suc, ◌+◌, ◌-◌, ◌/◌, ◌≤◌, ◌<◌, ◌≡◌, inl, inr, true, false, Option, List, arith, ltb,
  length, Bool-cases, is_lt,
}
use wave_db.Chunk.{Chunk}
use wave_db.BsArray.{cmp_at, search_loop, search}
use wave_db.BsArray.Entry.{BnodeEntry}
use mathlib.Core.Path.{subst}

module _ {ℓ} {V : Type ℓ} where
  abbrev pub IsBelow : List (BnodeEntry V) → Option Chunk → ℕ → Type 0
  IsBelow entries key i = is_lt (cmp_at entries i key) ≡ true

  -- If an entry is below the key, so are those in front of it.
  abbrev pub IsPartitioned : List (BnodeEntry V) → Option Chunk → Type 0
  IsPartitioned entries key =
      (i j : ℕ) → i < j → j < length entries → IsBelow entries key j → IsBelow entries key i

  IsBelow-left :
      (entries : List (BnodeEntry V)) (key : Option Chunk) (mid i : ℕ)
      → IsPartitioned entries key
      → mid < length entries
      → IsBelow entries key mid
      → i ≤ mid
      → IsBelow entries key i
  IsBelow-left entries key mid i mono inside at h = elim (Bool-cases (ltb i mid)) [
    | inl e ↦ mono i mid (ground arith) inside at
    | inr e ↦ let same : mid ≡ i = ground arith in subst (IsBelow entries key) same at
  ]

  IsBelow_right :
      (entries : List (BnodeEntry V)) (key : Option Chunk) (mid : ℕ)
      → IsPartitioned entries key
      → is_lt (cmp_at entries mid key) ≡ false
      → (i : ℕ) → mid ≤ i
      → i < length entries
      → is_lt (cmp_at entries i key) ≡ false
  IsBelow_right entries key mid mono at i h inside =
      elim (Bool-cases (is_lt (cmp_at entries i key))) [
        | inr e ↦ e
        | inl e ↦ elim (Bool-cases (ltb mid i)) [
          | inl less ↦ cc (mono mid i (ground arith) inside e)
          | inr same ↦
              let same' : mid ≡ i = ground arith in
              subst (λ j. is_lt (cmp_at entries j key) ≡ false) same' at
        ]
      ]

  search_loop-bound :
      (fuel : ℕ) (entries : List (BnodeEntry V)) (key : Option Chunk) (lo hi : ℕ)
      → IsPartitioned entries key
      → lo ≤ hi
      → hi ≤ length entries
      → hi ≤ lo + fuel
      → ((i : ℕ) → i < lo → IsBelow entries key i)
      → ((i : ℕ) → hi ≤ i → i < length entries → is_lt (cmp_at entries i key) ≡ false)
      → (search_loop fuel entries key lo hi ≤ length entries)
        × ((i : ℕ) → i < search_loop fuel entries key lo hi → IsBelow entries key i)
        × ((i : ℕ)
            → search_loop fuel entries key lo hi ≤ i
            → i < length entries
            → is_lt (cmp_at entries i key) ≡ false)
  unfolding search_loop
  search_loop-bound zero entries key lo hi mono h k f below above =
      (omega arith, below, λ i p. above i (omega arith))
  search_loop-bound (suc fuel) entries key lo hi mono h k f below above =
      elim (Bool-cases (ltb lo hi)) [
        | inl more ↦ elim (Bool-cases (is_lt (cmp_at entries (lo + (hi - lo) / 2) key))) [
          | inl e ↦
              rw (more, e)
                (search_loop-bound fuel entries key (lo + (hi - lo) / 2 + 1) hi mono (ground arith)
                  k (ground arith)
                  (λ i p.
                    IsBelow-left entries key (lo + (hi - lo) / 2) i mono (ground arith) e
                      (omega arith))
                  above)
          | inr e ↦
              rw (more, e)
                (search_loop-bound fuel entries key lo (lo + (hi - lo) / 2) mono (omega arith)
                  (ground arith) (ground arith) below
                  (IsBelow_right entries key (lo + (hi - lo) / 2) mono e))
        ]
        | inr done ↦ rw done (omega arith, below, λ i p. above i (ground arith))
      ]

  -- On a partitioned array the search returns the number of entries below the key: all in front
  -- of it are below, none from it on is.
  pub search_bound :
      (entries : List (BnodeEntry V)) (key : Option Chunk)
      → IsPartitioned entries key
      → (search entries key ≤ length entries)
        × ((i : ℕ) → i < search entries key → IsBelow entries key i)
        × ((i : ℕ)
            → search entries key ≤ i
            → i < length entries
            → is_lt (cmp_at entries i key) ≡ false)
  unfolding search
  search_bound entries key mono =
      search_loop-bound (length entries) entries key 0 (length entries) mono (omega arith)
        (omega arith) (omega arith) (λ i p. absurd (omega arith)) (λ i p q. absurd (omega arith))
