-- ===== src/StaleRegion/Merge.antt =====
-- The regions that a merge takes in, from the first one that the new range touches on.
use wave_db.Base.{
  ℕ, ◌+◌, ◌^◌, ◌≤◌, ◌<◌, ◌≡◌, false, List, [], ◌∷◌, ◌||◌, arith, ltb, leb, drop, get_or,
  if◌then◌else◌, inl, inr, Bool-cases,
}
use wave_db.StaleRegion.{StaleRegion, right_loop, region_end, no_region}
use wave_db.StaleRegion.Spaced.{IsSpaced, within, covers}

-- The end of the merged region: that of the last region taken in, or the new end.
abbrev pub merged_end : StaleRegion → ℕ → ℕ
merged_end last new_end = if ltb (region_end last) new_end then new_end else region_end last

-- The last of the regions `r ∷ regions` that start by `new_end`, when `r` does.
abbrev pub last_taken : StaleRegion → List StaleRegion → ℕ → StaleRegion
last_taken r regions new_end = get_or (r ∷ regions) (right_loop regions new_end) no_region

-- The range from `s` to `e`, with the regions `r ∷ regions`, is one range up to `E` and `rest`.
pub record IsMerged (s e : ℕ) (r : StaleRegion) (regions : List StaleRegion) (E : ℕ)
    (rest : List StaleRegion) : Type 0 where
  pub past_new : e ≤ E
  pub past_first : r.offset + r.length ≤ E
  pub fits : E < 2 ^ 64
  pub spaced : IsSpaced (E + 1) rest
  pub same :
      (b : ℕ)
      → (within s e b || covers (r ∷ regions) b)
        ≡ (within (if ltb s r.offset then s else r.offset) E b || covers rest b)

IsMerged-one :
    (lo s e : ℕ) (r : StaleRegion) (regions : List StaleRegion)
    → IsSpaced lo (r ∷ regions)
    → IsSpaced (e + 1) regions
    → r.offset ≤ e
    → s ≤ r.offset + r.length
    → s < e
    → e < 2 ^ 64
    → IsMerged s e r regions (merged_end r e) regions
IsMerged-one lo s e r regions sp apart start touch proper fits = record {
  past_new = ground arith;
  past_first = ground arith;
  fits = ground arith;
  spaced = IsSpaced_max regions (r.offset + r.length) e (region_end r) sp.3 apart (omega arith);
  same = λ b. ground arith;
}
  where
    IsSpaced_max :
        (xs : List StaleRegion) (a b a' : ℕ)
        → IsSpaced (a + 1) xs
        → IsSpaced (b + 1) xs
        → a' ≡ a
        → IsSpaced ((if ltb a' b then b else a') + 1) xs
    IsSpaced_max [] a b a' h k same = tt
    IsSpaced_max (x ∷ xs) a b a' h k same = (ground arith, h.1, h.2, h.3)

IsMerged-more :
    (lo s e E : ℕ) (r q : StaleRegion) (regions rest : List StaleRegion)
    → IsSpaced lo (r ∷ q ∷ regions)
    → s ≤ r.offset + r.length
    → q.offset ≤ e
    → IsMerged s e q regions E rest
    → IsMerged s e r (q ∷ regions) E rest
IsMerged-more lo s e E r q regions rest sp touch start ih = record {
  past_new = ih.past_new;
  past_first = omega (arith, ih.past_first);
  fits = ih.fits;
  spaced = ih.spaced;
  same = λ b. ground (arith, ih.same b, ih.past_new);
}

IsSpaced-after :
    (lo e : ℕ) (q : StaleRegion) (regions : List StaleRegion)
    → IsSpaced lo (q ∷ regions)
    → leb q.offset e ≡ false
    → IsSpaced (e + 1) (q ∷ regions)
IsSpaced-after lo e q regions sp h = (ground arith, sp.1, sp.2, sp.3)

pub merged :
    (lo s e : ℕ) (r : StaleRegion) (regions : List StaleRegion)
    → IsSpaced lo (r ∷ regions)
    → r.offset ≤ e
    → s ≤ r.offset + r.length
    → s < e
    → e < 2 ^ 64
    → IsMerged s e r regions
        (merged_end (last_taken r regions e) e)
        (drop (right_loop regions e) regions)
unfolding right_loop
merged lo s e r [] sp start touch proper fits =
    IsMerged-one lo s e r [] sp tt start touch proper fits
merged lo s e r (q ∷ regions) sp start touch proper fits = elim (Bool-cases (leb q.offset e)) [
  | inl more ↦ rw more (
      IsMerged-more lo s e _ r q regions _ sp touch (ground arith) (
        merged (r.offset + r.length + 1) s e q regions sp.3 (ground arith) (omega arith) proper
          fits))
  | inr done ↦ rw done (
      IsMerged-one lo s e r (q ∷ regions) sp (IsSpaced-after _ e q regions sp.3 done) start touch
        proper fits)
]
