-- ===== src/StaleRegion/Place.antt =====
-- The regions after `stale_region_add`, by recursion on the regions before.
use wave_db.Base.{
  ℕ, zero, suc, ◌+◌, ◌-◌, ◌%◌, ◌^◌, ◌≤◌, ◌<◌, ◌≡◌, ◌∙◌, refl, sym, ap, List, [], ◌∷◌, ◌++◌, ◌||◌,
  arith, ltb, leb, take, drop, get_or, if◌then◌else◌, inl, inr, Bool-cases,
}
use wave_db.StaleRegion.{StaleRegion, left_loop, right_loop, region_end, no_region}
use wave_db.StaleRegion.Spaced.{IsSpaced, within, covers}
use wave_db.StaleRegion.Merge.{merged_end, last_taken, merged, IsMerged}

abbrev first_start : StaleRegion → ℕ → ℕ
first_start r new_start = if ltb new_start r.offset then new_start else r.offset

-- The merged region, from the first region that is touched.
abbrev joined : StaleRegion → List StaleRegion → ℕ → ℕ → StaleRegion
joined r regions s e = record {
  offset = first_start r s;
  length = (merged_end (last_taken r regions e) e + 2 ^ 64 - first_start r s) % 2 ^ 64;
}

-- The new range `new` from `s` to `e` among the regions.
pub place : List StaleRegion → StaleRegion → ℕ → ℕ → List StaleRegion
place [] new s e = new ∷ []
place (r ∷ regions) new s e =
    let rest = r ∷ place regions new s e in
    if ltb (region_end r) s
    then rest
    else if leb r.offset e
    then joined r regions s e ∷ drop (right_loop regions e) regions
    else new ∷ r ∷ regions

-- The region that the merging branch writes.
abbrev pub joined_to : StaleRegion → StaleRegion → ℕ → ℕ → StaleRegion
joined_to first last s e = record {
  offset = first_start first s;
  length = (merged_end last e + 2 ^ 64 - first_start first s) % 2 ^ 64;
}

-- The list after either branch of `stale_region_add`, for `left` regions in front and `n` merged.
unfoldable pub spliced : List StaleRegion → StaleRegion → ℕ → ℕ → ℕ → ℕ → List StaleRegion
spliced regions new s e left zero = take left regions ++ (new ∷ drop left regions)
spliced regions new s e left (suc n) =
    take left regions
    ++ (joined_to (get_or regions left no_region) (get_or regions (left + n) no_region) s e
        ∷ drop (suc (left + n)) regions)

suc_add : (l n : ℕ) → suc l + n ≡ suc (l + n)
suc_add l n = omega arith

zero_add : (n : ℕ) → 0 + n ≡ n
zero_add n = omega arith

spliced_cons :
    (r : StaleRegion) (regions : List StaleRegion) (new : StaleRegion) (s e l n : ℕ)
    → spliced (r ∷ regions) new s e (suc l) n ≡ r ∷ spliced regions new s e l n
unfolding spliced
spliced_cons r regions new s e l zero = refl
spliced_cons r regions new s e l (suc n) = rw (suc_add l n)

pub spliced-place :
    (regions : List StaleRegion) (new : StaleRegion) (s e : ℕ)
    → spliced regions new s e
        (left_loop regions s)
        (right_loop (drop (left_loop regions s) regions) e)
      ≡ place regions new s e
unfolding place left_loop right_loop
spliced-place [] new s e = unfold spliced in refl
spliced-place (r ∷ regions) new s e = elim (Bool-cases (ltb (region_end r) s)) [
  | inl skip ↦ rw skip (
      spliced_cons r regions new s e (left_loop regions s) _
      ∙ ap (λ l. r ∷ l) (spliced-place regions new s e))
  | inr stop ↦ elim (Bool-cases (leb r.offset e)) [
    | inl more ↦ rw (stop, more) (unfold spliced in rw (zero_add (right_loop regions e)))
    | inr done ↦ rw (stop, done) (unfold spliced in refl)
  ]
]

joined_ends :
    (r : StaleRegion) (s E : ℕ)
    → s < E
    → E < 2 ^ 64
    → (first_start r s + (E + 2 ^ 64 - first_start r s) % 2 ^ 64 ≡ E)
      × (0 < (E + 2 ^ 64 - first_start r s) % 2 ^ 64)
joined_ends r s E h k = ground arith

joined_sound :
    (lo : ℕ) (r : StaleRegion) (regions : List StaleRegion) (s e E : ℕ) (rest : List StaleRegion)
    → IsMerged s e r regions E rest
    → lo ≤ r.offset
    → lo ≤ s
    → s < e
    → IsSpaced lo (
        record { offset = first_start r s; length = (E + 2 ^ 64 - first_start r s) % 2 ^ 64 }
        ∷ rest)
      × ((b : ℕ)
          → covers
              (record { offset = first_start r s; length = (E + 2 ^ 64 - first_start r s) % 2 ^ 64 }
                ∷ rest)
              b
            ≡ (within s e b || covers (r ∷ regions) b))
joined_sound lo r regions s e E rest m above low proper =
    let (past, filled) = joined_ends r s E (omega (arith, m.past_new)) m.fits in
    rw past ((ground arith, filled, m.fits, m.spaced), λ b. sym (m.same b))

pub place_sound :
    (lo : ℕ) (regions : List StaleRegion) (new : StaleRegion) (s e : ℕ)
    → IsSpaced lo regions
    → lo ≤ s
    → s < e
    → e < 2 ^ 64
    → new.offset ≡ s
    → new.offset + new.length ≡ e
    → IsSpaced lo (place regions new s e)
      × ((b : ℕ) → covers (place regions new s e) b ≡ (within s e b || covers regions b))
unfolding place
place_sound lo [] new s e sp low proper fits start end_ =
    ((omega arith, omega arith, omega arith, tt), λ b. ground arith)
place_sound lo (r ∷ regions) new s e sp low proper fits start end_ =
    elim (Bool-cases (ltb (region_end r) s)) [
      | inl skip ↦
          let (ih, same) =
            place_sound (r.offset + r.length + 1) regions new s e sp.3 (ground arith) proper fits
              start end_ in
          rw skip ((sp.0, sp.1, sp.2, ih), λ b. ground (arith, same b))
      | inr stop ↦ elim (Bool-cases (leb r.offset e)) [
        | inl more ↦
            rw (stop, more)
              (joined_sound lo r regions s e _ _
                (merged lo s e r regions sp (ground arith) (ground arith) proper fits) sp.0 low
                proper)
        | inr done ↦
            rw (stop, done)
              (
                (omega arith, omega arith, omega arith, (ground arith, sp.1, sp.2, sp.3)),
                λ b. ground arith,
              )
      ]
    ]
