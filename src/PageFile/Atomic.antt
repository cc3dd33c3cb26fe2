-- ===== src/PageFile/Atomic.antt =====
-- The invariant of the superblocks, and what the write of a slot makes of it.
use wave_db.Base.{
  ℕ, zero, suc, ◌+◌, ◌%◌, ◌<◌, ◌≤◌, ◌≡◌, ◌≢◌, ◌⊎◌, ◌∙◌, refl, sym, ap, arith, inl, inr, Bool, true,
  false, Option, none, some, List, [], ◌∷◌, leb, length, set, get_elem?, get_or, length-set,
  get_elem?-set_self, get_elem?-set_ne, All, if_elim,
}
use wave_db.PageFile.{Superblock, PageFile, candidate, read_superblock, written, put_slot}
use wave_db.PageFile.Latest.{Fits, found, AllFit, read_loop-latest}
use native.Mathlib.Nat.{mod-lt, mod-eq_of_lt, mod_self, suc-mod}
use mathlib.Core.Path.{subst}

le-cases : (a b : ℕ) → (a ≤ b) ⊎ (b < a)
le-cases a b =
    if_elim (λ t. (a ≤ b) ⊎ (b < a)) (leb a b) true false (λ t. inl (ground (arith, t)))
      (λ t. inr (ground (arith, t)))

-- Neighbouring revisions have different slots.
next_slot : (r n : ℕ) → 2 ≤ n → (r + 1) % n ≢ r % n
next_slot r n h e =
    let below = mod-lt r {m = n} (omega (arith, h)) in
    let one : r + 1 ≡ suc r = omega arith in
    let next : r % n ≡ suc (r % n) % n = sym e ∙ ap (λ k. k % n) one ∙ suc-mod r n in
    elim (le-cases (suc (suc (r % n))) n) [
      | inl less ↦ let same = mod-eq_of_lt less in absurd (omega (arith, next, same))
      | inr more ↦
          let last : suc (r % n) ≡ n = omega (arith, below, more) in
          let zero_ = ap (λ k. k % n) last ∙ mod_self n in
          absurd (omega (arith, next, zero_, last, h))
    ]

-- The superblock is the latest of the file, in the slot of the file's revision.
pub record IsCurrent (xxh32 : List ℕ → ℕ) (pf : PageFile) (sb : Superblock) : Type 0 where
  pub two : 2 ≤ pf.num_superblocks
  pub all_slots : length pf.slots ≡ pf.num_superblocks
  pub revision : sb.revision ≡ pf.revision
  pub latest : AllFit xxh32 pf.block_size sb pf.slots
  pub block : List ℕ
  pub here : get_elem? pf.slots (pf.revision % pf.num_superblocks) ≡ some block
  pub is : candidate xxh32 pf.block_size block ≡ some sb

All-set {ℓ κ} :
    {A : Type ℓ} (P : A → Type κ) (xs : List A) (i : ℕ) (x : A)
    → All P xs
    → P x
    → All P (set xs i x)
All-set P [] i x h p = h
All-set P (y ∷ xs) zero x h p = (p, h.1)
All-set P (y ∷ xs) (suc i) x h p = (h.0, All-set P xs i x h.1 p)

All-map {ℓ κ μ} :
    {A : Type ℓ} (P : A → Type κ) (Q : A → Type μ) (xs : List A)
    → ((x : A) → P x → Q x)
    → All P xs
    → All Q xs
All-map P Q [] f h = tt
All-map P Q (x ∷ xs) f h = (f x h.0, All-map P Q xs f h.1)

All-get_or {ℓ κ} :
    {A : Type ℓ} (P : A → Type κ) (xs : List A) (i : ℕ) (d : A)
    → i < length xs
    → All P xs
    → P (get_or xs i d)
All-get_or P [] i d l h = absurd (omega (arith, l))
All-get_or P (x ∷ xs) zero d l h = h.0
All-get_or P (x ∷ xs) (suc i) d l h = All-get_or P xs i d (omega (arith, l)) h.1

-- What was the latest is older than a superblock of a later revision.
Fits-later :
    (old new : Superblock)
    → old.revision < new.revision
    → (c : Option Superblock) → Fits old c
    → Fits new c
Fits-later old new h none k = tt
Fits-later old new h (some s) (inl less) = inl (omega (arith, h, less))
Fits-later old new h (some s) (inr same) =
    inl (let r = ap (λ x. x.revision) same in omega (arith, h, r))

module _ (xxh32 : List ℕ → ℕ) where
  -- What `page_file_read_superblock` gives.
  abbrev pub Reads : PageFile → Superblock → Type 0
  Reads pf sb = found (read_superblock xxh32 pf) ≡ some sb

  pub current-Reads : (pf : PageFile) (sb : Superblock) → IsCurrent xxh32 pf sb → Reads pf sb
  unfolding read_superblock
  current-Reads pf sb c =
      read_loop-latest xxh32 pf.block_size sb pf.slots 0 (pf.revision % pf.num_superblocks) c.block
        none c.latest tt c.here c.is

  -- The new superblock after success, the old one after failure.
  abbrev pub Outcome : Superblock → Superblock → PageFile × Bool → Type 0
  Outcome old new (pf, true) = IsCurrent xxh32 pf new × Reads pf new
  Outcome old new (pf, false) = IsCurrent xxh32 pf old × Reads pf old

  -- A torn block reads as none, or as what the slot held.
  abbrev pub IsTorn : ℕ → List ℕ → List ℕ → List ℕ → Type 0
  IsTorn block_size torn old new =
      (candidate xxh32 block_size torn ≡ none)
      ⊎ (candidate xxh32 block_size torn ≡ candidate xxh32 block_size old)

  abbrev pub Tears : Option ℕ → PageFile → List ℕ → Type 0
  Tears none pf new = Unit
  Tears (some k) pf new =
      let old = get_or pf.slots ((pf.revision + 1) % pf.num_superblocks) [] in
      IsTorn pf.block_size (written (some k) new old) old new

  slot_inside :
      (pf : PageFile) (sb : Superblock)
      → IsCurrent xxh32 pf sb
      → (pf.revision + 1) % pf.num_superblocks < length pf.slots
  slot_inside pf sb c =
      let n = c.all_slots in
      let two = c.two in
      omega (arith, n, mod-lt (pf.revision + 1) {m = pf.num_superblocks} (omega (arith, two)))

  pub put_slot-Outcome :
      (short : Option ℕ) (pf : PageFile) (old new : Superblock) (block : List ℕ)
      → IsCurrent xxh32 pf old
      → new.revision ≡ pf.revision + 1
      → candidate xxh32 pf.block_size block ≡ some new
      → Tears short pf block
      → Outcome old new (put_slot short pf (pf.revision + 1) block)
  unfolding put_slot
  put_slot-Outcome none pf old new block c r is tears =
      let current : IsCurrent xxh32 _ new = record {
        two = c.two;
        all_slots = length-set pf.slots _ block ∙ c.all_slots;
        revision = r;
        latest =
            All-set _ pf.slots _ block
              (All-map _ _ pf.slots
                (λ x k.
                  Fits-later old new (let q = c.revision in omega (arith, r, q))
                    (candidate xxh32 pf.block_size x) k)
                c.latest)
              (subst (Fits new) (sym is) (inr refl));
        block = block;
        here = get_elem?-set_self pf.slots _ block (slot_inside pf old c);
        is = is;
      } in
      (current, current-Reads _ new current)
  put_slot-Outcome (some k) pf old new block c r is tears =
      let slot = (pf.revision + 1) % pf.num_superblocks in
      let torn = written (some k) block (get_or pf.slots slot []) in
      let fits : Fits old (candidate xxh32 pf.block_size torn) = elim tears [
        | inl refused ↦ subst (Fits old) (sym refused) tt
        | inr same ↦ subst (Fits old) (sym same) (
            All-get_or (λ b. Fits old (candidate xxh32 pf.block_size b)) pf.slots slot []
              (slot_inside pf old c) c.latest)
      ] in
      let current : IsCurrent xxh32 _ old = record {
        two = c.two;
        all_slots = length-set pf.slots _ torn ∙ c.all_slots;
        revision = c.revision;
        latest = All-set _ pf.slots _ torn c.latest fits;
        block = c.block;
        here =
            get_elem?-set_ne pf.slots torn (next_slot pf.revision pf.num_superblocks c.two)
            ∙ c.here;
        is = c.is;
      } in
      (current, current-Reads _ old current)
