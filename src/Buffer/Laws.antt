-- ===== src/Buffer/Laws.antt =====
-- Slices and comparisons of buffers.
use wave_db.Base.{
  ℕ, zero, suc, ◌+◌, ◌-◌, ◌≡◌, ◌≢◌, ◌↔◌, ◌∙◌, refl, sym, ap, arith, inl, inr, Ordering, false, some,
  List, [], ◌∷◌, ◌++◌, ◌==◌, if◌then◌else◌, length, take, drop, Bool-cases, length-append,
}
use wave_db.Buffer.{create_from_pointer_copy, concat, slice, compare_loop, sign, compare}

take_left : (a b : List ℕ) → take (length a) (a ++ b) ≡ a
take_left [] b = refl
take_left (x ∷ a) b = ap (λ l. x ∷ l) (take_left a b)

drop_left : (a b : List ℕ) → drop (length a) (a ++ b) ≡ b
drop_left [] b = refl
drop_left (x ∷ a) b = drop_left a b

take_whole : (n : ℕ) (a : List ℕ) → n ≡ length a → take n a ≡ a
take_whole zero [] h = refl
take_whole zero (x ∷ a) h = absurd (omega (arith, h))
take_whole (suc n) [] h = refl
take_whole (suc n) (x ∷ a) h = ap (λ l. x ∷ l) (take_whole n a (omega (arith, h)))

-- Slicing a concatenation at the end of the first buffer gives back the two buffers.
pub slice-concat :
    (a b : List ℕ)
    → (slice (concat a b) 0 (length a) ≡ some a)
      × (slice (concat a b) (length a) (length a + length b) ≡ some b)
unfolding slice concat create_from_pointer_copy
slice-concat a b =
    let l = length-append a b in
    let z : length a - 0 ≡ length a = omega arith in
    let w : length a + length b - length a ≡ length b = omega arith in
    (
      ground (arith, l, z, take_left a b),
      ground (arith, l, w, drop_left a b, take_whole (length b) b refl),
    )

next_ne : (a b x y : ℕ) → a ≢ b → (if x == y then a else x) ≢ (if x == y then b else y)
next_ne a b x y h = ground arith

-- Once the two numbers differ they go on to differ.
compare_loop_ne :
    (a b : ℕ) (xs ys : List ℕ) → a ≢ b → (compare_loop a b xs ys).0 ≢ (compare_loop a b xs ys).1
unfolding compare_loop
compare_loop_ne a b [] ys h = h
compare_loop_ne a b (x ∷ xs) [] h = h
compare_loop_ne a b (x ∷ xs) (y ∷ ys) h =
    compare_loop_ne (if x == y then a else x) (if x == y then b else y) xs ys (next_ne a b x y h)

taken_ne : (a b x y : ℕ) → (x == y) ≡ false → (if x == y then a else x) ≢ (if x == y then b else y)
taken_ne a b x y h = ground arith

same_lists :
    (a b : ℕ) (xs ys : List ℕ)
    → length xs ≡ length ys
    → (compare_loop a b xs ys).0 ≡ (compare_loop a b xs ys).1
    → xs ≡ ys
unfolding compare_loop
same_lists a b [] [] l h = refl
same_lists a b [] (y ∷ ys) l h = absurd (omega (arith, l))
same_lists a b (x ∷ xs) [] l h = absurd (omega (arith, l))
same_lists a b (x ∷ xs) (y ∷ ys) l h = elim (Bool-cases (x == y)) [
  | inl same ↦
      let e : x ≡ y = ground arith in
      let ih =
        same_lists (if x == y then a else x) (if x == y then b else y) xs ys (omega (arith, l)) h in
      ap (λ v. v ∷ xs) e ∙ ap (λ l. y ∷ l) ih
  | inr other ↦ absurd (
      compare_loop_ne (if x == y then a else x) (if x == y then b else y) xs ys
        (taken_ne a b x y other) h)
]

compare_loop_refl : (a : ℕ) (xs : List ℕ) → compare_loop a a xs xs ≡ (a, a)
unfolding compare_loop
compare_loop_refl a [] = refl
compare_loop_refl a (x ∷ xs) =
    let e : (if x == x then a else x) ≡ a = ground arith in
    ap (λ k. compare_loop k k xs xs) e ∙ compare_loop_refl a xs

sign-eq_iff : (p : ℕ × ℕ) → (sign p ≡ Ordering.eq) ↔ (p.0 ≡ p.1)
sign-eq_iff (a, b) = ground arith

-- `buffer_compare` returns 0 exactly on buffers of the same bytes.
pub compare-eq_iff : (a b : List ℕ) → (compare a b ≡ Ordering.eq) ↔ (a ≡ b)
unfolding compare
compare-eq_iff a b =
    (same, λ e. ap (λ l. sign (compare_loop (length a) (length l) a l)) (sym e) ∙ whole)
  where
    whole : sign (compare_loop (length a) (length a) a a) ≡ Ordering.eq
    whole = (sign-eq_iff _).1 (ap (λ p. p.0) r ∙ sym (ap (λ p. p.1) r))
      where
        r : compare_loop (length a) (length a) a a ≡ (length a, length a)
        r = compare_loop_refl (length a) a

    same : sign (compare_loop (length a) (length b) a b) ≡ Ordering.eq → a ≡ b
    same h =
        let p = (sign-eq_iff (compare_loop (length a) (length b) a b)).0 h in
        elim (Bool-cases (length a == length b)) [
          | inl e ↦ same_lists (length a) (length b) a b (ground arith) p
          | inr e ↦ absurd (compare_loop_ne (length a) (length b) a b (ground arith) p)
        ]
