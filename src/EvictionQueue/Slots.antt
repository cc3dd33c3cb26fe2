-- ===== src/EvictionQueue/Slots.antt =====
-- What the loop of `eviction_queue_drain` reads from the ring, and after a write to one slot.
use wave_db.Base.{
  ℕ, zero, suc, ◌+◌, ◌-◌, ◌%◌, ◌^◌, ◌<◌, ◌≤◌, ◌≡◌, ◌≢◌, ◌∙◌, refl, ap, List, [], ◌∷◌, ◌++◌, arith,
  ltb, if◌then◌else◌, set, get_or, length, take, drop,
}
use wave_db.EvictionQueue.{drain_loop}

pub get_or-set_self : (xs : List ℕ) (i v : ℕ) → i < length xs → get_or (set xs i v) i 0 ≡ v
get_or-set_self [] i v h = absurd (omega arith)
get_or-set_self (x ∷ xs) zero v h = refl
get_or-set_self (x ∷ xs) (suc i) v h = get_or-set_self xs i v (omega arith)

get_or-set_ne : (xs : List ℕ) (i j v : ℕ) → i ≢ j → get_or (set xs i v) j 0 ≡ get_or xs j 0
get_or-set_ne [] i j v h = refl
get_or-set_ne (x ∷ xs) zero zero v h = absurd (h refl)
get_or-set_ne (x ∷ xs) zero (suc j) v h = refl
get_or-set_ne (x ∷ xs) (suc i) zero v h = refl
get_or-set_ne (x ∷ xs) (suc i) (suc j) v h = get_or-set_ne xs i j v (λ e. h (ap suc e))

pub length-drain_loop : (o : List ℕ) (h i n : ℕ) → length (drain_loop o h i n) ≡ n
unfolding drain_loop
length-drain_loop o h i zero = refl
length-drain_loop o h i (suc n) = ap suc (length-drain_loop o h (suc i) n)

pub drain_loop_snoc :
    (o : List ℕ) (h i n : ℕ)
    → drain_loop o h i (suc n)
      ≡ drain_loop o h i n ++ (get_or o ((h + (i + n)) % 2 ^ 64 % 256) 0 ∷ [])
unfolding drain_loop
drain_loop_snoc o h i zero = let e : i + 0 ≡ i = omega arith in rw e refl
drain_loop_snoc o h i (suc n) =
    let e : suc i + n ≡ i + suc n = omega arith in
    ap (λ l. get_or o ((h + i) % 2 ^ 64 % 256) 0 ∷ l)
      (drain_loop_snoc o h (suc i) n
        ∙ ap (λ k. drain_loop o h (suc i) n ++ (get_or o ((h + k) % 2 ^ 64 % 256) 0 ∷ [])) e)

apart : (h i d : ℕ) → i < d → d < 256 → (h + d) % 2 ^ 64 % 256 ≢ (h + i) % 2 ^ 64 % 256
apart h i d less few e = omega arith

pub drain_loop-set :
    (o : List ℕ) (h i n d v : ℕ)
    → i + n ≤ d
    → d < 256
    → drain_loop (set o ((h + d) % 2 ^ 64 % 256) v) h i n ≡ drain_loop o h i n
unfolding drain_loop
drain_loop-set o h i zero d v ahead few = refl
drain_loop-set o h i (suc n) d v ahead few =
    rw
      (
        get_or-set_ne o ((h + d) % 2 ^ 64 % 256) ((h + i) % 2 ^ 64 % 256) v
            (apart h i d (omega arith) few),
        drain_loop-set o h (suc i) n d v (omega arith) few,
      )
      refl

pub drain_loop_shift :
    (o : List ℕ) (h c i n : ℕ) → drain_loop o ((h + c) % 2 ^ 64) i n ≡ drain_loop o h (c + i) n
unfolding drain_loop
drain_loop_shift o h c i zero = refl
drain_loop_shift o h c i (suc n) =
    let e : ((h + c) % 2 ^ 64 + i) % 2 ^ 64 ≡ (h + (c + i)) % 2 ^ 64 = omega arith in
    let f : c + suc i ≡ suc (c + i) = omega arith in
    rw (e, drain_loop_shift o h c (suc i) n, f) refl

smaller :
    (n k : ℕ) → suc (if ltb n k then n else k) ≡ (if ltb (suc n) (suc k) then suc n else suc k)
smaller n k = ground arith

pub take-drain_loop :
    (o : List ℕ) (h i n k : ℕ)
    → take k (drain_loop o h i n) ≡ drain_loop o h i (if ltb n k then n else k)
unfolding drain_loop
take-drain_loop o h i zero zero = ground arith
take-drain_loop o h i zero (suc k) = ground arith
take-drain_loop o h i (suc n) zero = ground arith
take-drain_loop o h i (suc n) (suc k) =
    let ih = take-drain_loop o h (suc i) n k in
    ap (λ l. get_or o ((h + i) % 2 ^ 64 % 256) 0 ∷ l) ih ∙ ap (drain_loop o h i) (smaller n k)

pub drop-drain_loop :
    (o : List ℕ) (h i n k : ℕ) → drop k (drain_loop o h i n) ≡ drain_loop o h (i + k) (n - k)
unfolding drain_loop
drop-drain_loop o h i n zero =
    let e : i + 0 ≡ i = omega arith in let f : n - 0 ≡ n = omega arith in rw (e, f) refl
drop-drain_loop o h i zero (suc k) = let e : 0 - suc k ≡ 0 = omega arith in rw e refl
drop-drain_loop o h i (suc n) (suc k) =
    let e : suc i + k ≡ i + suc k = omega arith in
    let f : n - k ≡ suc n - suc k = omega arith in drop-drain_loop o h (suc i) n k ∙ rw (e, f) refl
