-- ===== src/Identifier/Chunking.antt =====
-- Cutting data into chunks and joining them again.
use wave_db.Base.{
  ℕ, zero, suc, ◌+◌, ◌-◌, ◌*◌, ◌/◌, ◌%◌, ◌<◌, ◌≤◌, ◌≡◌, ◌∙◌, refl, sym, ap, arith, false, some,
  List, [], ◌∷◌, ◌++◌, ◌==◌, length, take, drop, replicate, length-take, length-drop, length-append,
  Bool-cases, inl, inr,
}
use wave_db.Identifier.{
  calc_nchunk, calc_last_chunk_size, create_loop, create, copy_loop, or_default, to_buffer,
}
use mathlib.Core.List.{append-nil}
use native.Mathlib.Nat.{div-add-mod', mod-lt, mod-eq_of_lt, mod_self, mul-add-mod_self_right}

take-append : (n : ℕ) (xs ys : List ℕ) → length xs ≡ n → take n (xs ++ ys) ≡ xs
take-append zero [] ys h = refl
take-append zero (x ∷ xs) ys h = absurd (omega (arith, h))
take-append (suc n) [] ys h = absurd (omega (arith, h))
take-append (suc n) (x ∷ xs) ys h = ap (λ l. x ∷ l) (take-append n xs ys (omega (arith, h)))

take-none : (n : ℕ) → take {A = ℕ} n [] ≡ []
take-none zero = refl
take-none (suc n) = refl

drop-none : (n : ℕ) → drop {A = ℕ} n [] ≡ []
drop-none zero = refl
drop-none (suc n) = refl

take-add : (a b : ℕ) (xs : List ℕ) → take (a + b) xs ≡ take a xs ++ take b (drop a xs)
take-add zero b xs = let e : 0 + b ≡ b = omega arith in rw e refl
take-add (suc a) b [] = take-none (suc a + b) ∙ sym (take-none b)
take-add (suc a) b (x ∷ xs) =
    let e : suc a + b ≡ suc (a + b) = omega arith in rw e (ap (λ l. x ∷ l) (take-add a b xs))

drop-add : (a b : ℕ) (xs : List ℕ) → drop (a + b) xs ≡ drop b (drop a xs)
drop-add zero b xs = let e : 0 + b ≡ b = omega arith in rw e refl
drop-add (suc a) b [] = drop-none (suc a + b) ∙ sym (drop-none b)
drop-add (suc a) b (x ∷ xs) =
    let e : suc a + b ≡ suc (a + b) = omega arith in rw e (drop-add a b xs)

pub suc_mul : (i cs : ℕ) → suc i * cs ≡ i * cs + cs
suc_mul i cs = omega arith

-- A full piece of the memory, kept whole by a second copy of its length.
copied :
    (k pad : ℕ) (o : ℕ) (memory : List ℕ)
    → o + k ≤ length memory
    → take k (take k (drop o memory) ++ replicate pad 0) ≡ take k (drop o memory)
copied k pad o memory h =
    take-append k (take k (drop o memory)) (replicate pad 0)
      (omega (arith, length-take k (drop o memory), length-drop o memory))

-- A chunk and the rest behind it.
joined :
    (memory : List ℕ) (n o cs : ℕ)
    → o + cs ≤ n
    → take cs (drop o memory) ++ take (n - (o + cs)) (drop (o + cs) memory)
      ≡ take (n - o) (drop o memory)
joined memory n o cs h =
    let e : cs + (n - (o + cs)) ≡ n - o = omega arith in
    ap (λ l. take cs (drop o memory) ++ take (n - (o + cs)) l) (drop-add o cs memory)
    ∙ sym (take-add cs (n - (o + cs)) (drop o memory))
    ∙ ap (λ k. take k (drop o memory)) e

-- The chunks from chunk `i` on, joined, are the rest of the data.
copy_loop-create_loop :
    (memory : List ℕ) (n cs i left : ℕ)
    → n ≤ length memory
    → i * cs + left * cs < n
    → calc_last_chunk_size n cs ≡ n - (i * cs + left * cs)
    → copy_loop (create_loop memory n cs i (suc left)) n cs (i * cs)
      ≡ take (n - i * cs) (drop (i * cs) memory)
unfolding create_loop copy_loop
copy_loop-create_loop memory n cs i zero whole start last =
    let l : calc_last_chunk_size n cs ≡ n - i * cs = omega (arith, last) in
    rw l (copied (n - i * cs) (cs - (n - i * cs)) (i * cs) memory (omega (arith, start)))
copy_loop-create_loop memory n cs i (suc left) whole start last =
    let e : (suc left == 0) ≡ false = ground arith in
    let more = create_loop memory n cs (suc i) (suc left) in
    rw e (
      ap (λ l. l ++ copy_loop more n cs (i * cs + cs))
        (copied cs (cs - cs) (i * cs) memory (omega (arith, start, suc_mul left cs)))
      ∙ ap (λ o. take cs (drop (i * cs) memory) ++ copy_loop more n cs o) (sym (suc_mul i cs))
      ∙ ap (λ l. take cs (drop (i * cs) memory) ++ l)
          (copy_loop-create_loop memory n cs (suc i) left whole
            (omega (arith, start, suc_mul left cs, suc_mul i cs))
            (last ∙ omega (arith, suc_mul left cs, suc_mul i cs)))
      ∙ ap (λ o. take cs (drop (i * cs) memory) ++ take (n - o) (drop o memory)) (suc_mul i cs)
      ∙ joined memory n (i * cs) cs (omega (arith, start, suc_mul left cs)))

-- The size of the last chunk, for a last full chunk and for a partial one.
pub last_of : (n cs q r : ℕ) → n ≡ q * cs + suc r → r < cs → calc_last_chunk_size n cs ≡ suc r
unfolding calc_last_chunk_size
last_of n cs q r split less =
    let same : n % cs ≡ suc r % cs = ap (λ k. k % cs) split ∙ mul-add-mod_self_right q cs (suc r) in
    elim (Bool-cases (suc r == cs)) [
      | inl full ↦
          let e : suc r ≡ cs = ground arith in
          let z : n % cs ≡ 0 = same ∙ ap (λ k. k % cs) e ∙ mod_self cs in ground (arith, split, z)
      | inr partial ↦
          let less' : suc r < cs = ground arith in
          let z : n % cs ≡ suc r = same ∙ mod-eq_of_lt less' in ground (arith, split, z)
    ]

pub last_chunk :
    (n cs : ℕ)
    → 0 < n
    → 0 < cs
    → ((n - 1) / cs * cs < n) × (calc_last_chunk_size n cs ≡ n - (n - 1) / cs * cs)
last_chunk n cs some_bytes some_size =
    let d = div-add-mod' (n - 1) cs in
    let r = mod-lt (n - 1) some_size in
    let split : n ≡ (n - 1) / cs * cs + suc ((n - 1) % cs) = omega (arith, d, some_bytes) in
    (omega (arith, split), last_of n cs _ _ split r ∙ omega (arith, split))

pub calc_nchunk-suc : (n cs : ℕ) → 0 < n → calc_nchunk n cs ≡ suc ((n - 1) / cs)
unfolding calc_nchunk
calc_nchunk-suc n cs some_bytes = ground arith

take-all : (xs ys : List ℕ) → take (length xs) (xs ++ ys) ≡ xs
take-all xs ys = take-append (length xs) xs ys refl

-- What the copying loop writes is the data.
written :
    (bytes beyond : List ℕ) (cs : ℕ)
    → 0 < length bytes
    → 0 < cs
    → copy_loop
        (create_loop (bytes ++ beyond) (length bytes) cs 0 (calc_nchunk (length bytes) cs))
        (length bytes)
        cs
        0
      ≡ bytes
written bytes beyond cs some_bytes some_size =
    let n = length bytes in
    let memory = bytes ++ beyond in
    let q = (n - 1) / cs in
    let z : 0 * cs ≡ 0 = omega arith in
    let l = last_chunk n cs some_bytes some_size in
    ap (λ k. copy_loop (create_loop memory n cs 0 k) n cs 0) (calc_nchunk-suc n cs some_bytes)
    ∙ ap (copy_loop (create_loop memory n cs 0 (suc q)) n cs) (sym z)
    ∙ copy_loop-create_loop memory n cs 0 q (omega (arith, length-append bytes beyond))
        (omega (arith, l.0, z)) (l.1 ∙ omega (arith, z))
    ∙ ap (λ o. take (n - o) (drop o memory)) z
    ∙ ap (λ k. take k memory) (omega arith)
    ∙ take-all bytes beyond

pub or_default_pos : (chunk_size : ℕ) → 0 < or_default chunk_size
or_default_pos chunk_size = ground arith

no_pad : (xs : List ℕ) → xs ++ replicate (length xs - length xs) 0 ≡ xs
no_pad xs = let e : length xs - length xs ≡ 0 = omega arith in rw e (append-nil xs)

-- Whatever memory holds behind it, a buffer cut into chunks comes back from `identifier_to_buffer`
-- byte for byte, at any chunk size, 0 meaning the default.
pub to_buffer-create :
    (bytes beyond : List ℕ) (chunk_size : ℕ)
    → to_buffer (create (some bytes) beyond chunk_size) ≡ bytes
unfolding to_buffer create calc_nchunk create_loop copy_loop
to_buffer-create [] beyond chunk_size = refl
to_buffer-create (x ∷ bytes) beyond chunk_size =
    ap (λ w. w ++ replicate (length (x ∷ bytes) - length w) 0)
      (written (x ∷ bytes) beyond (or_default chunk_size) (omega arith) (or_default_pos chunk_size))
    ∙ no_pad (x ∷ bytes)
