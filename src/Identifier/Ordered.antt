-- ===== src/Identifier/Ordered.antt =====
-- How `identifier_compare` orders identifiers.
use wave_db.Base.{
  ℕ, ◌<◌, ◌≡◌, ◌∙◌, refl, sym, ap, arith, Ordering, List, [], ◌∷◌, ◌++◌, length, All,
}
use wave_db.Chunk.{Chunk, or_else}
use wave_db.Chunk.Order.{lexicographic, compare-lexicographic}
use wave_db.Identifier.{compare_chunks}

-- The bytes of the chunks, one behind the other: the data and its padding.
abbrev pub padded : List Chunk → List ℕ
padded [] = []
padded (chunk ∷ chunks) = chunk ++ padded chunks

abbrev pub IsChunked : ℕ → List Chunk → Type 0
IsChunked size chunks = All (λ chunk. length chunk ≡ size) chunks

-- Equal lengths in front decide first.
lexicographic-append :
    (a b as_ bs : List ℕ)
    → length a ≡ length b
    → lexicographic (a ++ as_) (b ++ bs) ≡ or_else (lexicographic a b) (lexicographic as_ bs)
unfolding lexicographic
lexicographic-append [] [] as_ bs h = refl
lexicographic-append [] (y ∷ b) as_ bs h = absurd (omega (arith, h))
lexicographic-append (x ∷ a) [] as_ bs h = absurd (omega (arith, h))
lexicographic-append (x ∷ a) (y ∷ b) as_ bs h =
    let e : length a ≡ length b = omega (arith, h) in
    ground (arith, lexicographic-append a b as_ bs e)

some_bytes :
    (size : ℕ) (chunk : Chunk) (rest : List ℕ)
    → 0 < size
    → length chunk ≡ size
    → lexicographic [] (chunk ++ rest) ≡ Ordering.lt
unfolding lexicographic
some_bytes size [] rest h e = absurd (omega (arith, e, h))
some_bytes size (x ∷ chunk) rest h e = refl

no_bytes :
    (size : ℕ) (chunk : Chunk) (rest : List ℕ)
    → 0 < size
    → length chunk ≡ size
    → lexicographic (chunk ++ rest) [] ≡ Ordering.gt
unfolding lexicographic
no_bytes size [] rest h e = absurd (omega (arith, e, h))
no_bytes size (x ∷ chunk) rest h e = refl

-- Identifiers whose chunks all have one non-zero size compare as their padded bytes do,
-- lexicographically.
pub compare_chunks-lexicographic :
    (a b : List Chunk) (size : ℕ)
    → 0 < size
    → IsChunked size a
    → IsChunked size b
    → compare_chunks a b ≡ lexicographic (padded a) (padded b)
unfolding compare_chunks
compare_chunks-lexicographic [] [] size h p q = unfold lexicographic in refl
compare_chunks-lexicographic [] (y ∷ b) size h p q = sym (some_bytes size y (padded b) h q.0)
compare_chunks-lexicographic (x ∷ a) [] size h p q = sym (no_bytes size x (padded a) h p.0)
compare_chunks-lexicographic (x ∷ a) (y ∷ b) size h p q =
    ap (λ o. or_else o (compare_chunks a b)) (compare-lexicographic x y)
    ∙ ap (or_else (lexicographic x y)) (compare_chunks-lexicographic a b size h p.1 q.1)
    ∙ sym (lexicographic-append x y (padded a) (padded b) (p.0 ∙ sym q.0))
