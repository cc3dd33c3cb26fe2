-- ===== src/Base/LittleEndian.antt =====
-- Words as `memcpy` stores them on a little-endian machine.
use wave_db.Base.{
  ℕ, zero, suc, ◌+◌, ◌*◌, ◌/◌, ◌%◌, ◌^◌, ◌<◌, ◌≡◌, ◌∙◌, refl, ap, arith, List, [], ◌∷◌, ◌++◌,
  length, take, drop,
}

-- The `n` bytes of a word.
unfoldable pub to_le : ℕ → ℕ → List ℕ
to_le zero v = []
to_le (suc n) v = v % 256 ∷ to_le n (v / 256)

unfoldable pub from_le : List ℕ → ℕ
from_le [] = 0
from_le (x ∷ bytes) = x + 256 * from_le bytes

-- A word of `n` bytes, and what follows it.
unfoldable pub read_le : ℕ → List ℕ → ℕ × List ℕ
unfolding from_le
read_le n bytes = (from_le (take n bytes), drop n bytes)

pub length-to_le : (n v : ℕ) → length (to_le n v) ≡ n
unfolding to_le
length-to_le zero v = refl
length-to_le (suc n) v = ap suc (length-to_le n (v / 256))

take-to_le : (n v : ℕ) (rest : List ℕ) → take n (to_le n v ++ rest) ≡ to_le n v
unfolding to_le
take-to_le zero v [] = refl
take-to_le zero v (x ∷ rest) = refl
take-to_le (suc n) v rest = ap (λ l. v % 256 ∷ l) (take-to_le n (v / 256) rest)

drop-to_le : (n v : ℕ) (rest : List ℕ) → drop n (to_le n v ++ rest) ≡ rest
unfolding to_le
drop-to_le zero v [] = refl
drop-to_le zero v (x ∷ rest) = refl
drop-to_le (suc n) v rest = drop-to_le n (v / 256) rest

from_le-to_le : (n v : ℕ) → v < 256 ^ n → from_le (to_le n v) ≡ v
unfolding from_le to_le
from_le-to_le zero v h = omega (arith, h)
from_le-to_le (suc n) v h =
    let again = from_le-to_le n (v / 256) (omega (arith, h)) in
    ap (λ m. v % 256 + 256 * m) again ∙ omega arith

-- A word that fits its bytes is read back.
pub read_le-to_le :
    (n v : ℕ) (rest : List ℕ) → v < 256 ^ n → read_le n (to_le n v ++ rest) ≡ (v, rest)
unfolding read_le
read_le-to_le n v rest h =
    ap (λ l. (from_le l, drop n (to_le n v ++ rest))) (take-to_le n v rest)
    ∙ ap (λ m. (m, drop n (to_le n v ++ rest))) (from_le-to_le n v h)
    ∙ ap (λ l. (v, l)) (drop-to_le n v rest)
