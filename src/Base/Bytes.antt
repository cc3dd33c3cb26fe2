-- ===== src/Base/Bytes.antt =====
-- src/Util/endian.h: 32-bit and 64-bit words as bytes, most significant byte first. A read past
-- the end of the buffer is `none`.
use Prim.Native.Nat.{ℕ, ◌+◌, ◌*◌, ◌/◌, ◌%◌, ◌^◌, ◌<◌}
use mathlib.Core.Path.{◌≡◌, refl}
use mathlib.Core.Option.{Option, none, some}
use wave_db.Base.Lists.{length}
use mathlib.Core.List.{List, [], ◌∷◌, ◌++◌, append_assoc}
use native.Mathlib.Omega.{arith}

abbrev pub IsU8 : ℕ → Type 0
IsU8 v = v < 256

abbrev pub IsU32 : ℕ → Type 0
IsU32 v = v < 2 ^ 32

abbrev pub IsU64 : ℕ → Type 0
IsU64 v = v < 2 ^ 64

-- The two bytes of a uint16_t in network order.
unfoldable pub write_be16 : ℕ → List ℕ
write_be16 v = v / 2 ^ 8 % 256 ∷ v % 256 ∷ []

unfoldable pub read_be16 : List ℕ → Option (ℕ × List ℕ)
read_be16 (a ∷ b ∷ rest) = some (a * 2 ^ 8 + b, rest)
read_be16 _ = none

-- The four bytes of a uint32_t in network order, as `htonl` and `htobe32` lay them out.
unfoldable pub write_be32 : ℕ → List ℕ
write_be32 v = v / 2 ^ 24 % 256 ∷ v / 2 ^ 16 % 256 ∷ v / 2 ^ 8 % 256 ∷ v % 256 ∷ []

unfoldable pub read_be32 : List ℕ → Option (ℕ × List ℕ)
read_be32 (a ∷ b ∷ c ∷ d ∷ rest) = some (a * 2 ^ 24 + b * 2 ^ 16 + c * 2 ^ 8 + d, rest)
read_be32 _ = none

-- High word, then low word.
unfoldable pub write_be64 : ℕ → List ℕ
write_be64 v = write_be32 (v / 2 ^ 32) ++ write_be32 (v % 2 ^ 32)

infixl 5 ◌>>=◌
abbrev pub ◌>>=◌ {ℓ κ} : {A : Type ℓ} {B : Type κ} → Option A → (A → Option B) → Option B
none >>= f = none
some a >>= f = f a

unfoldable pub read_be64 : List ℕ → Option (ℕ × List ℕ)
read_be64 buf = do
  (high, buf') ← read_be32 buf
  (low, rest) ← read_be32 buf'
  some (high * 2 ^ 32 + low, rest)

be32_digits :
    (v : ℕ)
    → IsU32 v
    → v / 2 ^ 24 % 256 * 2 ^ 24 + v / 2 ^ 16 % 256 * 2 ^ 16 + v / 2 ^ 8 % 256 * 2 ^ 8 + v % 256 ≡ v
be32_digits v h = omega arith

pub read_be32-write_be32 :
    (v : ℕ) (rest : List ℕ) → IsU32 v → read_be32 (write_be32 v ++ rest) ≡ some (v, rest)
unfolding read_be32 write_be32
read_be32-write_be32 v rest h = rw (be32_digits v h)

join_halves : (v : ℕ) → v / 2 ^ 32 * 2 ^ 32 + v % 2 ^ 32 ≡ v
join_halves v = omega arith

pub read_be64-write_be64 :
    (v : ℕ) (rest : List ℕ) → IsU64 v → read_be64 (write_be64 v ++ rest) ≡ some (v, rest)
unfolding read_be64 write_be64
read_be64-write_be64 v rest h = simp (
  append_assoc,
  read_be32-write_be32 (v / 2 ^ 32) (write_be32 (v % 2 ^ 32) ++ rest) (omega arith),
  read_be32-write_be32 (v % 2 ^ 32) rest (omega arith),
  join_halves v,
)

pub length-write_be64 : (v : ℕ) → length (write_be64 v) ≡ 8
unfolding write_be64 write_be32
length-write_be64 v = refl

-- A word that does not fit is cut to its low 16 bits.
pub read_be16-write_be16 :
    (v : ℕ) (rest : List ℕ) → read_be16 (write_be16 v ++ rest) ≡ some (v % 2 ^ 16, rest)
unfolding read_be16 write_be16
read_be16-write_be16 v rest =
    let e : v / 2 ^ 8 % 256 * 2 ^ 8 + v % 256 ≡ v % 2 ^ 16 = omega arith in rw e
