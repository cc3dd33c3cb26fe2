-- ===== src/TransactionId/Order.antt =====
-- `compare` decides a total order, by time, then nanoseconds, then count.
use wave_db.Base.{◌<◌, ◌≡◌, Ordering, true, arith, ◌⊎◌, ◌↔◌}
use wave_db.TransactionId.{TransactionId, compare, is_le}

-- The order as a relation.
abbrev pub Before : TransactionId → TransactionId → Type 0
Before a b =
    (a.time < b.time)
    ⊎ ((a.time ≡ b.time) × (a.nanos < b.nanos))
    ⊎ ((a.time ≡ b.time) × (a.nanos ≡ b.nanos) × (a.count < b.count))

-- Each outcome of `compare` says how the two identifiers stand.
abbrev pub Stands : TransactionId → TransactionId → Ordering → Type 0
Stands a b Ordering.lt = Before a b
Stands a b Ordering.eq = a ≡ b
Stands a b Ordering.gt = Before b a

-- `compare` decides the lexicographic order of time, nanoseconds and count: it is `lt` only where
-- the first stands before the second, `gt` only where it stands after it, and `eq` only where the
-- two are the same identifier.
pub compare-Stands : (a b : TransactionId) → Stands a b (compare a b)
unfolding compare
compare-Stands a b = ground arith

pub compare-lt_iff : (a b : TransactionId) → (compare a b ≡ Ordering.lt) ↔ Before a b
unfolding compare
compare-lt_iff a b = ground arith

pub compare-eq_iff : (a b : TransactionId) → (compare a b ≡ Ordering.eq) ↔ (a ≡ b)
unfolding compare
compare-eq_iff a b = ground arith

pub compare-gt_iff : (a b : TransactionId) → (compare a b ≡ Ordering.gt) ↔ Before b a
unfolding compare
compare-gt_iff a b = ground arith

abbrev flip : Ordering → Ordering
flip Ordering.lt = Ordering.gt
flip Ordering.eq = Ordering.eq
flip Ordering.gt = Ordering.lt

pub compare-flip : (a b : TransactionId) → compare b a ≡ flip (compare a b)
unfolding compare
compare-flip a b = ground arith

pub compare_refl : (a : TransactionId) → compare a a ≡ Ordering.eq
unfolding compare
compare_refl a = ground arith

-- The order in the form that the callers test it: `compare(a, b) <= 0`.
abbrev pub AtMost : TransactionId → TransactionId → Type 0
AtMost a b = is_le (compare a b) ≡ true

pub AtMost-refl : (a : TransactionId) → AtMost a a
unfolding compare
AtMost-refl a = ground arith

pub AtMost-trans : (a b c : TransactionId) → AtMost a b → AtMost b c → AtMost a c
unfolding compare
AtMost-trans a b c h k = ground arith

pub AtMost-total : (a b : TransactionId) → AtMost a b ⊎ AtMost b a
unfolding compare
AtMost-total a b = ground arith

pub AtMost-antisym : (a b : TransactionId) → AtMost a b → AtMost b a → a ≡ b
unfolding compare
AtMost-antisym a b h k = ground arith
