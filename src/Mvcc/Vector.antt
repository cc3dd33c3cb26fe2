-- ===== src/Mvcc/Vector.antt =====
-- The vector of a shard: predicates that hold of all its elements, and the minimum loop.
use wave_db.Base.{
  ℕ, ◌≡◌, none, some, List, [], ◌∷◌, ◌++◌, arith, All, if◌then◌else◌, zero, suc, set,
}
use wave_db.TransactionId.{TransactionId, is_lt, compare}
use wave_db.TransactionId.Order.{AtMost, AtMost-refl, AtMost-trans}
use wave_db.Mvcc.{TxnRef, remove_txn, find_txn, last_txn, pop, swap_and_pop, min_loop, shard_min}

-- Refs as predicates over a shard's vector.
module _ {ℓ} (P : TxnRef → Type ℓ) where
  pub All-push : (txns : List TxnRef) (t : TxnRef) → All P txns → P t → All P (txns ++ (t ∷ []))
  All-push [] t h p = (p, tt)
  All-push (u ∷ txns) t h p = (h.0, All-push txns t h.1 p)

  All-pop : (txns : List TxnRef) → All P txns → All P (pop txns)
  unfolding pop
  All-pop [] h = h
  All-pop (t ∷ []) h = tt
  All-pop (t ∷ u ∷ txns) h = (h.0, All-pop (u ∷ txns) h.1)

  All-set : (txns : List TxnRef) (i : ℕ) (t : TxnRef) → All P txns → P t → All P (set txns i t)
  All-set [] i t h p = h
  All-set (u ∷ txns) zero t h p = (p, h.1)
  All-set (u ∷ txns) (suc i) t h p = (h.0, All-set txns i t h.1 p)

  All-last_txn : (t : TxnRef) (txns : List TxnRef) → P t → All P txns → P (last_txn t txns)
  unfolding last_txn
  All-last_txn t [] p h = p
  All-last_txn t (u ∷ txns) p h = All-last_txn u txns h.0 h.1

  All-swap_and_pop : (txns : List TxnRef) (i : ℕ) → All P txns → All P (swap_and_pop txns i)
  unfolding swap_and_pop
  All-swap_and_pop [] i h = h
  All-swap_and_pop (t ∷ txns) i h =
      All-pop _ (All-set (t ∷ txns) i (last_txn t txns) h (All-last_txn t txns h.0 h.1))

  pub All-remove_txn :
      (address : ℕ) (txns : List TxnRef) → All P txns → All P (remove_txn address txns)
  unfolding remove_txn
  All-remove_txn address txns h =
      elim (find_txn address txns)
        as (λ found. All P (elim found [ none ↦ txns | some found ↦ swap_and_pop txns found ])) [
          | none ↦ h
          | some found ↦ All-swap_and_pop txns found h
        ]

abbrev pub smaller : TransactionId → TransactionId → TransactionId
smaller t c = if is_lt (compare t c) then t else c

pub smaller-AtMost_right : (t c : TransactionId) → AtMost (smaller t c) c
unfolding compare
smaller-AtMost_right t c = ground arith

pub smaller-AtMost_left : (t c : TransactionId) → AtMost (smaller t c) t
unfolding compare
smaller-AtMost_left t c = ground arith

-- The loop's result is at most its start and every element.
min_loop-AtMost_start : (c : TransactionId) (txns : List TxnRef) → AtMost (min_loop c txns) c
unfolding min_loop
min_loop-AtMost_start c [] = AtMost-refl c
min_loop-AtMost_start c (t ∷ txns) =
    AtMost-trans _ _ c (min_loop-AtMost_start (smaller t.txn_id c) txns)
      (smaller-AtMost_right t.txn_id c)

abbrev pub IsAbove : TransactionId → TxnRef → Type 0
IsAbove bound t = AtMost bound t.txn_id

min_loop-IsAbove : (c : TransactionId) (txns : List TxnRef) → All (IsAbove (min_loop c txns)) txns
unfolding min_loop
min_loop-IsAbove c [] = tt
min_loop-IsAbove c (t ∷ txns) = (
  AtMost-trans _ _ t.txn_id (min_loop-AtMost_start (smaller t.txn_id c) txns)
      (smaller-AtMost_left t.txn_id c),
  min_loop-IsAbove (smaller t.txn_id c) txns,
)

pub shard_min-IsAbove : (txns : List TxnRef) → All (IsAbove (shard_min txns)) txns
unfolding shard_min
shard_min-IsAbove [] = tt
shard_min-IsAbove (t ∷ txns) = (min_loop-AtMost_start t.txn_id txns, min_loop-IsAbove t.txn_id txns)

pub remove_txn_nil : (address : ℕ) (txns : List TxnRef) → txns ≡ [] → remove_txn address txns ≡ []
unfolding remove_txn
remove_txn_nil address txns e = rw e
