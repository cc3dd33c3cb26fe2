-- ===== src/Mvcc/Recompute.antt =====
-- `recompute_global_min` and the minima of the shards.
use wave_db.Base.{ℕ, ◌≡◌, inl, inr, false, List, [], ◌∷◌, All, zero, suc, Bool-cases, refl}
use wave_db.TransactionId.{TransactionId, is_sentinel, sentinel}
use wave_db.TransactionId.Order.{AtMost, AtMost-trans}
use wave_db.Mvcc.{TxnRef, Shard, TxManager, global_loop, recompute_global_min, update_shard}
use wave_db.Mvcc.Vector.{IsAbove}
use wave_db.Mvcc.Invariant.{IsShardValid}
use wave_db.Mvcc.Cutoff.{
  IsLower, IsValid, Covers, CoversShard, global_loop-Covers, global_loop_sentinel,
  global_loop-IsSettled,
}

module _ {ℓ} (P : Shard → Type ℓ) where
  pub All-update_shard :
      (shards : List Shard) (i : ℕ) (f : Shard → Shard)
      → ((s : Shard) → P s → P (f s))
      → All P shards
      → All P (update_shard shards i f)
  unfolding update_shard
  All-update_shard [] i f keep h = h
  All-update_shard (s ∷ shards) zero f keep h = (keep s h.0, h.1)
  All-update_shard (s ∷ shards) (suc i) f keep h = (h.0, All-update_shard shards i f keep h.1)

pub All-shards {ℓ κ} :
    {P : Shard → Type ℓ} {Q : Shard → Type κ} (shards : List Shard)
    → ((s : Shard) → P s → Q s)
    → All P shards
    → All Q shards
All-shards [] f h = tt
All-shards (s ∷ shards) f h = (f s h.0, All-shards shards f h.1)

All-IsAbove_trans :
    (a b : TransactionId) (txns : List TxnRef)
    → AtMost a b
    → All (IsAbove b) txns
    → All (IsAbove a) txns
All-IsAbove_trans a b [] h k = tt
All-IsAbove_trans a b (t ∷ txns) h k =
    (AtMost-trans a b t.txn_id h k.0, All-IsAbove_trans a b txns h k.1)

-- What a shard's minimum covers, its active transactions do.
IsAbove-covered :
    (top r : TransactionId) (s : Shard)
    → IsShardValid top s
    → Covers r s.min_txn_id
    → All (IsAbove r) s.txns
IsAbove-covered top r s v (inr h) = All-IsAbove_trans r s.min_txn_id s.txns h v.lower
IsAbove-covered top r s v (inl h) = elim v.min_issued [
  | inl (e, none_active) ↦ rw none_active tt
  | inr i ↦ cc (i.real)
]

IsLower-covered :
    (top r : TransactionId) (shards : List Shard)
    → All (IsShardValid top) shards
    → All (CoversShard r) shards
    → IsLower r shards
IsLower-covered top r [] h k = tt
IsLower-covered top r (s ∷ shards) h k =
    (IsAbove-covered top r s h.0 k.0, IsLower-covered top r shards h.1 k.1)

-- The recomputed minimum is at most every active transaction and at most `top`.
pub recompute_global_min_sound :
    (top : TransactionId) (m : TxManager)
    → IsValid top m
    → AtMost (recompute_global_min m).min_active_txn_id top
      × IsLower (recompute_global_min m).min_active_txn_id m.shards
unfolding recompute_global_min
recompute_global_min_sound top m v = elim (Bool-cases (is_sentinel found)) [
  | inl e ↦ rw e (
    v.last,
    IsLower-covered top _ m.shards v.shards
        (All-shards m.shards (λ s h. inl h) (global_loop_sentinel sentinel m.shards e).1),
  )
  | inr e ↦ rw e (
    below_top e,
    IsLower-covered top found m.shards v.shards (global_loop-Covers sentinel m.shards).1,
  )
]
  where
    found : TransactionId
    found = global_loop sentinel m.shards

    below_top : is_sentinel found ≡ false → AtMost found top
    below_top e =
        elim (global_loop-IsSettled top sentinel m.shards (inl (unfold is_sentinel in refl))
          v.shards) [ inl f ↦ cc | inr i ↦ i.at_most ]

pub recompute_global_min-IsValid :
    (top : TransactionId) (m : TxManager) → IsValid top m → IsValid top (recompute_global_min m)
recompute_global_min-IsValid top m v = record {
  shards = unfold recompute_global_min in v.shards;
  last = unfold recompute_global_min in v.last;
  cutoff =
      inr
        (let (a, b) = recompute_global_min_sound top m v in (a, unfold recompute_global_min in b));
}
