-- ===== src/Mvcc/Safety.antt =====
-- Every call of the transaction manager keeps its invariant, and the cutoff that readers of
-- `tx_manager_get_min_active` get is at most every active transaction.
use wave_db.Base.{ℕ, ◌≡◌, inl, inr, false, some, All, zero, suc, ◌||◌, Bool-cases, refl, replicate}
use wave_db.TransactionId.{TransactionId, is_eq, is_gt, is_sentinel, compare}
use wave_db.TransactionId.Order.{AtMost, AtMost-refl, AtMost-trans}
use wave_db.Mvcc.{
  TxnRef, TxnDesc, TxnState, TxManager, create, begin, commit, commit_in, abort, abort_in, zero_id,
  empty_shard, active, committed, aborted, add_txn, leave_shard, update_global, update_shard, leave,
  raise_last_committed, get_min_active,
}
use wave_db.Mvcc.Vector.{IsAbove, All-push, All-remove_txn}
use wave_db.Mvcc.Invariant.{
  IsShardValid, IsShardValid-mono, add_txn-IsShardValid, leave_shard-IsShardValid,
}
use wave_db.Mvcc.Cutoff.{IsLower, IsValid}
use wave_db.Mvcc.Recompute.{
  All-update_shard, All-shards, recompute_global_min_sound, recompute_global_min-IsValid,
}

pub leave-IsValid :
    (top : TransactionId) (m : TxManager) (txn : TxnDesc)
    → IsValid top m
    → IsValid top (leave m txn)
unfolding leave update_global
leave-IsValid top m txn v =
    elim (Bool-cases
      (is_eq (compare txn.txn_id m.min_active_txn_id) || is_sentinel m.min_active_txn_id)) [
        | inl e ↦ rw e (recompute_global_min-IsValid top left left-IsValid)
        | inr e ↦ rw e left-IsValid
      ]
  where
    left : TxManager
    left = record m { shards = update_shard m.shards txn.shard_index (leave_shard txn) }

    left-IsValid : IsValid top left
    left-IsValid = record {
      shards =
          All-update_shard (IsShardValid top) m.shards txn.shard_index (leave_shard txn)
            (leave_shard-IsShardValid top txn) v.shards;
      last = v.last;
      cutoff = elim v.cutoff [
        | inl e ↦ inl e
        | inr (a, low) ↦ inr (
          a,
          All-update_shard (λ s. All (IsAbove m.min_active_txn_id) s.txns) m.shards txn.shard_index
              (leave_shard txn)
              (λ s h.
                unfold leave_shard in
                All-remove_txn (IsAbove m.min_active_txn_id) txn.address s.txns h)
              low,
        )
      ];
    }

raise_last_committed-IsValid :
    (top id : TransactionId) (m : TxManager)
    → AtMost id top
    → IsValid top m
    → IsValid top (raise_last_committed id m)
unfolding raise_last_committed
raise_last_committed-IsValid top id m h v =
    elim (Bool-cases (is_gt (compare id m.last_committed_txn_id))) [
      | inl e ↦ rw e (record { shards = v.shards; last = h; cutoff = v.cutoff })
      | inr e ↦ rw e v
    ]

-- `begin` with an identifier above all that were handed out before.
pub begin-IsValid :
    (top id : TransactionId) (m : TxManager) (address : ℕ)
    → AtMost top id
    → is_sentinel id ≡ false
    → IsValid top m
    → IsValid id (begin m (some address) id).0
unfolding begin
begin-IsValid top id m address fresh real v = record {
  shards =
      All-update_shard (IsShardValid id) m.shards _ (add_txn txn)
        (λ s h. add_txn-IsShardValid id txn s (AtMost-refl id) real h)
        (All-shards m.shards (λ s h. IsShardValid-mono s fresh h) v.shards);
  last = AtMost-trans m.last_committed_txn_id top id v.last fresh;
  cutoff = elim v.cutoff [
    | inl e ↦ inl e
    | inr (a, low) ↦
        let above = AtMost-trans m.min_active_txn_id top id a fresh in
        inr (
          above,
          All-update_shard (λ s. All (IsAbove m.min_active_txn_id) s.txns) m.shards _ (add_txn txn)
              (λ s h. unfold add_txn in All-push (IsAbove m.min_active_txn_id) s.txns txn h above)
              low,
        )
  ];
}
  where
    txn : TxnRef
    txn = record { address = address; txn_id = id }

pub commit-IsValid :
    (top : TransactionId) (m : TxManager) (txn : TxnDesc)
    → AtMost txn.txn_id top
    → IsValid top m
    → IsValid top (commit m txn).0
unfolding commit
commit-IsValid top m txn h v = by_state txn.state
  where
    by_state : (state : TxnState) → IsValid top (commit_in state m txn).0
    by_state active =
        leave-IsValid top (raise_last_committed txn.txn_id m) txn
          (raise_last_committed-IsValid top txn.txn_id m h v)
    by_state committed = v
    by_state aborted = v

pub abort-IsValid :
    (top : TransactionId) (m : TxManager) (txn : TxnDesc)
    → IsValid top m
    → IsValid top (abort m txn).0
unfolding abort
abort-IsValid top m txn v = by_state txn.state
  where
    by_state : (state : TxnState) → IsValid top (abort_in state m txn).0
    by_state active = leave-IsValid top m txn v
    by_state committed = v
    by_state aborted = v

pub get_min_active-IsValid :
    (top : TransactionId) (m : TxManager) → IsValid top m → IsValid top (get_min_active m).1
unfolding get_min_active
get_min_active-IsValid top m v = elim (Bool-cases (is_sentinel m.min_active_txn_id)) [
  | inl e ↦ rw e (recompute_global_min-IsValid top m v)
  | inr e ↦ rw e v
]

-- In a valid state no active transaction of any shard is below what `tx_manager_get_min_active`
-- returns.
pub get_min_active_sound :
    (top : TransactionId) (m : TxManager) → IsValid top m → IsLower (get_min_active m).0 m.shards
unfolding get_min_active
get_min_active_sound top m v = elim (Bool-cases (is_sentinel m.min_active_txn_id)) [
  | inl e ↦ rw e ((recompute_global_min_sound top m v).1)
  | inr e ↦ rw e (elim v.cutoff [ inl f ↦ cc | inr (a, low) ↦ low ])
]

replicate_valid : (top : TransactionId) (n : ℕ) → All (IsShardValid top) (replicate n empty_shard)
replicate_valid top zero = tt
replicate_valid top (suc n) = (
  record { lower = tt; issued = tt; min_issued = inl (unfold is_sentinel in refl, refl) },
  replicate_valid top n,
)

pub create-IsValid : IsValid zero_id create
unfolding create
create-IsValid = record {
  shards = replicate_valid zero_id 64;
  last = AtMost-refl zero_id;
  cutoff = inl (unfold is_sentinel in refl);
}
