-- ===== src/Mvcc/Invariant.antt =====
-- The invariant of the transaction manager, and what each part of a call does to it.
use wave_db.Base.{◌≡◌, ◌⊎◌, inl, inr, refl, true, false, List, [], ◌∷◌, All, ◌||◌, Bool-cases}
use wave_db.TransactionId.{TransactionId, is_lt, is_eq, is_sentinel, compare}
use wave_db.TransactionId.Order.{AtMost, AtMost-refl, AtMost-trans}
use wave_db.Mvcc.{
  TxnRef, TxnDesc, Shard, add_txn, remove_txn, min_loop, shard_min, leave_shard, is_empty,
}
use wave_db.Mvcc.Vector.{
  All-push, All-remove_txn, smaller, IsAbove, shard_min-IsAbove, remove_txn_nil,
}

-- `id` was handed out at or before `top`, and is no sentinel.
pub record IsIssued (top id : TransactionId) : Type 0 where
  pub at_most : AtMost id top
  pub real : is_sentinel id ≡ false

pub IsIssued-mono :
    {top top' id : TransactionId} → AtMost top top' → IsIssued top id → IsIssued top' id
IsIssued-mono {top} {top'} {id} h issued = record {
  at_most = AtMost-trans id top top' issued.at_most h;
  real = issued.real;
}

IsIssued-smaller :
    (top t c : TransactionId) → IsIssued top t → IsIssued top c → IsIssued top (smaller t c)
IsIssued-smaller top t c ht hc = elim (Bool-cases (is_lt (compare t c))) [
  | inl e ↦ rw e ht
  | inr e ↦ rw e hc
]

abbrev RefIssued : TransactionId → TxnRef → Type 0
RefIssued top t = IsIssued top t.txn_id

min_loop-IsIssued :
    (top c : TransactionId) (txns : List TxnRef)
    → IsIssued top c
    → All (RefIssued top) txns
    → IsIssued top (min_loop c txns)
unfolding min_loop
min_loop-IsIssued top c [] hc h = hc
min_loop-IsIssued top c (t ∷ txns) hc h =
    min_loop-IsIssued top (smaller t.txn_id c) txns (IsIssued-smaller top t.txn_id c h.0 hc) h.1

-- One shard: its minimum is at most every active identifier, and it is the sentinel only if there
-- is none; nothing is above `top`.
pub record IsShardValid (top : TransactionId) (s : Shard) : Type 0 where
  pub lower : All (IsAbove s.min_txn_id) s.txns
  pub issued : All (RefIssued top) s.txns
  pub min_issued : ((is_sentinel s.min_txn_id ≡ true) × (s.txns ≡ [])) ⊎ IsIssued top s.min_txn_id

All-RefIssued_mono :
    (top top' : TransactionId) (txns : List TxnRef)
    → AtMost top top'
    → All (RefIssued top) txns
    → All (RefIssued top') txns
All-RefIssued_mono top top' [] h k = tt
All-RefIssued_mono top top' (t ∷ txns) h k =
    (IsIssued-mono h k.0, All-RefIssued_mono top top' txns h k.1)

pub IsShardValid-mono :
    {top top' : TransactionId} (s : Shard)
    → AtMost top top'
    → IsShardValid top s
    → IsShardValid top' s
IsShardValid-mono {top} {top'} s h v = record {
  lower = v.lower;
  issued = All-RefIssued_mono top top' s.txns h v.issued;
  min_issued = elim v.min_issued [ inl e ↦ inl e | inr i ↦ inr (IsIssued-mono h i) ];
}

pub IsIssued-self : (id : TransactionId) → is_sentinel id ≡ false → IsIssued id id
IsIssued-self id real = record { at_most = AtMost-refl id; real = real }

-- `begin` in the shard of a fresh identifier.
pub add_txn-IsShardValid :
    (top : TransactionId) (t : TxnRef) (s : Shard)
    → AtMost top t.txn_id
    → is_sentinel t.txn_id ≡ false
    → IsShardValid top s
    → IsShardValid t.txn_id (add_txn t s)
unfolding add_txn
add_txn-IsShardValid top t s fresh real v = elim v.min_issued [
  | inl (e, none_active) ↦ record {
    lower = rw (e, none_active) (AtMost-refl t.txn_id, tt);
    issued = rw none_active (IsIssued-self t.txn_id real, tt);
    min_issued = rw e (inr (IsIssued-self t.txn_id real));
  }
  | inr i ↦ record {
    lower = rw (i.real) (
        All-push (IsAbove s.min_txn_id) s.txns t v.lower
          (AtMost-trans s.min_txn_id top t.txn_id i.at_most fresh));
    issued =
        All-push (RefIssued t.txn_id) s.txns t
          (All-RefIssued_mono top t.txn_id s.txns fresh v.issued) (IsIssued-self t.txn_id real);
    min_issued = rw (i.real) (inr (IsIssued-mono fresh i));
  }
]

shard_min-IsIssued :
    (top : TransactionId) (txns : List TxnRef)
    → All (RefIssued top) txns
    → ((is_sentinel (shard_min txns) ≡ true) × (txns ≡ [])) ⊎ IsIssued top (shard_min txns)
unfolding shard_min is_sentinel
shard_min-IsIssued top [] h = inl (refl, refl)
shard_min-IsIssued top (t ∷ txns) h = inr (min_loop-IsIssued top t.txn_id txns h.0 h.1)

-- `commit` or `abort` in a shard.
pub leave_shard-IsShardValid :
    (top : TransactionId) (txn : TxnDesc) (s : Shard)
    → IsShardValid top s
    → IsShardValid top (leave_shard txn s)
unfolding leave_shard
leave_shard-IsShardValid top txn s v =
    elim (Bool-cases (is_eq (compare txn.txn_id s.min_txn_id) || is_empty left)) [
      | inl e ↦ record {
        lower = rw e (shard_min-IsAbove left);
        issued = left_issued;
        min_issued = rw e (shard_min-IsIssued top left left_issued);
      }
      | inr e ↦ record {
        lower = rw e (All-remove_txn (IsAbove s.min_txn_id) txn.address s.txns v.lower);
        issued = left_issued;
        min_issued = rw e (elim v.min_issued [
          | inl (e, none_active) ↦ inl (e, remove_txn_nil txn.address s.txns none_active)
          | inr i ↦ inr i
        ]);
      }
    ]
  where
    left : List TxnRef
    left = remove_txn txn.address s.txns

    left_issued : All (RefIssued top) left
    left_issued = All-remove_txn (RefIssued top) txn.address s.txns v.issued
