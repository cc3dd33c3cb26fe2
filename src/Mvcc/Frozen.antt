-- ===== src/Mvcc/Frozen.antt =====
-- Once the cutoff lies below every transaction that is active or to come, no call moves it.
use wave_db.Base.{
  ℕ, ◌≡◌, ◌∙◌, refl, Ordering, true, false, none, some, List, [], ◌∷◌, arith, All, replicate, zero,
  suc, ap,
}
use wave_db.TransactionId.Order.{compare_refl}
use wave_db.Mvcc.Cutoff.{HasSentinel}
use wave_db.TransactionId.{TransactionId, is_sentinel, compare, sentinel, shard_index}
use wave_db.Mvcc.{
  TxnDesc, TxManager, TxnState, active, committed, aborted, create, zero_id, begin, commit,
  commit_in, abort, abort_in, leave, update_global, raise_last_committed, get_min_active, TxnRef,
  Shard, update_shard, add_txn, leave_shard, remove_txn, shard_min, empty_shard, global_loop,
  recompute_global_min,
}
use wave_db.Mvcc.Calls.{Call, begins, commits, aborts, asks_min, step, run}

-- The reference that `begin` leaves in the shard.
abbrev ref_of : TxnDesc → TxnRef
ref_of txn = record { address = txn.address; txn_id = txn.txn_id }

-- A descriptor that a call finishes is above the cutoff.
abbrev pub IsLater : TransactionId → Call → Type 0
IsLater cutoff (begins pool txn_id) = Unit {0}
IsLater cutoff (commits txn) = compare txn.txn_id cutoff ≡ Ordering.gt
IsLater cutoff (aborts txn) = compare txn.txn_id cutoff ≡ Ordering.gt
IsLater cutoff asks_min = Unit {0}

leave_frozen :
    (m : TxManager) (txn : TxnDesc)
    → is_sentinel m.min_active_txn_id ≡ false
    → compare txn.txn_id m.min_active_txn_id ≡ Ordering.gt
    → (leave m txn).min_active_txn_id ≡ m.min_active_txn_id
unfolding leave update_global
leave_frozen m txn real later = rw (later, real)

raise_frozen :
    (id : TransactionId) (m : TxManager)
    → (raise_last_committed id m).min_active_txn_id ≡ m.min_active_txn_id
unfolding raise_last_committed
raise_frozen id m = ground arith

get_min_frozen :
    (m : TxManager)
    → is_sentinel m.min_active_txn_id ≡ false
    → (get_min_active m).1.min_active_txn_id ≡ m.min_active_txn_id
unfolding get_min_active
get_min_frozen m real = rw real

step_frozen :
    (m : TxManager) (c : Call)
    → is_sentinel m.min_active_txn_id ≡ false
    → IsLater m.min_active_txn_id c
    → (step m c).min_active_txn_id ≡ m.min_active_txn_id
unfolding step begin commit abort get_min_active
step_frozen m (begins none txn_id) real later = refl
step_frozen m (begins (some address) txn_id) real later = refl
step_frozen m (commits txn) real later = by_state txn.state
  where
    raised : TxManager
    raised = raise_last_committed txn.txn_id m

    by_state :
        (state : TxnState) → (commit_in state m txn).0.min_active_txn_id ≡ m.min_active_txn_id
    by_state active =
        leave_frozen raised txn (rw (raise_frozen txn.txn_id m) real)
          (rw (raise_frozen txn.txn_id m) later)
        ∙ raise_frozen txn.txn_id m
    by_state committed = refl
    by_state aborted = refl
step_frozen m (aborts txn) real later = by_state txn.state
  where
    by_state : (state : TxnState) → (abort_in state m txn).0.min_active_txn_id ≡ m.min_active_txn_id
    by_state active = leave_frozen m txn real later
    by_state committed = refl
    by_state aborted = refl
step_frozen m asks_min real later = get_min_frozen m real

-- A cutoff that is not the sentinel stays as it is through any calls that finish only transactions
-- above it, however many they are.
pub run_frozen :
    (cutoff : TransactionId) (m : TxManager) (calls : List Call)
    → is_sentinel cutoff ≡ false
    → m.min_active_txn_id ≡ cutoff
    → All (IsLater cutoff) calls
    → (run m calls).min_active_txn_id ≡ cutoff
unfolding run
run_frozen cutoff m [] real at h = at
run_frozen cutoff m (c ∷ calls) real at h =
    run_frozen cutoff (step m c) calls real (step_frozen m c (rw at real) (rw at (h.0)) ∙ at) h.1

-- A shard that takes one transaction and loses it has the sentinel again.
update_shard_twice :
    (shards : List Shard) (i : ℕ) (f g : Shard → Shard)
    → update_shard (update_shard shards i f) i g ≡ update_shard shards i (λ s. g (f s))
unfolding update_shard
update_shard_twice [] i f g = refl
update_shard_twice (s ∷ shards) zero f g = refl
update_shard_twice (s ∷ shards) (suc i) f g = ap (λ l. s ∷ l) (update_shard_twice shards i f g)

one_txn_gone : (txn : TxnDesc) → HasSentinel (leave_shard txn (add_txn (ref_of txn) empty_shard))
unfolding leave_shard add_txn remove_txn shard_min is_sentinel
one_txn_gone txn = ground (arith, compare_refl txn.txn_id)

All-sentinels :
    (txn : TxnDesc) (n i : ℕ)
    → All HasSentinel
        (update_shard (replicate n empty_shard) i (λ s. leave_shard txn (add_txn (ref_of txn) s)))
unfolding update_shard
All-sentinels txn zero i = tt
All-sentinels txn (suc n) zero = (one_txn_gone txn, still n)
  where
    still : (k : ℕ) → All HasSentinel (replicate k empty_shard)
    still zero = tt
    still (suc k) = (unfold is_sentinel in refl, still k)
All-sentinels txn (suc n) (suc i) = (unfold is_sentinel in refl, All-sentinels txn n i)

global_loop_none :
    (shards : List Shard) → All HasSentinel shards → global_loop sentinel shards ≡ sentinel
unfolding global_loop
global_loop_none [] h = refl
global_loop_none (s ∷ shards) h = rw (h.0) (global_loop_none shards h.1)

abbrev desc : ℕ → TransactionId → TxnDesc
desc address id = record {
  address = address;
  txn_id = id;
  state = active;
  shard_index = shard_index id;
}

update_global_sentinel :
    (id : TransactionId) (m : TxManager)
    → is_sentinel m.min_active_txn_id ≡ true
    → update_global id m ≡ recompute_global_min m
unfolding update_global
update_global_sentinel id m e = ground arith

recompute_none :
    (m : TxManager)
    → All HasSentinel m.shards
    → (recompute_global_min m).min_active_txn_id ≡ m.last_committed_txn_id
unfolding recompute_global_min
recompute_none m h = rw (global_loop_none m.shards h) (unfold is_sentinel in refl)

-- The first transaction of a new manager, begun and committed alone, leaves its own identifier as
-- the cutoff.
first_commit :
    (address : ℕ) (id : TransactionId)
    → compare id zero_id ≡ Ordering.gt
    → (run create (begins (some address) id ∷ commits (desc address id) ∷ [])).min_active_txn_id
      ≡ id
unfolding run step begin commit leave raise_last_committed create
first_commit address id later = rw later (
    ap (λ m. m.min_active_txn_id) (update_global_sentinel id left (unfold is_sentinel in refl))
    ∙ recompute_none left
        (rw update_shard_twice (All-sentinels (desc address id) 64 (shard_index id))))
  where
    begun : List Shard
    begun = update_shard create.shards (shard_index id) (add_txn (ref_of (desc address id)))

    left : TxManager
    left = record {
      shards = update_shard begun (shard_index id) (leave_shard (desc address id));
      min_active_txn_id = sentinel;
      last_committed_txn_id = id;
    }

-- If the first transaction of a new manager is begun and committed alone, the cutoff is that
-- transaction's identifier from then on, whatever later transactions begin, commit or abort.
pub cutoff_stuck :
    (address : ℕ) (id : TransactionId) (calls : List Call)
    → compare id zero_id ≡ Ordering.gt
    → is_sentinel id ≡ false
    → All (IsLater id) calls
    → (run create (begins (some address) id ∷ commits (desc address id) ∷ calls)).min_active_txn_id
      ≡ id
unfolding run
cutoff_stuck address id calls later real h =
    run_frozen id (run create (begins (some address) id ∷ commits (desc address id) ∷ [])) calls
      real (first_commit address id later) h
