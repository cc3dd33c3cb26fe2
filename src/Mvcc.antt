-- ===== src/Mvcc.antt =====
-- src/HBTrie/mvcc.c and mvcc.h: the transaction manager. A call that holds a shard's lock is one
-- step; a seqlock that meets no other thread is a variable.
pub mod Vector
pub mod Invariant
pub mod Cutoff
pub mod Recompute
pub mod Safety
pub mod Calls
pub mod Frozen
use wave_db.Base.{
  ℕ, suc, ◌+◌, ◌-◌, ◌%◌, ◌^◌, Bool, true, false, Option, none, some, List, [], ◌∷◌, ◌||◌,
  if◌then◌else◌, ◌==◌, replicate, set, ◌++◌, zero,
}
use mathlib.Core.Option
use wave_db.TransactionId
use wave_db.TransactionId.{
  TransactionId, is_lt, is_eq, is_gt, is_sentinel, sentinel, shard_index, tx_manager_shards,
}

pub data TxnState : Type 0 where
  active committed aborted : TxnState

-- `txn_desc_t`, held by the client; `address` is the pointer, by which the code finds it again.
pub record TxnDesc : Type 0 where
  pub address : ℕ
  pub txn_id : TransactionId
  pub state : TxnState
  pub shard_index : ℕ

-- An element of a shard's vector: a pointer to a descriptor, with the identifier that is read
-- through it (no call changes it after `begin`).
pub record TxnRef : Type 0 where
  pub address : ℕ
  pub txn_id : TransactionId

-- `tx_shard_t`
pub record Shard : Type 0 where
  pub txns : List TxnRef
  pub min_txn_id : TransactionId
  pub count : ℕ

-- `tx_manager_t`, without the trie and the timers, which the calls below do not use.
pub record TxManager : Type 0 where
  pub shards : List Shard
  pub min_active_txn_id : TransactionId
  pub last_committed_txn_id : TransactionId

abbrev pub empty_shard : Shard
empty_shard = record { txns = []; min_txn_id = sentinel; count = 0 }

abbrev pub zero_id : TransactionId
zero_id = record { time = 0; nanos = 0; count = 0 }

-- `tx_manager_create`
unfoldable pub create : TxManager
create = record {
  shards = replicate tx_manager_shards empty_shard;
  min_active_txn_id = sentinel;
  last_committed_txn_id = zero_id;
}

-- `shards[i]` is read, changed and written back.
unfoldable pub update_shard : List Shard → ℕ → (Shard → Shard) → List Shard
update_shard [] i f = []
update_shard (s ∷ shards) zero f = f s ∷ shards
update_shard (s ∷ shards) (suc i) f = s ∷ update_shard shards i f

-- What `tx_manager_begin` does to its shard: `vec_push`, the count, and the minimum if the shard
-- was empty.
unfoldable pub add_txn : TxnRef → Shard → Shard
add_txn txn s = record {
  txns = s.txns ++ (txn ∷ []);
  min_txn_id = if is_sentinel s.min_txn_id then txn.txn_id else s.min_txn_id;
  count = (s.count + 1) % 2 ^ 32;
}

-- `tx_manager_begin`, with the pool's answer (an address, or NULL) and the identifier that
-- `transaction_id_get_next` returns.
unfoldable pub begin : TxManager → Option ℕ → TransactionId → TxManager × Option TxnDesc
begin m none txn_id = (m, none)
begin m (some address) txn_id =
    let txn : TxnDesc = record {
      address = address;
      txn_id = txn_id;
      state = active;
      shard_index = shard_index txn_id;
    } in
    (
      record m {
        shards =
            update_shard m.shards txn.shard_index
              (add_txn (record { address = address; txn_id = txn_id }));
      },
      some txn,
    )

-- The loop that looks for the descriptor's pointer.
find_txn : ℕ → List TxnRef → Option ℕ
find_txn address [] = none
find_txn address (t ∷ txns) =
    let rest = find_txn address txns in if t.address == address then some 0 else Option.map suc rest

last_txn : TxnRef → List TxnRef → TxnRef
last_txn t [] = t
last_txn t (u ∷ txns) = last_txn u txns

-- `length--`
pop : List TxnRef → List TxnRef
pop [] = []
pop (t ∷ []) = []
pop (t ∷ u ∷ txns) = t ∷ pop (u ∷ txns)

-- `data[found] = data[length - 1]; length--`
swap_and_pop : List TxnRef → ℕ → List TxnRef
swap_and_pop [] found = []
swap_and_pop (t ∷ txns) found = pop (set (t ∷ txns) found (last_txn t txns))

unfoldable pub remove_txn : ℕ → List TxnRef → List TxnRef
unfolding find_txn last_txn pop swap_and_pop
remove_txn address txns = elim (find_txn address txns) [
  | none ↦ txns
  | some found ↦ swap_and_pop txns found
]

-- The loop over `shard->txns` from its second element on.
min_loop : TransactionId → List TxnRef → TransactionId
min_loop new_shard_min [] = new_shard_min
min_loop new_shard_min (t ∷ txns) =
    min_loop
      (if is_lt (TransactionId.compare t.txn_id new_shard_min) then t.txn_id else new_shard_min)
      txns

unfoldable pub shard_min : List TxnRef → TransactionId
unfolding min_loop
shard_min [] = sentinel
shard_min (t ∷ txns) = min_loop t.txn_id txns

abbrev is_empty : List TxnRef → Bool
is_empty [] = true
is_empty (t ∷ txns) = false

-- What `tx_manager_commit` and `tx_manager_abort` both do under the shard's lock.
unfoldable pub leave_shard : TxnDesc → Shard → Shard
leave_shard txn s =
    let txns = remove_txn txn.address s.txns in
    let was_shard_min = is_eq (TransactionId.compare txn.txn_id s.min_txn_id) in
    record {
      txns = txns;
      min_txn_id = if was_shard_min || is_empty txns then shard_min txns else s.min_txn_id;
      count = (s.count + 2 ^ 32 - 1) % 2 ^ 32;
    }

-- The loop of `recompute_global_min`.
pub global_loop : TransactionId → List Shard → TransactionId
global_loop new_global_min [] = new_global_min
global_loop new_global_min (s ∷ shards) =
    global_loop
      (if is_sentinel s.min_txn_id
        then new_global_min
        else if is_sentinel new_global_min
            || is_lt (TransactionId.compare s.min_txn_id new_global_min)
        then s.min_txn_id
        else new_global_min)
      shards

unfoldable pub recompute_global_min : TxManager → TxManager
unfolding global_loop
recompute_global_min m =
    let new_global_min = global_loop sentinel m.shards in
    record m {
      min_active_txn_id =
          if is_sentinel new_global_min then m.last_committed_txn_id else new_global_min;
    }

-- The end of `tx_manager_commit` and `tx_manager_abort`, behind the locks.
unfoldable pub update_global : TransactionId → TxManager → TxManager
update_global txn_id m =
    if is_eq (TransactionId.compare txn_id m.min_active_txn_id) || is_sentinel m.min_active_txn_id
    then recompute_global_min m
    else m

unfoldable pub leave : TxManager → TxnDesc → TxManager
leave m txn =
    update_global txn.txn_id
      (record m { shards = update_shard m.shards txn.shard_index (leave_shard txn) })

-- The compare-and-swap loop on `last_committed_txn_id`: alone, its first round settles it.
unfoldable pub raise_last_committed : TransactionId → TxManager → TxManager
raise_last_committed txn_id m =
    if is_gt (TransactionId.compare txn_id m.last_committed_txn_id)
    then record m { last_committed_txn_id = txn_id }
    else m

-- `tx_manager_commit` for non-NULL arguments; the flag is true where the code returns 0. The
-- descriptor is the client's and comes back changed.
unfoldable pub commit_in : TxnState → TxManager → TxnDesc → TxManager × TxnDesc × Bool
commit_in active m txn =
    (leave (raise_last_committed txn.txn_id m) txn, record txn { state = committed }, true)
commit_in committed m txn = (m, txn, false)
commit_in aborted m txn = (m, txn, false)

unfoldable pub commit : TxManager → TxnDesc → TxManager × TxnDesc × Bool
unfolding commit_in
commit m txn = commit_in txn.state m txn

-- `tx_manager_abort`
unfoldable pub abort_in : TxnState → TxManager → TxnDesc → TxManager × TxnDesc × Bool
abort_in active m txn = (leave m txn, record txn { state = aborted }, true)
abort_in committed m txn = (m, txn, false)
abort_in aborted m txn = (m, txn, false)

unfoldable pub abort : TxManager → TxnDesc → TxManager × TxnDesc × Bool
unfolding abort_in
abort m txn = abort_in txn.state m txn

-- `tx_manager_get_min_active`, which recomputes a minimum that was never computed.
unfoldable pub get_min_active : TxManager → TransactionId × TxManager
get_min_active m =
    if is_sentinel m.min_active_txn_id
    then ((recompute_global_min m).min_active_txn_id, recompute_global_min m)
    else (m.min_active_txn_id, m)
