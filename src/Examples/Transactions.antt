-- ===== src/Examples/Transactions.antt =====
-- Runs of src/Workers/transaction_id.c and src/HBTrie/mvcc.c.
use wave_db.Base.{ℕ, ◌≡◌, ◌↔◌, refl, inr, Ordering, some, List, [], ◌∷◌, ◌++◌, arith}
use wave_db.TransactionId
use wave_db.TransactionId.{TransactionId, InRange, shard_index, is_sentinel}
use wave_db.TransactionId.Codec.{deserialize-serialize}
use wave_db.TransactionId.Generator.{
  Clock, ClockServes, get_next, advance_to, init, get_next_increases, get_next-advance_to,
}
use wave_db.Mvcc.{
  TxnDesc, active, create, get_min_active, commit, leave, update_global, raise_last_committed,
  begin, recompute_global_min, update_shard, add_txn, leave_shard, shard_min, remove_txn,
}
use wave_db.Mvcc.Cutoff.{IsLower}
use wave_db.Mvcc.Calls.{Call, begins, commits, run, step, cutoff_sound}
use wave_db.Mvcc.Frozen.{cutoff_stuck}

abbrev id : ℕ → ℕ → ℕ → TransactionId
id time nanos count = record { time = time; nanos = nanos; count = count }

abbrev clock : ℕ → ℕ → Clock
clock secs nsecs = record { secs = secs; nsecs = nsecs }

deserialize-serialize_example :
    TransactionId.deserialize (TransactionId.serialize (id 1700000000 999999999 42) ++ (7 ∷ []))
    ≡ some (id 1700000000 999999999 42, 7 ∷ [])
deserialize-serialize_example =
    deserialize-serialize (id 1700000000 999999999 42) (7 ∷ [])
      (record { time = omega arith; nanos = omega arith; count = omega arith })

get_next_increases_example :
    TransactionId.compare
      (get_next init (clock 10 5)).0
      (get_next (get_next init (clock 10 5)).1 (clock 10 5)).0
    ≡ Ordering.lt
get_next_increases_example =
    get_next_increases init (clock 10 5) (clock 10 5) (omega arith) (inr (refl, omega arith))

get_next-advance_to_example :
    (TransactionId.compare (id 100 7 50) (get_next (advance_to init (id 100 7 50)) (clock 100 7)).0
      ≡ Ordering.lt)
    ↔ ClockServes (id 100 7 50) (clock 100 7)
get_next-advance_to_example =
    get_next-advance_to init (id 100 7 50) (clock 100 7) (omega arith) (omega arith)

abbrev desc : ℕ → TransactionId → TxnDesc
desc address txn_id = record {
  address = address;
  txn_id = txn_id;
  state = active;
  shard_index = shard_index txn_id;
}

-- Two transactions overlap; the older one ends.
abbrev overlap : List Call
overlap =
    begins (some 8) (id 1 0 1) ∷ begins (some 16) (id 2 0 2) ∷ commits (desc 8 (id 1 0 1)) ∷ []

overlap_cutoff : (get_min_active (run create overlap)).0 ≡ id 2 0 2
unfolding get_min_active run create is_sentinel step commit leave update_global
    TransactionId.compare raise_last_committed begin recompute_global_min update_shard shard_index
    add_txn leave_shard shard_min remove_txn
overlap_cutoff = refl

cutoff_sound_example : IsLower (get_min_active (run create overlap)).0 (run create overlap).shards
unfolding TransactionId.compare is_sentinel
cutoff_sound_example = cutoff_sound overlap ((refl, refl), ((refl, refl), (refl, tt)))

cutoff_stuck_example :
    (run create (
      begins (some 8) (id 1 0 1)
      ∷ commits (desc 8 (id 1 0 1))
      ∷ begins (some 16) (id 2 0 2)
      ∷ commits (desc 16 (id 2 0 2))
      ∷ [])).min_active_txn_id
    ≡ id 1 0 1
unfolding TransactionId.compare is_sentinel
cutoff_stuck_example =
    cutoff_stuck 8 (id 1 0 1) (begins (some 16) (id 2 0 2) ∷ commits (desc 16 (id 2 0 2)) ∷ []) refl
      refl (tt, (refl, tt))
