-- ===== src/Mvcc/Calls.antt =====
-- Sequences of calls of the transaction manager, in the order in which they take their locks.
use wave_db.Base.{ℕ, ◌≡◌, false, Option, none, some, List, [], ◌∷◌}
use wave_db.TransactionId.{TransactionId, is_sentinel}
use wave_db.TransactionId.Order.{AtMost}
use wave_db.Mvcc.{TxnDesc, TxManager, create, zero_id, begin, commit, abort, get_min_active}
use wave_db.Mvcc.Cutoff.{IsLower, IsValid}
use wave_db.Mvcc.Safety.{
  begin-IsValid, commit-IsValid, abort-IsValid, get_min_active-IsValid, get_min_active_sound,
  create-IsValid,
}

-- A call with what its environment gives it: the pool's answer and the next identifier, or the
-- client's descriptor.
pub data Call : Type 0 where
  begins : Option ℕ → TransactionId → Call
  commits aborts : TxnDesc → Call
  asks_min : Call

unfoldable pub step : TxManager → Call → TxManager
step m (begins pool txn_id) = (begin m pool txn_id).0
step m (commits txn) = (commit m txn).0
step m (aborts txn) = (abort m txn).0
step m asks_min = (get_min_active m).1

unfoldable pub run : TxManager → List Call → TxManager
run m [] = m
run m (c ∷ calls) = run (step m c) calls

-- The last identifier handed out.
abbrev pub top_after : TransactionId → Call → TransactionId
top_after top (begins none txn_id) = top
top_after top (begins (some address) txn_id) = txn_id
top_after top (commits txn) = top
top_after top (aborts txn) = top
top_after top asks_min = top

-- The environment hands out identifiers in order, none of them the sentinel, and clients pass
-- descriptors whose identifiers were handed out.
abbrev pub IsLegal : TransactionId → Call → Type 0
IsLegal top (begins none txn_id) = Unit {0}
IsLegal top (begins (some address) txn_id) = AtMost top txn_id × (is_sentinel txn_id ≡ false)
IsLegal top (commits txn) = AtMost txn.txn_id top
IsLegal top (aborts txn) = AtMost txn.txn_id top
IsLegal top asks_min = Unit {0}

abbrev pub AllLegal : TransactionId → List Call → Type 0
AllLegal top [] = Unit {0}
AllLegal top (c ∷ calls) = IsLegal top c × AllLegal (top_after top c) calls

abbrev pub last_top : TransactionId → List Call → TransactionId
last_top top [] = top
last_top top (c ∷ calls) = last_top (top_after top c) calls

step-IsValid :
    (top : TransactionId) (m : TxManager) (c : Call)
    → IsLegal top c
    → IsValid top m
    → IsValid (top_after top c) (step m c)
unfolding step
step-IsValid top m (begins none txn_id) h v = unfold begin in v
step-IsValid top m (begins (some address) txn_id) h v = begin-IsValid top txn_id m address h.0 h.1 v
step-IsValid top m (commits txn) h v = commit-IsValid top m txn h v
step-IsValid top m (aborts txn) h v = abort-IsValid top m txn v
step-IsValid top m asks_min h v = get_min_active-IsValid top m v

run-IsValid :
    (top : TransactionId) (m : TxManager) (calls : List Call)
    → AllLegal top calls
    → IsValid top m
    → IsValid (last_top top calls) (run m calls)
unfolding run
run-IsValid top m [] h v = v
run-IsValid top m (c ∷ calls) h v =
    run-IsValid (top_after top c) (step m c) calls h.1 (step-IsValid top m c h.0 v)

-- After any legal calls on a new manager, the cutoff that `tx_manager_get_min_active` returns is at
-- most every active transaction of every shard.
pub cutoff_sound :
    (calls : List Call)
    → AllLegal zero_id calls
    → IsLower (get_min_active (run create calls)).0 (run create calls).shards
cutoff_sound calls h =
    get_min_active_sound _ (run create calls) (run-IsValid zero_id create calls h create-IsValid)
