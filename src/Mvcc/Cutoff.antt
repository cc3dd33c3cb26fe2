-- ===== src/Mvcc/Cutoff.antt =====
-- The cutoff for garbage collection, `min_active_txn_id`: never above an active transaction.
use wave_db.Base.{
  ◌≡◌, ◌⊎◌, inl, inr, true, false, List, [], ◌∷◌, arith, All, if◌then◌else◌, ◌||◌, Bool-cases,
}
use wave_db.TransactionId.{TransactionId, is_lt, is_sentinel, compare}
use wave_db.TransactionId.Order.{AtMost, AtMost-refl, AtMost-trans}
use wave_db.Mvcc.{Shard, TxManager, global_loop}
use wave_db.Mvcc.Vector.{IsAbove, smaller, smaller-AtMost_left, smaller-AtMost_right}
use wave_db.Mvcc.Invariant.{IsShardValid, IsIssued}

-- No active transaction of these shards is below `bound`.
abbrev pub IsLower : TransactionId → List Shard → Type 0
IsLower bound shards = All (λ s. All (IsAbove bound) s.txns) shards

-- The manager's invariant, `top` being the last identifier handed out.
pub record IsValid (top : TransactionId) (m : TxManager) : Type 0 where
  pub shards : All (IsShardValid top) m.shards
  pub last : AtMost m.last_committed_txn_id top
  pub cutoff :
      (is_sentinel m.min_active_txn_id ≡ true)
      ⊎ (AtMost m.min_active_txn_id top × IsLower m.min_active_txn_id m.shards)

-- `c` is the sentinel, or `r` is at most `c`.
abbrev pub Covers : TransactionId → TransactionId → Type 0
Covers r c = (is_sentinel c ≡ true) ⊎ AtMost r c

abbrev next_min : TransactionId → TransactionId → TransactionId
next_min s c = if is_sentinel s then c else if is_sentinel c || is_lt (compare s c) then s else c

smaller_real :
    (s c : TransactionId)
    → is_sentinel s ≡ false
    → is_sentinel c ≡ false
    → is_sentinel (smaller s c) ≡ false
smaller_real s c e f = ground arith

Covers-smaller :
    (r s c : TransactionId)
    → is_sentinel s ≡ false
    → is_sentinel c ≡ false
    → Covers r (smaller s c)
    → Covers r c × Covers r s
Covers-smaller r s c e f (inl h) = cc (smaller_real s c e f)
Covers-smaller r s c e f (inr h) = (
  inr (AtMost-trans r _ c h (smaller-AtMost_right s c)),
  inr (AtMost-trans r _ s h (smaller-AtMost_left s c)),
)

Covers-step : (r s c : TransactionId) → Covers r (next_min s c) → Covers r c × Covers r s
Covers-step r s c h = elim (Bool-cases (is_sentinel s)) [
  | inl e ↦ (rw e at h, inl e)
  | inr e ↦ elim (Bool-cases (is_sentinel c)) [
    | inl f ↦ (inl f, rw (e, f) at h)
    | inr f ↦ Covers-smaller r s c e f (rw (e, f) at h)
  ]
]

abbrev pub CoversShard : TransactionId → Shard → Type 0
CoversShard r s = Covers r s.min_txn_id

-- The loop's result covers its start and the minimum of every shard.
pub global_loop-Covers :
    (c : TransactionId) (shards : List Shard)
    → Covers (global_loop c shards) c × All (CoversShard (global_loop c shards)) shards
unfolding global_loop
global_loop-Covers c [] = (inr (AtMost-refl c), tt)
global_loop-Covers c (s ∷ shards) =
    let (start, rest) = global_loop-Covers (next_min s.min_txn_id c) shards in
    let (old, new) = Covers-step _ s.min_txn_id c start in (old, (new, rest))

next_min_sentinel :
    (s c : TransactionId)
    → is_sentinel (next_min s c) ≡ true
    → (is_sentinel c ≡ true) × (is_sentinel s ≡ true)
next_min_sentinel s c h = ground arith

abbrev pub HasSentinel : Shard → Type 0
HasSentinel s = is_sentinel s.min_txn_id ≡ true

pub global_loop_sentinel :
    (c : TransactionId) (shards : List Shard)
    → is_sentinel (global_loop c shards) ≡ true
    → (is_sentinel c ≡ true) × All HasSentinel shards
unfolding global_loop
global_loop_sentinel c [] h = (h, tt)
global_loop_sentinel c (s ∷ shards) h =
    let (start, rest) = global_loop_sentinel (next_min s.min_txn_id c) shards h in
    let (old, new) = next_min_sentinel s.min_txn_id c start in (old, (new, rest))

-- The sentinel, or an identifier that was handed out.
abbrev pub IsSettled : TransactionId → TransactionId → Type 0
IsSettled top c = (is_sentinel c ≡ true) ⊎ IsIssued top c

next_min-IsSettled :
    (top s c : TransactionId) → IsSettled top s → IsSettled top c → IsSettled top (next_min s c)
next_min-IsSettled top s c hs hc = elim (Bool-cases (is_sentinel s)) [
  | inl e ↦ rw e hc
  | inr e ↦ elim (Bool-cases (is_sentinel c || is_lt (compare s c))) [
    | inl f ↦ rw (e, f) hs
    | inr f ↦ rw (e, f) hc
  ]
]

pub shard-IsSettled :
    (top : TransactionId) (s : Shard) → IsShardValid top s → IsSettled top s.min_txn_id
shard-IsSettled top s v = elim v.min_issued [ inl e ↦ inl (e.0) | inr i ↦ inr i ]

pub global_loop-IsSettled :
    (top c : TransactionId) (shards : List Shard)
    → IsSettled top c
    → All (IsShardValid top) shards
    → IsSettled top (global_loop c shards)
unfolding global_loop
global_loop-IsSettled top c [] hc h = hc
global_loop-IsSettled top c (s ∷ shards) hc h =
    global_loop-IsSettled top (next_min s.min_txn_id c) shards
      (next_min-IsSettled top s.min_txn_id c (shard-IsSettled top s h.0) hc) h.1
