-- ===== src/LeafEntry/Collected.antt =====
-- One leaf entry of `hbtrie_gc`: which readers see what they saw before.
use wave_db.Base.{
  ℕ, ◌≡◌, ◌⊎◌, inl, inr, refl, ap, sym, All, ◌∙◌, true, Option, none, some, List, [], ◌∷◌, ◌++◌,
  arith,
}
use wave_db.TransactionId
use wave_db.TransactionId.{TransactionId, is_le, is_lt}
use wave_db.VersionChain
use wave_db.VersionChain.{VersionEntry}
use wave_db.VersionChain.Gc.{IsOlder, find_visible-gc, reaches, reaches-append, gc_split}
use wave_db.LeafEntry.{LeafEntry, no_value, legacy, versioned, read, settle, gc, value_of}
use mathlib.Core.Path.{subst}

module _ {ℓ} {V : Type ℓ} where
  -- A removed entry shows nothing.
  abbrev pub read_left : Option (LeafEntry V) → TransactionId → Option V
  read_left none r = none
  read_left (some e) r = read e r

  -- The reader sees the head, or the chain has a second version.
  abbrev SeesHead : List (VersionEntry V) → TransactionId → Type 0
  SeesHead [] r = Unit {0}
  SeesHead (newest ∷ []) r = is_le (TransactionId.compare newest.txn_id r) ≡ true
  SeesHead (newest ∷ next ∷ older) r = Unit {0}

  read_left-settle :
      (chain : List (VersionEntry V)) (m r : TransactionId) (removed : ℕ)
      → SeesHead chain r
      → read_left (settle chain m removed).0 r ≡ value_of (VersionChain.find_visible chain r)
  unfolding settle read VersionChain.find_visible
  read_left-settle [] m r removed h = refl
  read_left-settle (sole ∷ []) m r removed h = ground arith
  read_left-settle (newest ∷ next ∷ older) m r removed h = refl

  -- A reader of the chain is served: it sees the head, or a version stands between `min_active`
  -- and the reader.
  abbrev pub IsServed : List (VersionEntry V) → TransactionId → TransactionId → Type 0
  IsServed [] m r = Unit {0}
  IsServed (newest ∷ older) m r =
      (is_le (TransactionId.compare newest.txn_id r) ≡ true) ⊎ (reaches older m r ≡ true)

  abbrev pub IsEntryServed : LeafEntry V → TransactionId → TransactionId → Type 0
  IsEntryServed no_value m r = Unit {0}
  IsEntryServed (legacy value id) m r = Unit {0}
  IsEntryServed (versioned versions) m r = IsServed versions m r

  SeesHead-kept :
      (newest : VersionEntry V) (kept gone : List (VersionEntry V)) (m r : TransactionId)
      → All (IsOlder m) gone
      → (is_le (TransactionId.compare newest.txn_id r) ≡ true) ⊎ (reaches (kept ++ gone) m r ≡ true)
      → SeesHead (newest ∷ kept) r
  SeesHead-kept newest [] gone m r h (inl head) = head
  SeesHead-kept newest [] gone m r h (inr below) = cc (reaches-append [] gone m r h)
  SeesHead-kept newest (next ∷ kept) gone m r h seen = tt

  SeesHead-gc :
      (chain : List (VersionEntry V)) (m r : TransactionId)
      → IsServed chain m r
      → SeesHead (VersionChain.gc chain m).0 r
  SeesHead-gc [] m r seen = unfold VersionChain.gc in tt
  SeesHead-gc (newest ∷ older) m r seen =
      let (kept, gone, result, split, _, h) = gc_split newest older m in
      subst (λ c. SeesHead c r) (sym result)
        (SeesHead-kept newest kept gone m r h (
          subst
            (λ l. (is_le (TransactionId.compare newest.txn_id r) ≡ true) ⊎ (reaches l m r ≡ true))
            split seen))

  find_visible-gc_chain :
      (chain : List (VersionEntry V)) (m r : TransactionId)
      → IsServed chain m r
      → VersionChain.find_visible (VersionChain.gc chain m).0 r ≡ VersionChain.find_visible chain r
  find_visible-gc_chain [] m r seen = unfold VersionChain.gc in refl
  find_visible-gc_chain (newest ∷ older) m r seen = find_visible-gc newest older m r seen

  -- A collection at `m` changes nothing for a reader at `r`, whether the entry keeps its chain,
  -- falls back to a sole value, or is removed with its tombstone. On a chain this holds for a
  -- reader at or past the newest version, and for one that has a version between `m` and `r`.
  pub read-gc :
      (e : LeafEntry V) (m r : TransactionId)
      → IsEntryServed e m r
      → read_left (gc e m).0 r ≡ read e r
  unfolding gc read
  read-gc no_value m r seen = refl
  read-gc (legacy value id) m r seen = refl
  read-gc (versioned versions) m r seen =
      read_left-settle (VersionChain.gc versions m).0 m r _ (SeesHead-gc versions m r seen)
      ∙ ap value_of (find_visible-gc_chain versions m r seen)
