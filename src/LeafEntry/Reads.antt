-- ===== src/LeafEntry/Reads.antt =====
-- What readers see of a leaf entry after a write or a delete.
use wave_db.Base.{
  ◌≡◌, ◌≢◌, refl, Bool, true, false, Option, none, some, List, [], ◌∷◌, arith, if◌then◌else◌,
}
use wave_db.TransactionId
use wave_db.TransactionId.{TransactionId, is_le}
use wave_db.VersionChain
use wave_db.VersionChain.{VersionEntry}
use wave_db.VersionChain.Visibility.{find_visible-cons}
use wave_db.LeafEntry.{LeafEntry, no_value, legacy, versioned, read, insert, delete, value_of}

module _ {ℓ} {V : Type ℓ} where
  -- What a reader at `r` would see if every value were held to its transaction.
  abbrev pub snapshot : LeafEntry V → TransactionId → Option V
  snapshot no_value r = none
  snapshot (legacy value id) r = if is_le (TransactionId.compare id r) then value else none
  snapshot (versioned versions) r = value_of (VersionChain.find_visible versions r)

  read_cons :
      (v : VersionEntry V) (chain : List (VersionEntry V)) (r : TransactionId)
      → value_of (VersionChain.find_visible (v ∷ chain) r) ≡ (
          if is_le (TransactionId.compare v.txn_id r)
          then if v.is_deleted then none else v.value
          else value_of (VersionChain.find_visible chain r))
  read_cons v chain r = ground (arith, find_visible-cons v chain r)

  -- The chain that an upgrade leaves.
  read_pair :
      (id old_id : TransactionId) (old : Option V) (r : TransactionId) (value : Option V)
      (is_deleted : Bool)
      → value_of (
          VersionChain.find_visible
            (VersionChain.create id value is_deleted ∷ VersionChain.create old_id old false ∷ [])
            r)
        ≡ (if is_le (TransactionId.compare id r)
            then if is_deleted then none else value
            else if is_le (TransactionId.compare old_id r)
            then old
            else none)
  unfolding VersionChain.find_visible VersionChain.walk_chain
  read_pair id old_id old r value is_deleted = ground arith

  -- Over an entry with a value, a write that succeeds at `id` is what a reader at or past `id` sees;
  -- a reader below `id` sees its snapshot of the entry before.
  pub read-insert :
      (e : LeafEntry V) (id r : TransactionId) (value : V)
      → e ≢ no_value
      → read (insert true true e id value).0 r
        ≡ (if is_le (TransactionId.compare id r) then some value else snapshot e r)
  unfolding read insert VersionChain.add
  read-insert no_value id r value h = absurd (h refl)
  read-insert (legacy old old_id) id r value h = read_pair id old_id old r (some value) false
  read-insert (versioned versions) id r value h =
      read_cons (VersionChain.create id (some value) false) versions r

  -- A delete of an entry with a value, whose allocations succeed, returns what the deleter could read. A reader at or past its identifier
  -- finds nothing afterwards, and a reader below it its snapshot of the entry before.
  pub read-delete :
      (e : LeafEntry V) (id r : TransactionId)
      → e ≢ no_value
      → ((old_id : TransactionId) → e ≢ legacy none old_id)
      → ((delete true true e id).1 ≡ read e id)
        × (read (delete true true e id).0 r
            ≡ (if is_le (TransactionId.compare id r) then none else snapshot e r))
  unfolding read delete VersionChain.add
  read-delete no_value id r h k = absurd (h refl)
  read-delete (legacy none old_id) id r h k = absurd (k old_id refl)
  read-delete (legacy (some old) old_id) id r h k =
      (refl, read_pair id old_id (some old) r none true)
  read-delete (versioned versions) id r h k =
      (refl, read_cons (VersionChain.create id none true) versions r)

  -- The entry is a legacy value and the pool gave out the old version: its union is in use for a
  -- chain when the second allocation fails.
  abbrev pub is_caught : Bool → LeafEntry V → Bool
  is_caught old_ok no_value = false
  is_caught old_ok (legacy value id) = old_ok
  is_caught old_ok (versioned versions) = false

  -- A refused write leaves every read of the entry as it was, but for a legacy value whose old
  -- version was allocated and whose new version was not: that one is lost to every reader.
  pub read-insert_refused :
      (old_ok add_ok : Bool) (e : LeafEntry V) (id r : TransactionId) (value : V)
      → (insert old_ok add_ok e id value).1 ≡ false
      → read (insert old_ok add_ok e id value).0 r ≡ (if is_caught old_ok e then none else read e r)
  unfolding read insert VersionChain.add
  read-insert_refused old_ok add_ok no_value id r value h = cc
  read-insert_refused false add_ok (legacy old old_id) id r value h = refl
  read-insert_refused true false (legacy old old_id) id r value h = refl
  read-insert_refused true true (legacy old old_id) id r value h = cc
  read-insert_refused old_ok false (versioned versions) id r value h = refl
  read-insert_refused old_ok true (versioned versions) id r value h = cc
