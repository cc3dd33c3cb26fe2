-- ===== src/RefCounter/Ownership.antt =====
-- Sequences of calls on one object's reference counter.
use wave_db.Base.{ℕ, ◌+◌, ◌-◌, ◌<◌, List, [], ◌∷◌}
use wave_db.RefCounter.{RefCounter, reference, dereference, consume}

-- `takes` is a new owner, `hands` an owner that passes its reference on, with the `reference` of
-- the next owner at once behind it; `drops` is an owner that lets go.
pub data Event : Type 0 where
  takes hands drops : Event

unfoldable pub handle : RefCounter → Event → RefCounter
handle r takes = reference r
handle r hands = reference (consume r)
handle r drops = dereference r

unfoldable pub run : RefCounter → List Event → RefCounter
unfolding handle
run r [] = r
run r (e ∷ events) = run (handle r e) events

-- The number of owners, and whether each event of a history has an owner to act and the count's 16
-- bits hold the owners.
unfoldable pub owners : ℕ → List Event → ℕ
owners n [] = n
owners n (takes ∷ events) = owners (n + 1) events
owners n (hands ∷ events) = owners n events
owners n (drops ∷ events) = owners (n - 1) events

unfoldable pub IsHistory : ℕ → List Event → Type 0
IsHistory n [] = Unit
IsHistory n (takes ∷ events) = (0 < n) × (n + 1 < 65536) × IsHistory (n + 1) events
IsHistory n (hands ∷ events) = (0 < n) × IsHistory n events
IsHistory n (drops ∷ events) = (0 < n) × IsHistory (n - 1) events
