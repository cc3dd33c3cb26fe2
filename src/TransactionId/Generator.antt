-- ===== src/TransactionId/Generator.antt =====
-- The generator of src/Workers/transaction_id.c: `transaction_id_get_next` and
-- `transaction_id_advance_to`. Each call is one step of the global state.
use wave_db.Base.{ℕ, ◌+◌, ◌%◌, ◌^◌, ◌<◌, ◌≤◌, ◌≡◌, ◌⊎◌, ◌↔◌, Ordering, arith, ltb, if◌then◌else◌}
use wave_db.TransactionId.{TransactionId, compare}

-- The static variables `g_current_txn_id`, `g_global_count` and `g_high_water_time`.
pub record Generator : Type 0 where
  pub current_txn_id : TransactionId
  pub global_count : ℕ
  pub high_water_time : ℕ

-- One reading of the wall clock, which is outside the program.
pub record Clock : Type 0 where
  pub secs : ℕ
  pub nsecs : ℕ

abbrev pub txn_id_batch_size : ℕ
txn_id_batch_size = 1000

abbrev zero_id : TransactionId
zero_id = record { time = 0; nanos = 0; count = 0 }

abbrev pub init : Generator
init = record { current_txn_id = zero_id; global_count = 0; high_water_time = 0 }

-- The reading, clamped to the high-water mark.
clamp_clock : ℕ → Clock → Clock
clamp_clock high_water now =
    if ltb now.secs high_water then record { secs = high_water; nsecs = 0 } else now

unfoldable pub get_next : Generator → Clock → TransactionId × Generator
unfolding clamp_clock
get_next g now =
    let t = clamp_clock g.high_water_time now in
    (
      record { time = t.secs; nanos = t.nsecs; count = g.global_count },
      record g { global_count = (g.global_count + 1) % 2 ^ 64 },
    )

-- A compare-and-swap that meets no other thread succeeds at once, so each of the two loops makes
-- at most one round.
advance_count : Generator → TransactionId → Generator
advance_count g target =
    let new_count = (target.count + txn_id_batch_size) % 2 ^ 64 in
    if ltb g.global_count new_count
    then record g { global_count = new_count; current_txn_id = target }
    else g

advance_time : Generator → TransactionId → Generator
advance_time g target =
    if ltb g.high_water_time target.time then record g { high_water_time = target.time } else g

unfoldable pub advance_to : Generator → TransactionId → Generator
unfolding advance_count advance_time
advance_to g target = advance_time (advance_count g target) target

-- Two calls on clock readings that do not go back return identifiers in order, while the counter
-- does not wrap.
pub get_next_increases :
    (g : Generator) (first second : Clock)
    → g.global_count + 1 < 2 ^ 64
    → (first.secs < second.secs) ⊎ ((first.secs ≡ second.secs) × (first.nsecs ≤ second.nsecs))
    → compare (get_next g first).0 (get_next (get_next g first).1 second).0 ≡ Ordering.lt
unfolding get_next compare
get_next_increases g first second room later = ground arith

-- What the generator needs of the clock so that the identifier that it hands out after a recovery
-- up to `target` is above `target`: a reading past the recovered second or, in that second, at
-- least the recovered nanoseconds; a clock that is behind serves only if `target.nanos` is 0.
abbrev pub ClockServes : TransactionId → Clock → Type 0
ClockServes target now =
    (target.time < now.secs)
    ⊎ ((target.time ≡ now.secs) × (target.nanos ≤ now.nsecs))
    ⊎ ((now.secs < target.time) × (target.nanos ≡ 0))

-- After `advance_to target`, the next identifier is above `target` exactly when the clock reading
-- serves, for a generator that had not been advanced past the second of `target` and a count of
-- `target` that leaves room for the batch.
pub get_next-advance_to :
    (g : Generator) (target : TransactionId) (now : Clock)
    → g.high_water_time ≤ target.time
    → target.count + txn_id_batch_size < 2 ^ 64
    → (compare target (get_next (advance_to g target) now).0 ≡ Ordering.lt) ↔ ClockServes target now
unfolding get_next advance_to compare
get_next-advance_to g target now old room = ground arith

-- `advance_to` never moves the counter or the high-water mark back, and leaves the mark at or past
-- the second of `target`.
pub advance_to_forward :
    (g : Generator) (target : TransactionId)
    → (g.global_count ≤ (advance_to g target).global_count)
      × (g.high_water_time ≤ (advance_to g target).high_water_time)
      × (target.time ≤ (advance_to g target).high_water_time)
unfolding advance_to
advance_to_forward g target = ground arith
