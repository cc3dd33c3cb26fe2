-- ===== src/RefCounter.antt =====
-- src/RefCounter/refcounter.c: reference counts with yields, references that are passed on without
-- a change of the count. Each call is one step, in which a compare-and-swap succeeds at once.
pub mod Ownership
use wave_db.Base.{ℕ, ◌+◌, ◌-◌, ◌%◌, Option, none, some, ltb, if◌then◌else◌}

-- `refcounter_t`: 16 bits of count, 8 bits of yield.
pub record RefCounter : Type 0 where
  pub count : ℕ
  pub yielded : ℕ

unfoldable pub init : RefCounter
init = record { count = 1; yielded = 0 }

-- `refcounter_yield`
unfoldable pub yield : RefCounter → RefCounter
yield r = record r { yielded = (r.yielded + 1) % 256 }

-- `refcounter_reference`
unfoldable pub reference : RefCounter → RefCounter
reference r =
    if ltb 0 r.yielded
    then record r { yielded = r.yielded - 1 }
    else record r { count = (r.count + 1) % 65536 }

-- `refcounter_dereference`
unfoldable pub dereference : RefCounter → RefCounter
dereference r =
    if ltb 0 r.yielded
    then record r { yielded = r.yielded - 1 }
    else if ltb 0 r.count
    then record r { count = r.count - 1 }
    else r

-- `refcounter_count`, 0 for NULL.
unfoldable pub count : Option RefCounter → ℕ
count none = 0
count (some r) = r.count

-- `refcounter_consume` of a pointer that is not NULL: the object as it is now. The holder's
-- pointer becomes NULL.
unfoldable pub consume : RefCounter → RefCounter
unfolding yield
consume r = yield r
