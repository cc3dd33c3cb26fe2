-- ===== src/EvictionQueue.antt =====
-- src/Database/eviction_queue.c: the ring buffer of offsets whose cached nodes may be evicted. Each
-- call is one step of its single producer or its single consumer.
pub mod Slots
pub mod Fifo
pub mod Runs
use wave_db.Base.{
  ℕ, zero, suc, ◌+◌, ◌-◌, ◌%◌, ◌^◌, Bool, true, false, List, [], ◌∷◌, ltb, leb, if◌then◌else◌, set,
  get_or, replicate,
}

abbrev pub eviction_queue_capacity : ℕ
eviction_queue_capacity = 256

-- `eviction_queue_t`: the two counters run on and wrap at 64 bits.
pub record EvictionQueue : Type 0 where
  pub head : ℕ
  pub tail : ℕ
  pub offsets : List ℕ

unfoldable pub init : EvictionQueue
init = record { head = 0; tail = 0; offsets = replicate eviction_queue_capacity 0 }

-- `eviction_queue_size`: `tail - head` on 64 bits.
unfoldable pub size : EvictionQueue → ℕ
size queue = (queue.tail + 2 ^ 64 - queue.head) % 2 ^ 64

-- `eviction_queue_push`; the flag is false for -1.
unfoldable pub push : EvictionQueue → ℕ → EvictionQueue × Bool
push queue offset =
    if leb eviction_queue_capacity ((queue.tail + 2 ^ 64 - queue.head) % 2 ^ 64)
    then (queue, false)
    else (
      record queue {
        offsets = set queue.offsets (queue.tail % eviction_queue_capacity) offset;
        tail = (queue.tail + 1) % 2 ^ 64;
      },
      true,
    )

-- The loop of `eviction_queue_drain`, from `i` on: `n` values for `out`.
pub drain_loop : List ℕ → ℕ → ℕ → ℕ → List ℕ
drain_loop offsets head i zero = []
drain_loop offsets head i (suc n) =
    get_or offsets ((head + i) % 2 ^ 64 % eviction_queue_capacity) 0
    ∷ drain_loop offsets head (suc i) n

-- `eviction_queue_drain`: what it writes to `out`, which is as long as the count that it returns.
unfoldable pub drain : EvictionQueue → ℕ → List ℕ × EvictionQueue
unfolding drain_loop
drain queue max =
    let available = (queue.tail + 2 ^ 64 - queue.head) % 2 ^ 64 in
    let count = if ltb available max then available else max in
    (
      drain_loop queue.offsets queue.head 0 count,
      record queue { head = (queue.head + count) % 2 ^ 64 },
    )
