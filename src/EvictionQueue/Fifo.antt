-- ===== src/EvictionQueue/Fifo.antt =====
-- The eviction queue implements a bounded first-in first-out queue.
use wave_db.Base.{
  ℕ, zero, suc, ◌+◌, ◌-◌, ◌%◌, ◌^◌, ◌<◌, ◌≤◌, ◌≡◌, ◌∙◌, refl, sym, ap, inl, inr, true, false, List,
  [], ◌∷◌, ◌++◌, arith, ltb, leb, if◌then◌else◌, set, get_or, length, length-set, length-replicate,
  take, drop, Bool-cases,
}
use wave_db.EvictionQueue.{
  EvictionQueue, eviction_queue_capacity, init, size, push, drain_loop, drain,
}
use wave_db.EvictionQueue.Slots.{
  get_or-set_self, length-drain_loop, drain_loop_snoc, drain_loop-set, drain_loop_shift,
  take-drain_loop, drop-drain_loop,
}

pub record IsValid (queue : EvictionQueue) : Type 0 where
  pub head : queue.head < 2 ^ 64
  pub tail : queue.tail < 2 ^ 64
  pub room : size queue ≤ eviction_queue_capacity
  pub slots : length queue.offsets ≡ eviction_queue_capacity

-- The offsets that are queued, oldest first.
unfoldable pub contents : EvictionQueue → List ℕ
unfolding drain_loop size
contents queue = drain_loop queue.offsets queue.head 0 (size queue)

pub length-contents : (queue : EvictionQueue) → length (contents queue) ≡ size queue
unfolding contents
length-contents queue = length-drain_loop queue.offsets queue.head 0 (size queue)

-- The tail stands `size` slots behind the head.
tail_slot :
    (queue : EvictionQueue) → IsValid queue → (queue.head + size queue) % 2 ^ 64 ≡ queue.tail
unfolding size
tail_slot queue v = let a = v.head in let b = v.tail in omega arith

zero_left : (n : ℕ) → 0 + n ≡ n
zero_left n = omega arith

-- The queue after a push with room.
abbrev pub pushed : EvictionQueue → ℕ → EvictionQueue
pushed queue offset = record queue {
  offsets = set queue.offsets (queue.tail % eviction_queue_capacity) offset;
  tail = (queue.tail + 1) % 2 ^ 64;
}

pub push-pushed :
    (queue : EvictionQueue) (offset : ℕ)
    → push queue offset
      ≡ (if leb 256 (size queue) then (queue, false) else (pushed queue offset, true))
unfolding push size
push-pushed queue offset = refl

one_more :
    (h t : ℕ)
    → h < 2 ^ 64
    → t < 2 ^ 64
    → (t + 2 ^ 64 - h) % 2 ^ 64 < 256
    → ((t + 1) % 2 ^ 64 + 2 ^ 64 - h) % 2 ^ 64 ≡ suc ((t + 2 ^ 64 - h) % 2 ^ 64)
one_more h t a b few = omega arith

some_fewer :
    (h t n : ℕ)
    → h < 2 ^ 64
    → t < 2 ^ 64
    → n ≤ (t + 2 ^ 64 - h) % 2 ^ 64
    → (t + 2 ^ 64 - (h + n) % 2 ^ 64) % 2 ^ 64 ≡ (t + 2 ^ 64 - h) % 2 ^ 64 - n
some_fewer h t n a b few = omega arith

size-pushed :
    (queue : EvictionQueue) (offset : ℕ)
    → IsValid queue
    → size queue < 256
    → size (pushed queue offset) ≡ suc (size queue)
unfolding size
size-pushed queue offset v few = one_more queue.head queue.tail v.head v.tail few

pub pushed-IsValid :
    (queue : EvictionQueue) (offset : ℕ)
    → IsValid queue
    → size queue < 256
    → IsValid (pushed queue offset)
pushed-IsValid queue offset v few = record {
  head = v.head;
  tail = omega arith;
  room = omega (arith, size-pushed queue offset v few);
  slots = length-set queue.offsets (queue.tail % 256) offset ∙ v.slots;
}

pub contents-pushed :
    (queue : EvictionQueue) (offset : ℕ)
    → IsValid queue
    → size queue < 256
    → contents (pushed queue offset) ≡ contents queue ++ (offset ∷ [])
unfolding contents
contents-pushed queue offset v few =
    let o' = set queue.offsets (queue.tail % 256) offset in
    let slot : queue.tail % 256 ≡ (queue.head + size queue) % 2 ^ 64 % 256 =
      ap (λ t. t % 256) (sym (tail_slot queue v)) in
    let moved : drain_loop o' queue.head 0 (size queue)
        ≡ drain_loop queue.offsets queue.head 0 (size queue) =
      ap (λ t. drain_loop (set queue.offsets t offset) queue.head 0 (size queue)) slot
      ∙ drain_loop-set queue.offsets queue.head 0 (size queue) (size queue) offset (omega arith)
          few in
    let written : get_or o' ((queue.head + (0 + size queue)) % 2 ^ 64 % 256) 0 ≡ offset =
      ap (λ k. get_or o' ((queue.head + k) % 2 ^ 64 % 256) 0) (zero_left (size queue))
      ∙ ap (λ t. get_or o' t 0) (sym slot)
      ∙ get_or-set_self queue.offsets (queue.tail % 256) offset (let l = v.slots in omega arith) in
    ap (drain_loop o' queue.head 0) (size-pushed queue offset v few)
    ∙ drain_loop_snoc o' queue.head 0 (size queue)
    ∙ rw (moved, written) refl

-- The queue after a drain of `count` offsets.
abbrev drained : EvictionQueue → ℕ → EvictionQueue
drained queue count = record queue { head = (queue.head + count) % 2 ^ 64 }

abbrev least : ℕ → ℕ → ℕ
least n k = if ltb n k then n else k

drain-drained :
    (queue : EvictionQueue) (max : ℕ)
    → drain queue max ≡ (
      drain_loop queue.offsets queue.head 0 (least (size queue) max),
      drained queue (least (size queue) max),
    )
unfolding drain size
drain-drained queue max = refl

size-drained :
    (queue : EvictionQueue) (n : ℕ)
    → IsValid queue
    → n ≤ size queue
    → size (drained queue n) ≡ size queue - n
unfolding size
size-drained queue n v few = some_fewer queue.head queue.tail n v.head v.tail few

drained-IsValid :
    (queue : EvictionQueue) (n : ℕ) → IsValid queue → n ≤ size queue → IsValid (drained queue n)
drained-IsValid queue n v few =
    let r = v.room in
    record {
      head = omega arith;
      tail = v.tail;
      room = omega (arith, size-drained queue n v few);
      slots = v.slots;
    }

contents-drained :
    (queue : EvictionQueue) (n : ℕ)
    → IsValid queue
    → n ≤ size queue
    → contents (drained queue n) ≡ drop n (contents queue)
unfolding contents
contents-drained queue n v few =
    let e : n + 0 ≡ 0 + n = omega arith in
    drain_loop_shift queue.offsets queue.head n 0 (size (drained queue n))
    ∙ rw (size-drained queue n v few, e)
        (sym (drop-drain_loop queue.offsets queue.head 0 (size queue) n))

drop-all : (n : ℕ) (xs : List ℕ) → length xs ≤ n → drop n xs ≡ []
drop-all zero [] h = refl
drop-all zero (x ∷ xs) h = absurd (omega arith)
drop-all (suc n) [] h = refl
drop-all (suc n) (x ∷ xs) h = drop-all n xs (omega arith)

least_le : (n k : ℕ) → least n k ≤ n
least_le n k = ground arith

-- What a drain writes is the front of the contents.
pub take-contents :
    (queue : EvictionQueue) (max : ℕ) → (drain queue max).0 ≡ take max (contents queue)
unfolding contents
take-contents queue max =
    ap (λ d. d.0) (drain-drained queue max)
    ∙ sym (take-drain_loop queue.offsets queue.head 0 (size queue) max)

pub drain-IsValid : (queue : EvictionQueue) (max : ℕ) → IsValid queue → IsValid (drain queue max).1
drain-IsValid queue max v =
    rw (drain-drained queue max) (drained-IsValid queue _ v (least_le (size queue) max))

drop-least : (n k : ℕ) (xs : List ℕ) → length xs ≡ n → drop (least n k) xs ≡ drop k xs
drop-least n k xs h = elim (Bool-cases (ltb n k)) [
  | inl more ↦ rw more (drop-all n xs (omega (arith, h)) ∙ sym (drop-all k xs (ground (arith, h))))
  | inr few ↦ rw few refl
]

pub drain-contents :
    (queue : EvictionQueue) (max : ℕ)
    → IsValid queue
    → contents (drain queue max).1 ≡ drop max (contents queue)
drain-contents queue max v =
    ap (λ d. contents d.1) (drain-drained queue max)
    ∙ contents-drained queue _ v (least_le (size queue) max)
    ∙ drop-least (size queue) max (contents queue) (length-contents queue)

pub init-IsValid : IsValid init
unfolding init size
init-IsValid = record {
  head = omega arith;
  tail = omega arith;
  room = omega arith;
  slots = length-replicate {A = ℕ} 256 0;
}

pub contents-init : contents init ≡ []
unfolding contents init size drain_loop
contents-init = refl
