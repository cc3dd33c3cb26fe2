-- ===== src/EvictionQueue/Runs.antt =====
-- Sequences of pushes and drains of the eviction queue, against a first-in first-out list.
use wave_db.Base.{
  ℕ, ◌≡◌, ◌∙◌, refl, ap, arith, Bool, true, false, List, [], ◌∷◌, ◌++◌, leb, if◌then◌else◌, length,
  take, drop, Bool-cases, inl, inr,
}
use wave_db.EvictionQueue.{EvictionQueue, init, size, push, drain}
use wave_db.EvictionQueue.Fifo.{
  IsValid, contents, length-contents, push-pushed, pushed-IsValid, contents-pushed, take-contents,
  drain-contents, drain-IsValid, init-IsValid, contents-init,
}

pub data Call : Type 0 where
  pushes : ℕ → Call
  drains : ℕ → Call

-- What a caller sees: the flag of a push, the offsets of a drain.
pub data Seen : Type 0 where
  pushed : Bool → Seen
  drained : List ℕ → Seen

unfoldable pub run : EvictionQueue → List Call → List Seen
run queue [] = []
run queue (pushes offset ∷ calls) =
    let (queue', ok) = push queue offset in pushed ok ∷ run queue' calls
run queue (drains max ∷ calls) =
    let (out, queue') = drain queue max in drained out ∷ run queue' calls

-- The specification: a list that takes 256 offsets at its end and gives them from its front.
unfoldable pub fifo : List ℕ → List Call → List Seen
fifo held [] = []
fifo held (pushes offset ∷ calls) =
    let full = pushed false ∷ fifo held calls in
    let room = pushed true ∷ fifo (held ++ (offset ∷ [])) calls in
    if leb 256 (length held) then full else room
fifo held (drains max ∷ calls) = drained (take max held) ∷ fifo (drop max held) calls

run-contents :
    (queue : EvictionQueue) (calls : List Call)
    → IsValid queue
    → run queue calls ≡ fifo (contents queue) calls
unfolding run fifo
run-contents queue [] v = refl
run-contents queue (pushes offset ∷ calls) v = elim (Bool-cases (leb 256 (size queue))) [
  | inl full ↦
      rw (push-pushed queue offset, length-contents queue, full)
        (ap (λ l. pushed false ∷ l) (run-contents queue calls v))
  | inr room ↦
      rw (push-pushed queue offset, length-contents queue, room)
        (ap (λ l. pushed true ∷ l)
          (run-contents _ calls (pushed-IsValid queue offset v (ground arith))
            ∙ ap (λ h. fifo h calls) (contents-pushed queue offset v (ground arith))))
]
run-contents queue (drains max ∷ calls) v =
    ap (λ o. drained o ∷ run (drain queue max).1 calls) (take-contents queue max)
    ∙ ap (λ l. drained (take max (contents queue)) ∷ l)
        (run-contents (drain queue max).1 calls (drain-IsValid queue max v)
          ∙ ap (λ h. fifo h calls) (drain-contents queue max v))

-- Any sequence of pushes and drains of a new queue shows its callers what a first-in first-out list
-- of at most 256 offsets does, past any wrap of the counters.
pub run-fifo : (calls : List Call) → run init calls ≡ fifo [] calls
run-fifo calls = run-contents init calls init-IsValid ∙ ap (λ h. fifo h calls) contents-init
