-- ===== src/Examples/Bytes.antt =====
-- Runs of src/Buffer/buffer.c, src/HBTrie/identifier.c, src/Database/eviction_queue.c and
-- src/RefCounter/refcounter.c.
use wave_db.Base.{ℕ, ◌≡◌, ◌↔◌, refl, arith, Ordering, some, List, [], ◌∷◌}
use wave_db.Chunk.Order.{lexicographic}
use wave_db.Buffer
use wave_db.Buffer.{slice, concat, sign}
use wave_db.Buffer.Laws.{compare-eq_iff}
use wave_db.Identifier
use wave_db.Identifier.{to_buffer}
use wave_db.Identifier.Chunking.{to_buffer-create}
use wave_db.Identifier.Ordered.{padded}
use wave_db.Identifier.Sized.{compare-create}
use wave_db.EvictionQueue
use wave_db.EvictionQueue.Runs.{Call, pushes, drains, Seen, run-fifo, fifo}
use wave_db.EvictionQueue.Runs
use wave_db.RefCounter
use wave_db.RefCounter.{RefCounter}
use wave_db.RefCounter.Ownership.{Event, takes, hands, drops}
use wave_db.RefCounter.Ownership

abbrev text : List ℕ
text = 97 ∷ 98 ∷ 99 ∷ 100 ∷ 101 ∷ []

abbrev junk : List ℕ
junk = 7 ∷ 8 ∷ 9 ∷ 10 ∷ []

cuts_two :
    (Identifier.create (some text) junk 0).chunks
    ≡ (97 ∷ 98 ∷ 99 ∷ 100 ∷ []) ∷ (101 ∷ 0 ∷ 0 ∷ 0 ∷ []) ∷ []
unfolding Identifier.create Identifier.calc_nchunk Identifier.calc_last_chunk_size
cuts_two = refl

to_buffer-create_example : to_buffer (Identifier.create (some text) junk 0) ≡ text
to_buffer-create_example = to_buffer-create text junk 0

compare-create_example :
    Identifier.compare
      (some (Identifier.create (some text) junk 0))
      (some (Identifier.create (some (97 ∷ [])) [] 0))
    ≡ lexicographic
        (padded (Identifier.create (some text) junk 0).chunks)
        (padded (Identifier.create (some (97 ∷ [])) [] 0).chunks)
compare-create_example = compare-create text (97 ∷ []) junk [] 0 (omega arith) (omega arith)

compare-eq_iff_example : (Buffer.compare text junk ≡ Ordering.eq) ↔ (text ≡ junk)
compare-eq_iff_example = compare-eq_iff text junk

abbrev calls : List Call
calls = pushes 40 ∷ pushes 41 ∷ drains 1 ∷ pushes 42 ∷ drains 5 ∷ []

run-fifo_example : EvictionQueue.Runs.run EvictionQueue.init calls ≡ fifo [] calls
run-fifo_example = run-fifo calls

abbrev events : List Event
events = takes ∷ hands ∷ drops ∷ takes ∷ []

abbrev shared : RefCounter
shared = record { count = 2; yielded = 0 }
