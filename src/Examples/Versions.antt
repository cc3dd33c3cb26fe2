-- ===== src/Examples/Versions.antt =====
-- Runs of the version chains of src/HBTrie/bnode.c and of the leaf entries of src/HBTrie/hbtrie.c.
use wave_db.Base.{ℕ, ◌≡◌, refl, inr, true, false, none, some, List, [], ◌∷◌, if◌then◌else◌}
use wave_db.TransactionId
use wave_db.TransactionId.{TransactionId, is_le}
use wave_db.VersionChain.{VersionEntry, create, find_visible, gc, walk_chain, sweep}
use wave_db.VersionChain.Visibility.{find_visible-latest, latest, undeleted}
use wave_db.VersionChain.Gc.{find_visible-gc, find_visible-gc_lost}
use wave_db.LeafEntry
use wave_db.LeafEntry.{LeafEntry, no_value, legacy, versioned}
use wave_db.LeafEntry.Reads.{snapshot, is_caught, read-insert, read-delete, read-insert_refused}
use wave_db.LeafEntry.Collected.{read_left, read-gc}

abbrev id : ℕ → TransactionId
id time = record { time = time; nanos = 0; count = 0 }

abbrev version : ℕ → ℕ → VersionEntry ℕ
version time value = create (id time) (some value) false

abbrev old_entry : LeafEntry ℕ
old_entry = legacy (some 7) (id 5)

abbrev three : List (VersionEntry ℕ)
three = version 30 300 ∷ version 20 200 ∷ version 10 100 ∷ []

reads_between : find_visible three (id 25) ≡ some (version 20 200)
unfolding find_visible walk_chain TransactionId.compare
reads_between = refl

collects_two : gc three (id 25) ≡ (version 30 300 ∷ [], 2)
unfolding gc sweep TransactionId.compare
collects_two = refl

find_visible-latest_example : find_visible three (id 25) ≡ undeleted (latest three (id 25))
unfolding TransactionId.compare
find_visible-latest_example =
    find_visible-latest three (id 25) ((refl, (refl, tt)), ((refl, tt), (tt, tt)))

find_visible-gc_example : find_visible (gc three (id 15)).0 (id 25) ≡ find_visible three (id 25)
unfolding TransactionId.compare
find_visible-gc_example =
    find_visible-gc (version 30 300) (version 20 200 ∷ version 10 100 ∷ []) (id 15) (id 25)
      (inr refl)

-- The reader at 25 is active, and the collection at its own identifier takes its version.
find_visible-gc_lost_example :
    (gc three (id 25) ≡ (version 30 300 ∷ [], 2))
    × (find_visible (gc three (id 25)).0 (id 25) ≡ none)
unfolding TransactionId.compare
find_visible-gc_lost_example =
    find_visible-gc_lost (version 30 300) (version 20 200 ∷ version 10 100 ∷ []) (id 25) (id 25)
      refl (refl, (refl, tt))

read-gc_example :
    read_left (LeafEntry.gc (versioned three) (id 15)).0 (id 25)
    ≡ LeafEntry.read (versioned three) (id 25)
unfolding TransactionId.compare
read-gc_example = read-gc (versioned three) (id 15) (id 25) (inr refl)

read-insert_example :
    LeafEntry.read (LeafEntry.insert true true old_entry (id 9) 8).0 (id 6)
    ≡ (if is_le (TransactionId.compare (id 9) (id 6)) then some 8 else snapshot old_entry (id 6))
read-insert_example = read-insert old_entry (id 9) (id 6) 8 (λ e. cc)

read-delete_example :
    ((LeafEntry.delete true true old_entry (id 9)).1 ≡ LeafEntry.read old_entry (id 9))
    × (LeafEntry.read (LeafEntry.delete true true old_entry (id 9)).0 (id 6)
        ≡ (if is_le (TransactionId.compare (id 9) (id 6)) then none else snapshot old_entry (id 6)))
read-delete_example = read-delete old_entry (id 9) (id 6) (λ e. cc) (λ i e. cc)

read-insert_refused_example :
    LeafEntry.read (LeafEntry.insert true false old_entry (id 9) 8).0 (id 6)
    ≡ (if is_caught true old_entry then none else LeafEntry.read old_entry (id 6))
unfolding LeafEntry.insert
read-insert_refused_example = read-insert_refused true false old_entry (id 9) (id 6) 8 refl
