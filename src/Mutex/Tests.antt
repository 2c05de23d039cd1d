-- ===== src/Mutex/Tests.antt =====
-- Concrete histories of calls at which the theorems on the lock apply.
use competition_factory_serv.Prelude.{ℕ, String, ◌≡◌, refl, true, none, List, [], ◌∷◌}
use competition_factory_serv.Mutex.Lock.{acquire, is_tournament_locked}
use competition_factory_serv.Mutex.Client.{
  idle, waiting, running, Event, call, advance, step, run, initial,
}
use competition_factory_serv.Mutex.Exclusion.Steps.{run_mutual_exclusion}
use competition_factory_serv.Mutex.Order.{Chain, run_no_deadlock}
use competition_factory_serv.Mutex.Sorted.{
  insert_sorted, insertion_sort, by_text, insertion_sort-Sorts,
}
use competition_factory_serv.Mutex.TextOrder.{text_lt}
use competition_factory_serv.Mutex.Duplicates.{run_waits_for_itself}

-- Two calls, each of two tournaments: the first runs and the second waits for a lock of the first.
abbrev history : List Event
history =
    call 1 ("a" ∷ "b" ∷ [])
    ∷ call 2 ("b" ∷ "c" ∷ [])
    ∷ advance 1
    ∷ advance 1
    ∷ advance 1
    ∷ advance 2
    ∷ []

first_runs : (run insertion_sort initial history).phase 1 ≡ running ("a" ∷ "b" ∷ [])
unfolding run step acquire insertion_sort insert_sorted text_lt
first_runs = refl

second_waits :
    (run insertion_sort initial history).phase 2 ≡ waiting "b" ("b" ∷ "c" ∷ []) ("c" ∷ []) []
unfolding run step acquire insertion_sort insert_sorted text_lt
second_waits = refl

abbrev first_call : ℕ
first_call = 1

run_mutual_exclusion_example :
    (first_call ≡ first_call)
    × (is_tournament_locked (run insertion_sort initial history).locks "b" ≡ true)
run_mutual_exclusion_example =
    run_mutual_exclusion insertion_sort history 1 1 ("a" ∷ "b" ∷ []) ("a" ∷ "b" ∷ []) "b" first_runs
      first_runs refl refl

-- Each of the calls names distinct ids, so neither waits for itself through the other.
run_no_deadlock_example : ¬ Chain by_text (run insertion_sort initial history) 2 2
run_no_deadlock_example =
    run_no_deadlock by_text insertion_sort-Sorts history
      ((refl, (refl, tt)), ((refl, (refl, tt)), (tt, (tt, (tt, (tt, tt)))))) 2

sorts_twice : insertion_sort ("b" ∷ "a" ∷ "a" ∷ []) ≡ "a" ∷ "a" ∷ "b" ∷ []
unfolding insertion_sort insert_sorted text_lt
sorts_twice = refl

abbrev twice : List String
twice = "b" ∷ "a" ∷ "a" ∷ []

idle_at_first : (run insertion_sort initial []).phase 1 ≡ idle
unfolding run
idle_at_first = refl

free_at_first : (run insertion_sort initial []).locks "a" ≡ none
unfolding run
free_at_first = refl

run_waits_for_itself_example :
    (run insertion_sort (run insertion_sort initial []) (
        call 1 twice
        ∷ advance 1
        ∷ advance 1
        ∷ (advance 1 ∷ call 2 ("a" ∷ []) ∷ advance 2 ∷ []))).phase
      1
    ≡ waiting "a" ("a" ∷ "a" ∷ "b" ∷ []) ("b" ∷ []) ("a" ∷ [])
run_waits_for_itself_example =
    run_waits_for_itself insertion_sort [] (advance 1 ∷ call 2 ("a" ∷ []) ∷ advance 2 ∷ []) 1 "a"
      twice ("b" ∷ []) idle_at_first free_at_first sorts_twice (tt, (tt, (tt, tt)))
