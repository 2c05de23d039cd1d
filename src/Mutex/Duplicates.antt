-- ===== src/Mutex/Duplicates.antt =====
-- What `withTournamentLock` of src/services/tournamentMutex.ts does with a list that names one
-- tournament twice. The list comes from the request's `tournamentIds`, and nothing removes duplicates.
use competition_factory_serv.Prelude.{
  ℕ, String, eq_iff, eq_refl, ◌≡◌, refl, ◌∙◌, Bool, true, false, Option, none, some, List, [], ◌∷◌,
  ◌++◌, arith, nat_eq, includes, All, Bool-cases, List-cases, inl, inr,
}
use competition_factory_serv.Mutex.Lock.{LockEntry, Locks, acquire, release, release_entry}
use competition_factory_serv.Mutex.Client.{
  Phase, idle, acquiring, waiting, running, releasing, done, System, Outcome, Event, call, advance,
  timeout, step, run, initial, after_acquire, after_release, advance_from, expire_from, call_from,
}
use competition_factory_serv.Mutex.Exclusion.{Inv}
use competition_factory_serv.Mutex.Exclusion.Steps.{run-Inv, step-Inv, initial-Inv}

-- The event is not the lock timeout of the call.
abbrev IsNotTimeout : ℕ → Event → Type 0
IsNotTimeout c (timeout d) = nat_eq c d ≡ false
IsNotTimeout c e = Unit {0}

module _ (sort : List String → List String) (s : System) (v : Inv s) (c : ℕ) (id : String)
    (sorted todo acquired : List String) (here : s.phase c ≡ waiting id sorted todo acquired)
    (own : includes acquired id ≡ true) where
  -- Whom a release by another call resolves: not the call that waits for its own lock.
  release_other :
      (d : ℕ) (j : String) (ids : List String) (outcome : Outcome)
      → s.phase d ≡ releasing (j ∷ ids) outcome
      → nat_eq c d ≡ false
      → (o : Option LockEntry) → s.locks j ≡ o
      → (after_release s d ids outcome (release_entry s.locks j o)).phase c ≡ s.phase c
  release_other d j ids outcome p n none l = ground arith
  release_other d j ids outcome p n (some e) l = elim (List-cases e.queue) [
    | inl q ↦ simp (q, n)
    | inr (x, xs, q) ↦
        ground
          (arith, q, here, p, n, own, v.queued j e c l, v.exclusive c d id, eq_iff id j, eq_iff j j)
  ]

  advance_other :
      (d : ℕ) (p : Phase)
      → s.phase d ≡ p
      → nat_eq c d ≡ false
      → (advance_from s d p).phase c ≡ s.phase c
  unfolding release
  advance_other d idle p n = refl
  advance_other d (acquiring all (j ∷ rest) taken) p n = after (acquire s.locks j d)
    where
      after : (r : Locks × Bool) → (after_acquire s d j all rest taken r).phase c ≡ s.phase c
      after (locks, b) = rw n refl
  advance_other d (acquiring all [] taken) p n = rw n refl
  advance_other d (waiting j all rest taken) p n = refl
  advance_other d (running all) p n = rw n refl
  advance_other d (releasing (j ∷ ids) outcome) p n =
      release_other d j ids outcome p n (s.locks j) refl
  advance_other d (releasing [] outcome) p n = rw n refl
  advance_other d (done outcome) p n = refl

  timeout_other : (d : ℕ) (p : Phase) → nat_eq c d ≡ false → (expire_from s d p).phase c ≡ s.phase c
  timeout_other d (waiting j all rest taken) n = rw n refl
  timeout_other d p n = refl

  call_other :
      (d : ℕ) (ids : List String) (p : Phase)
      → nat_eq c d ≡ false
      → (call_from sort s d ids p).phase c ≡ s.phase c
  call_other d ids idle n = rw n refl
  call_other d ids p n = refl

  step_keeps_waiting : (e : Event) → IsNotTimeout c e → (step sort s e).phase c ≡ s.phase c
  unfolding step
  step_keeps_waiting (call d ids) t = elim (Bool-cases (nat_eq c d)) [
    | inl n ↦ ground (arith, here)
    | inr n ↦ call_other d ids (s.phase d) n
  ]
  step_keeps_waiting (advance d) t = elim (Bool-cases (nat_eq c d)) [
    | inl n ↦ ground (arith, here)
    | inr n ↦ advance_other d (s.phase d) refl n
  ]
  step_keeps_waiting (timeout d) t = timeout_other d (s.phase d) t

run_keeps_waiting :
    (sort : List String → List String) (s : System) (es : List Event) (c : ℕ) (id : String)
    (sorted todo acquired : List String)
    → Inv s
    → s.phase c ≡ waiting id sorted todo acquired
    → includes acquired id ≡ true
    → All (IsNotTimeout c) es
    → (run sort s es).phase c ≡ waiting id sorted todo acquired
unfolding run
run_keeps_waiting sort s [] c id sorted todo acquired v h own t = h
run_keeps_waiting sort s (e ∷ es) c id sorted todo acquired v h own (t, ts) =
    run_keeps_waiting sort (step sort s e) es c id sorted todo acquired (step-Inv sort s e v)
      (step_keeps_waiting sort s v c id sorted todo acquired h own e t ∙ h) own ts

run-concat :
    (sort : List String → List String) (s : System) (es fs : List Event)
    → run sort s (es ++ fs) ≡ run sort (run sort s es) fs
unfolding run
run-concat sort s [] fs = refl
run-concat sort s (e ∷ es) fs = run-concat sort (step sort s e) es fs

-- The call's first steps: it takes the lock, and queues behind itself.
enter :
    (sort : List String → List String) (s : System) (c : ℕ) (id : String) (ids rest : List String)
    → s.phase c ≡ idle
    → s.locks id ≡ none
    → sort ids ≡ id ∷ id ∷ rest
    → (run sort s (call c ids ∷ advance c ∷ advance c ∷ [])).phase c
      ≡ waiting id (id ∷ id ∷ rest) rest (id ∷ [])
unfolding run step acquire
enter sort s c id ids rest i f d = ground (arith, eq_iff id id)

-- A call that finds the lock of a tournament free, and whose sorted list begins with that
-- tournament twice, takes the lock and then waits for it: whatever happens afterwards, short of its
-- own lock timeout, it still holds the lock and still waits for the same lock.
pub run_waits_for_itself :
    (sort : List String → List String) (before after : List Event) (c : ℕ) (id : String)
    (ids rest : List String)
    → (run sort initial before).phase c ≡ idle
    → (run sort initial before).locks id ≡ none
    → sort ids ≡ id ∷ id ∷ rest
    → All (IsNotTimeout c) after
    → (run sort (run sort initial before) (call c ids ∷ advance c ∷ advance c ∷ after)).phase c
      ≡ waiting id (id ∷ id ∷ rest) rest (id ∷ [])
run_waits_for_itself sort before after c id ids rest i f d t =
    let s = run sort initial before in
    let start = call c ids ∷ advance c ∷ advance c ∷ [] in
    rw (run-concat sort s start after) (
      run_keeps_waiting sort (run sort s start) after c id (id ∷ id ∷ rest) rest (id ∷ [])
        (run-Inv sort s start (run-Inv sort initial before initial-Inv))
        (enter sort s c id ids rest i f d) (rw (eq_refl id) refl) t)
