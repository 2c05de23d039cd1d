-- ===== src/Mutex/Exclusion/Steps.antt =====
-- The invariant holds after every history, so that no two calls run under one lock.
use mathlib.Core.List.{append-nil}
use competition_factory_serv.Prelude.{
  ℕ, String, eq_iff, eq_refl, ◌≡◌, refl, sym, ◌∙◌, Bool, true, false, not, if◌then◌else◌, none,
  some, List, [], ◌∷◌, ◌++◌, arith, nat_eq, includes, Option-cases, inl, inr,
}
use competition_factory_serv.Mutex.Lock.{
  LockEntry, Locks, put, acquire, release, expire, is_tournament_locked, release_queue,
}
use competition_factory_serv.Mutex.Client.{
  Phase, idle, acquiring, waiting, running, releasing, done, System, set_phase, Outcome, timed_out,
  settled, woken, Event, call, advance, timeout, step, run, initial, after_acquire, after_release,
  advance_from, expire_from, call_from,
}
use competition_factory_serv.Mutex.Exclusion.{held, awaits, member, Inv, waiting_of_awaits}
use competition_factory_serv.Mutex.Exclusion.Acquire.{taken-Inv, enqueued-Inv}
use competition_factory_serv.Mutex.Exclusion.Release.{freed-Inv, handed-Inv}
use competition_factory_serv.Mutex.Exclusion.Expire.{relabel-Inv, expired-Inv}

if_not-true {ℓ} : {A : Type ℓ} (b : Bool) (x y : A) → b ≡ true → (if not b then x else y) ≡ y
if_not-true true x y h = refl
if_not-true false x y h = cc

-- A lock that is held is joined at the end of its queue; one without an entry is taken.
pub acquire-busy :
    (locks : Locks) (id : String) (c : ℕ) (e : LockEntry)
    → locks id ≡ some e
    → e.active ≡ true
    → acquire locks id c ≡ (put locks id (some (record e { queue = e.queue ++ c ∷ [] })), false)
unfolding acquire
acquire-busy locks id c e b a = rw b (if_not-true e.active _ _ a)

pub acquire-free :
    (locks : Locks) (id : String) (c : ℕ)
    → locks id ≡ none
    → acquire locks id c ≡ (put locks id (some (record { queue = []; active = true })), true)
unfolding acquire
acquire-free locks id c f = rw f refl

module _ (s : System) (v : Inv s) (c : ℕ) where
  acquire-Inv :
      (id : String) (sorted todo acquired : List String)
      → s.phase c ≡ acquiring sorted (id ∷ todo) acquired
      → Inv (after_acquire s c id sorted todo acquired (acquire s.locks id c))
  acquire-Inv id sorted todo acquired here = elim (Option-cases (s.locks id)) [
    | inl free ↦
        rw (acquire-free s.locks id c free) (taken-Inv s c id sorted todo acquired v here free)
    | inr (e, busy) ↦
        rw (acquire-busy s.locks id c e busy (v.active id e busy))
          (enqueued-Inv s c id sorted todo acquired v here e busy)
  ]

  unheld :
      (id : String) (ids : List String) (outcome : Outcome)
      → s.phase c ≡ releasing (id ∷ ids) outcome
      → s.locks id ≡ none
      → ⊥
  unfolding is_tournament_locked
  unheld id ids outcome here free = ground (arith, here, free, eq_refl id, v.owned c id)

  woken_waiter :
      (ids : List String) (outcome : Outcome) (n : ℕ) (id : String)
      (sorted todo acquired : List String)
      → nat_eq n c ≡ false
      → s.phase n ≡ waiting id sorted todo acquired
      → woken (set_phase s.phase c (releasing ids outcome) n)
        ≡ acquiring sorted todo (acquired ++ id ∷ [])
  woken_waiter ids outcome n id sorted todo acquired apart waits = simp (apart, waits)

  -- The loop that has nothing left to take holds all the ids.
  finished :
      (sorted acquired : List String)
      → s.phase c ≡ acquiring sorted [] acquired
      → sorted ≡ held (s.phase c)
  finished sorted acquired here =
      let whole : acquired ++ [] ≡ sorted = rw here at (v.whole c) in
      rw here (sym whole ∙ append-nil acquired)

  release_queue-Inv :
      (id : String) (ids : List String) (outcome : Outcome)
      → s.phase c ≡ releasing (id ∷ ids) outcome
      → (e : LockEntry) → s.locks id ≡ some e
      → (queue : List ℕ) → e.queue ≡ queue
      → Inv (after_release s c ids outcome (release_queue s.locks id e queue))
  release_queue-Inv id ids outcome here e busy [] q = freed-Inv s c id ids outcome v here e busy q
  release_queue-Inv id ids outcome here e busy (n ∷ rest) q =
      let (sorted, todo, acquired, waits) =
        waiting_of_awaits (s.phase n) id (v.queued id e n busy (ground (arith, q))) in
      rw (woken_waiter ids outcome n id sorted todo acquired (ground (arith, here, waits)) waits)
        (handed-Inv s c id ids outcome v here e busy n rest q sorted todo acquired waits)

  release-Inv :
      (id : String) (ids : List String) (outcome : Outcome)
      → s.phase c ≡ releasing (id ∷ ids) outcome
      → Inv (after_release s c ids outcome (release s.locks id))
  unfolding release
  release-Inv id ids outcome here = elim (Option-cases (s.locks id)) [
    | inl free ↦ absurd (unheld id ids outcome here free)
    | inr (e, busy) ↦ rw busy (release_queue-Inv id ids outcome here e busy e.queue refl)
  ]

  expire-Inv :
      (id : String) (sorted todo acquired : List String)
      → s.phase c ≡ waiting id sorted todo acquired
      → Inv (expire_from s c (waiting id sorted todo acquired))
  unfolding expire
  expire-Inv id sorted todo acquired here = elim (Option-cases (s.locks id)) [
    | inl free ↦ rw free (
        relabel-Inv s v c (releasing acquired timed_out) (simp here)
          (λ j e b m. ground (arith, here, free, v.queued j e c b m, eq_iff id j)) tt)
    | inr (e, busy) ↦ rw busy (expired-Inv s v c id sorted todo acquired here e busy)
  ]

  -- A call that waits for nothing is in no queue.
  unqueued :
      ((j : String) → awaits (s.phase c) j ≡ false)
      → (p : Phase) (j : String) (e : LockEntry) → s.locks j ≡ some e
      → member e.queue c ≡ true
      → awaits p j ≡ true
  unqueued w p j e b m = ground (arith, w j, v.queued j e c b m)

  advance-Inv : (p : Phase) → s.phase c ≡ p → Inv (advance_from s c p)
  advance-Inv idle here = v
  advance-Inv (acquiring sorted (id ∷ todo) acquired) here =
      acquire-Inv id sorted todo acquired here
  advance-Inv (acquiring sorted [] acquired) here =
      relabel-Inv s v c (running sorted) (finished sorted acquired here)
        (unqueued (λ j. simp here) (running sorted)) tt
  advance-Inv (waiting id sorted todo acquired) here = v
  advance-Inv (running sorted) here =
      relabel-Inv s v c (releasing sorted settled) (simp here)
        (unqueued (λ j. simp here) (releasing sorted settled)) tt
  advance-Inv (releasing (id ∷ ids) outcome) here = release-Inv id ids outcome here
  advance-Inv (releasing [] outcome) here =
      relabel-Inv s v c (done outcome) (simp here) (unqueued (λ j. simp here) (done outcome)) tt
  advance-Inv (done outcome) here = v

  timeout-Inv : (p : Phase) → s.phase c ≡ p → Inv (expire_from s c p)
  timeout-Inv (waiting id sorted todo acquired) here = expire-Inv id sorted todo acquired here
  timeout-Inv p here = v

  call-Inv :
      (sort : List String → List String) (ids : List String) (p : Phase)
      → s.phase c ≡ p
      → Inv (call_from sort s c ids p)
  call-Inv sort ids idle here =
      relabel-Inv s v c (acquiring (sort ids) (sort ids) []) (simp here)
        (unqueued (λ j. simp here) (acquiring (sort ids) (sort ids) [])) refl
  call-Inv sort ids p here = v

pub step-Inv :
    (sort : List String → List String) (s : System) (e : Event) → Inv s → Inv (step sort s e)
unfolding step
step-Inv sort s (call c ids) v = call-Inv s v c sort ids (s.phase c) refl
step-Inv sort s (advance c) v = advance-Inv s v c (s.phase c) refl
step-Inv sort s (timeout c) v = timeout-Inv s v c (s.phase c) refl

pub initial-Inv : Inv initial
initial-Inv = record {
  exclusive = λ c d id h k. cc;
  owned = λ c id h. cc;
  active = λ id e h. cc;
  queued = λ id e n h m. cc;
  distinct = λ id e h. absurd (cc);
  once = λ c. tt;
  whole = λ c. tt;
}

pub run-Inv :
    (sort : List String → List String) (s : System) (es : List Event) → Inv s → Inv (run sort s es)
unfolding run
run-Inv sort s [] v = v
run-Inv sort s (e ∷ es) v = run-Inv sort (step sort s e) es (step-Inv sort s e v)

-- However calls, their steps and their timeouts interleave, and whatever ids they name, two calls
-- that run their functions at the same time have no tournament in common, unless they are one call;
-- and each tournament of a running call is reported as locked.
pub run_mutual_exclusion :
    (sort : List String → List String) (es : List Event) (c d : ℕ) (ids js : List String)
    (id : String)
    → (run sort initial es).phase c ≡ running ids
    → (run sort initial es).phase d ≡ running js
    → includes ids id ≡ true
    → includes js id ≡ true
    → (c ≡ d) × (is_tournament_locked (run sort initial es).locks id ≡ true)
run_mutual_exclusion sort es c d ids js id p q h k =
    let v = run-Inv sort initial es initial-Inv in
    (v.exclusive c d id (rw p h) (rw q k), v.owned c id (rw p h))
