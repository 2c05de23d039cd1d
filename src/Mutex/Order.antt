-- ===== src/Mutex/Order.antt =====
-- Taking the locks in sorted order leaves no circle of calls that wait for one another.
use competition_factory_serv.Prelude.{
  ℕ, String, ◌==◌, eq_iff, ◌≡◌, sym, Bool, true, false, Option, none, some, List, [], ◌∷◌, ◌++◌,
  arith, includes, All, subst, Bool-cases, inl, inr,
}
use competition_factory_serv.Mutex.Lock.{Locks, acquire, release}
use competition_factory_serv.Mutex.Client.{
  Phase, idle, acquiring, waiting, running, releasing, done, System, set_phase, settled, timed_out,
  Event, call, advance, timeout, step, run, initial, woken, wake, after_acquire, advance_from,
  expire_from, call_from,
}
use competition_factory_serv.Mutex.Exclusion.{held, IsDistinctTexts, IsWhole, set_phase-all}
use competition_factory_serv.Mutex.Exclusion.Steps.{run-Inv, initial-Inv}

All-at : (P : String → Type 0) (xs ys : List String) (y : String) → All P (xs ++ y ∷ ys) → P y
All-at P [] ys y h = h.0
All-at P (x ∷ xs) ys y h = All-at P xs ys y h.1

-- The order that `sort` sorts by, and what sorting promises: distinct ids come out ascending.
pub record Sorting : Type 1 where
  pub lt : String → String → Type 0
  pub lt_trans : (a b c : String) → lt a b → lt b c → lt a c
  pub lt_irrefl : (a : String) → lt a a → ⊥
  pub sort : List String → List String

module _ (o : Sorting) where
  open o use {lt, lt_trans, lt_irrefl, sort}

  abbrev pub IsAscending : List String → Type 0
  IsAscending [] = Unit {0}
  IsAscending (x ∷ xs) = All (lt x) xs × IsAscending xs

  abbrev HasAscending : Phase → Type 0
  HasAscending (acquiring sorted todo acquired) = IsAscending sorted
  HasAscending (waiting id sorted todo acquired) = IsAscending sorted
  HasAscending p = Unit {0}

  -- No call of a history names an id twice.
  abbrev pub NamesDistinct : Event → Type 0
  NamesDistinct (call c ids) = IsDistinctTexts ids
  NamesDistinct e = Unit {0}

  HasAscending-woken : (p : Phase) → HasAscending p → HasAscending (woken p)
  HasAscending-woken (waiting id sorted todo acquired) h = h
  HasAscending-woken idle h = h
  HasAscending-woken (acquiring sorted todo acquired) h = h
  HasAscending-woken (running sorted) h = h
  HasAscending-woken (releasing ids outcome) h = h
  HasAscending-woken (done outcome) h = h

  HasAscending-wake :
      (phase : ℕ → Phase) (n : Option ℕ)
      → ((d : ℕ) → HasAscending (phase d))
      → (d : ℕ) → HasAscending (wake phase n d)
  HasAscending-wake phase none h = h
  HasAscending-wake phase (some n) h =
      set_phase-all HasAscending phase n _ (HasAscending-woken (phase n) (h n)) h

  abbrev AllAscending : System → Type 0
  AllAscending s = (d : ℕ) → HasAscending (s.phase d)

  -- A list split at an element: what stands before it is below it.
  ascending_split :
      (xs ys : List String) (y x : String)
      → IsAscending (xs ++ y ∷ ys)
      → includes xs x ≡ true
      → lt x y
  ascending_split [] ys y x h i = cc
  ascending_split (z ∷ xs) ys y x (a, h) i = elim (Bool-cases (z == x)) [
    | inl e ↦ rw (← (eq_iff z x).0 e) (All-at (λ w. lt z w) xs ys y a)
    | inr e ↦ ascending_split xs ys y x h (ground (arith, e, i))
  ]

  -- The documented behaviour of the sort: distinct ids come out ascending.
  abbrev pub Sorts : Type 0
  Sorts = (ids : List String) → IsDistinctTexts ids → IsAscending (sort ids)

  module _ (sorts : Sorts) (s : System) (h : AllAscending s) (c : ℕ) where
    after_acquire-ascending :
        (id : String) (sorted todo acquired : List String) (r : Locks × Bool)
        → IsAscending sorted
        → AllAscending (after_acquire s c id sorted todo acquired r)
    after_acquire-ascending id sorted todo acquired (locks, true) a =
        set_phase-all HasAscending s.phase c _ a h
    after_acquire-ascending id sorted todo acquired (locks, false) a =
        set_phase-all HasAscending s.phase c _ a h

    advance-ascending : (p : Phase) → HasAscending p → AllAscending (advance_from s c p)
    advance-ascending idle a = h
    advance-ascending (acquiring sorted (id ∷ todo) acquired) a =
        after_acquire-ascending id sorted todo acquired (acquire s.locks id c) a
    advance-ascending (acquiring sorted [] acquired) a =
        set_phase-all HasAscending s.phase c (running sorted) tt h
    advance-ascending (waiting id sorted todo acquired) a = h
    advance-ascending (running sorted) a =
        set_phase-all HasAscending s.phase c (releasing sorted settled) tt h
    advance-ascending (releasing (id ∷ ids) outcome) a =
        HasAscending-wake (set_phase s.phase c (releasing ids outcome)) (release s.locks id).1
          (set_phase-all HasAscending s.phase c (releasing ids outcome) tt h)
    advance-ascending (releasing [] outcome) a =
        set_phase-all HasAscending s.phase c (done outcome) tt h
    advance-ascending (done outcome) a = h

    timeout-ascending : (p : Phase) → AllAscending (expire_from s c p)
    timeout-ascending (waiting id sorted todo acquired) =
        set_phase-all HasAscending s.phase c (releasing acquired timed_out) tt h
    timeout-ascending p = h

    call-ascending :
        (ids : List String) (p : Phase)
        → IsDistinctTexts ids
        → AllAscending (call_from sort s c ids p)
    call-ascending ids idle d = set_phase-all HasAscending s.phase c _ (sorts ids d) h
    call-ascending ids p d = h

  step-ascending :
      Sorts
      → (s : System) (e : Event) → NamesDistinct e
      → AllAscending s
      → AllAscending (step sort s e)
  unfolding step
  step-ascending sorts s (call c ids) d h = call-ascending sorts s h c ids (s.phase c) d
  step-ascending sorts s (advance c) d h = advance-ascending sorts s h c (s.phase c) (h c)
  step-ascending sorts s (timeout c) d h = timeout-ascending sorts s h c (s.phase c)

  run-ascending :
      Sorts
      → (s : System) (es : List Event) → All NamesDistinct es
      → AllAscending s
      → AllAscending (run sort s es)
  unfolding run
  run-ascending sorts s [] d h = h
  run-ascending sorts s (e ∷ es) (d, ds) h =
      run-ascending sorts (step sort s e) es ds (step-ascending sorts s e d h)

  -- One call waits for a lock that the other holds.
  pub record Blocks (s : System) (c d : ℕ) : Type 0 where
    pub id : String
    pub sorted : List String
    pub todo : List String
    pub acquired : List String
    pub waits : s.phase c ≡ waiting id sorted todo acquired
    pub holds : includes (held (s.phase d)) id ≡ true

  -- A chain of calls, each of which waits for the next.
  pub data Chain (s : System) : ℕ → ℕ → Type 0 where
    one : {c d : ℕ} → Blocks s c d → Chain s c d
    more : {c d e : ℕ} → Blocks s c d → Chain s d e → Chain s c e

  -- In one call, a lock that it holds is below the one that it waits for.
  held_below :
      (s : System) (c : ℕ) (id j : String) (sorted todo acquired : List String)
      → s.phase c ≡ waiting id sorted todo acquired
      → IsWhole (s.phase c)
      → HasAscending (s.phase c)
      → includes (held (s.phase c)) j ≡ true
      → lt j id
  held_below s c id j sorted todo acquired w whole a h =
      let split : acquired ++ id ∷ todo ≡ sorted = rw w at whole in
      let ascending : IsAscending sorted = rw w at a in
      ascending_split acquired todo id j (subst IsAscending (sym split) ascending) (rw w at h)

  abbrev head : {s : System} {c d : ℕ} → Chain s c d → (e : ℕ) × Blocks s c e
  head (one b) = (_, b)
  head (more b k) = (_, b)

  module _ (s : System) (whole : (c : ℕ) → IsWhole (s.phase c)) (ascending : AllAscending s) where
    blocked_below : (c d e : ℕ) (lower : Blocks s c d) (upper : Blocks s d e) → lt lower.id upper.id
    blocked_below c d e lower upper =
        held_below s d upper.id lower.id upper.sorted upper.todo upper.acquired upper.waits
          (whole d) (ascending d) lower.holds

    chain_below : (c d e : ℕ) (k : Chain s c d) (b : Blocks s d e) → lt (head k).1.id b.id
    chain_below c d e (one lower) b = blocked_below c d e lower b
    chain_below c d e (more {d = x} lower k) b =
        lt_trans lower.id (head k).1.id b.id (blocked_below c x (head k).0 lower (head k).1)
          (chain_below x d e k b)

  -- Where the sort orders distinct ids by a strict order and no call names an id twice, no
  -- interleaving of calls, steps and timeouts reaches a circle of calls each of which waits for a
  -- lock that the next one holds; a call does not wait for itself either.
  pub run_no_deadlock :
      (sorts : Sorts) (es : List Event)
      → All NamesDistinct es
      → (c : ℕ) → ¬ Chain (run sort initial es) c c
  run_no_deadlock sorts es d c k =
      let s = run sort initial es in
      lt_irrefl (head k).1.id (
        chain_below s (run-Inv sort initial es initial-Inv).whole
          (run-ascending sorts initial es d (λ _. tt)) c c (head k).0 k (head k).1)
