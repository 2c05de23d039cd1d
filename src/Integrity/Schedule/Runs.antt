-- ===== src/Integrity/Schedule/Runs.antt =====
-- Every run of the scheduler keeps the order of each draw's scans and the bound on those that wait.
use competition_factory_serv.Prelude.{
  suc, ◌+◌, ◌≤◌, String, ◌==◌, eq_iff, ◌≡◌, refl, ap, ◌∙◌, Bool, false, not, ◌||◌, Option, none,
  some, some-injective, List, [], ◌∷◌, ◌++◌, arith, filter, includes, length, append_assoc,
  Bool-cases, Option-cases, inl, inr,
}
use competition_factory_serv.Integrity.Issues.{Inconsistency}
use competition_factory_serv.Integrity.Schedule.{
  ScanJob, key_of, Immediate, forget, scan, Scheduler, is_remembered, Seed, read_fails, answers,
  seed_draw, take_first, run_immediate, chain_turn, Event, batch, turn, read, chain, step, run,
  jobs_of, initial, max_pending_scans,
}
use competition_factory_serv.Integrity.Schedule.Order.{
  of_draw, InOrder, IsNext, schedule-InOrder, finish_scan-InOrder, run_scan-InOrder,
}

-- Taking a draw's first scan out of the list leaves the scans of every draw in their order.
record IsTaken (xs : List ScanJob) (j : ScanJob) (rest : List ScanJob) : Type 0 where
  split : (key : String) → of_draw key xs ≡ of_draw key (j ∷ []) ++ of_draw key rest
  shorter : length xs ≡ suc (length rest)

take_later :
    (x j : ScanJob) (xs rest : List ScanJob)
    → (key_of x == key_of j) ≡ false
    → IsTaken xs j rest
    → IsTaken (x ∷ xs) j (x ∷ rest)
take_later x j xs rest n t = record {
  split = λ key. ground (
    arith,
    t.split key,
    n,
    eq_iff (key_of x) key,
    eq_iff (key_of j) key,
    eq_iff (key_of x) (key_of j),
  );
  shorter = omega (arith, t.shorter);
}

take_first-IsTaken :
    (k : String) (xs : List ScanJob) (j : ScanJob) (rest : List ScanJob)
    → take_first k xs ≡ some (j, rest)
    → IsTaken xs j rest × (key_of j ≡ k)
unfolding take_first
take_first-IsTaken k [] j rest h = cc
take_first-IsTaken k (x ∷ xs) j rest h = elim (Bool-cases (key_of x == k)) [
  | inl e ↦
      let same : some (x, xs) ≡ some (j, rest) = rw e at h in
      let first : x ≡ j = ap (λ p. p.0) (some-injective _ _ same) in
      let tail : xs ≡ rest = ap (λ p. p.1) (some-injective _ _ same) in
      rw (← first, ← tail) (here x xs, (eq_iff (key_of x) k).0 e)
  | inr e ↦ elim (Option-cases (take_first k xs)) [
    | inl n ↦ cc (rw (e, n) at h)
    | inr ((i, is), n) ↦
        let same : some (i, x ∷ is) ≡ some (j, rest) = rw (e, n) at h in
        let first : i ≡ j = ap (λ p. p.0) (some-injective _ _ same) in
        let tail : x ∷ is ≡ rest = ap (λ p. p.1) (some-injective _ _ same) in
        let (taken, keyed) = take_first-IsTaken k xs i is n in
        rw (← first, ← tail) (take_later x i xs is (rw keyed e) taken, keyed)
  ]
]
  where
    here : (x : ScanJob) (xs : List ScanJob) → IsTaken (x ∷ xs) x xs
    here x xs = record { split = λ key. ground arith; shorter = omega arith }

chain_turn-IsNext :
    (s : Scheduler) (j : ScanJob) (rest : List ScanJob)
    → InOrder s
    → IsTaken s.waiting j rest
    → IsNext (record s { waiting = rest }) j
chain_turn-IsNext s j rest v t = record {
  ordered = λ key.
      v.ordered key
      ∙ rw
          (
            t.split key,
            append_assoc (of_draw key (j ∷ [])) (of_draw key rest)
                (of_draw key (jobs_of s.immediates)),
          )
          refl;
  counted = omega (arith, v.counted, t.shorter);
  total = v.total;
  bounded = v.bounded;
}

seed_draw-InOrder :
    (s : Scheduler) (key : String) (seed : Seed) → InOrder s → InOrder (seed_draw s key seed)
unfolding seed_draw
seed_draw-InOrder s key read_fails v = record {
  ordered = v.ordered;
  counted = v.counted;
  total = v.total;
  bounded = v.bounded;
}
seed_draw-InOrder s key (answers known found) v =
    elim (Bool-cases (not known || is_remembered s.scans.memory key)) [
      | inl h ↦ simp h v
      | inr h ↦ simp h (record {
        ordered = v.ordered;
        counted = v.counted;
        total = v.total;
        bounded = v.bounded;
      })
    ]

module _ (digest : String → String) (sink : Bool) (at_time : ScanJob → String)
    (answer : ScanJob → Option (List Inconsistency)) where
  run_immediate-InOrder :
      (s : Scheduler) (q : List Immediate)
      → s.immediates ≡ q
      → InOrder s
      → InOrder (run_immediate digest sink at_time answer s q)
  run_immediate-InOrder s [] e v = v
  run_immediate-InOrder s (forget tid draw ∷ rest) e v = record {
    ordered = rw e at v.ordered;
    counted = rw e at v.counted;
    total = v.total;
    bounded = v.bounded;
  }
  run_immediate-InOrder s (scan j ∷ rest) e v =
      run_scan-InOrder digest sink at_time answer s j rest e v

  chain_turn-InOrder :
      (s : Scheduler) (k : String) (o : Option (ScanJob × List ScanJob))
      → take_first k s.waiting ≡ o
      → InOrder s
      → InOrder (chain_turn digest sink at_time answer s o)
  chain_turn-InOrder s k none e v = v
  chain_turn-InOrder s k (some (j, rest)) e v =
      finish_scan-InOrder digest sink at_time answer (record s { waiting = rest }) j
        (chain_turn-IsNext s j rest v (take_first-IsTaken k s.waiting j rest e).0)

  step-InOrder :
      (s : Scheduler) (e : Event) → InOrder s → InOrder (step digest sink at_time answer s e)
  unfolding step
  step-InOrder s (batch deleted js) v = schedule-InOrder s deleted js v
  step-InOrder s turn v = run_immediate-InOrder s s.immediates refl v
  step-InOrder s (read key seed) v = elim (Bool-cases (includes s.reading key)) [
    | inl h ↦ simp h (
        seed_draw-InOrder (record s { reading = filter (λ k. not (k == key)) s.reading }) key seed
          (record {
            ordered = v.ordered;
            counted = v.counted;
            total = v.total;
            bounded = v.bounded;
          }))
    | inr h ↦ simp h v
  ]
  step-InOrder s (chain key) v = elim (Bool-cases (includes s.reading key)) [
    | inl h ↦ simp h v
    | inr h ↦ simp h (chain_turn-InOrder s key (take_first key s.waiting) refl v)
  ]

  run-InOrder :
      (s : Scheduler) (es : List Event) → InOrder s → InOrder (run digest sink at_time answer s es)
  unfolding run
  run-InOrder s [] v = v
  run-InOrder s (e ∷ es) v =
      run-InOrder (step digest sink at_time answer s e) es (step-InOrder s e v)

  initial-InOrder : InOrder initial
  initial-InOrder = record {
    ordered = λ key. refl;
    counted = omega arith;
    total = omega arith;
    bounded = omega arith;
  }

  -- However mutations, immediates and reads of the findings table interleave: the scans of a draw that
  -- have run, then those that wait behind its read, then those among the immediates are together the
  -- scans of that draw that were queued, in the order in which they were; the count of pending scans
  -- is that of the scans which have not run; and it never exceeds the bound.
  pub run_scans_in_order :
      (es : List Event) (key : String)
      → (of_draw key (run digest sink at_time answer initial es).accepted
          ≡ of_draw key (run digest sink at_time answer initial es).finished
            ++ (of_draw key (run digest sink at_time answer initial es).waiting
                ++ of_draw key (jobs_of (run digest sink at_time answer initial es).immediates)))
        × ((run digest sink at_time answer initial es).pending
            ≡ length (run digest sink at_time answer initial es).waiting
              + length (jobs_of (run digest sink at_time answer initial es).immediates))
        × (length (run digest sink at_time answer initial es).accepted
            ≡ length (run digest sink at_time answer initial es).finished
              + (run digest sink at_time answer initial es).pending)
        × ((run digest sink at_time answer initial es).pending ≤ max_pending_scans)
  run_scans_in_order es key =
      let v = run-InOrder initial es initial-InOrder in
      (v.ordered key, v.counted, v.total, v.bounded)
