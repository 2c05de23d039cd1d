-- ===== src/Integrity/Schedule/Order.antt =====
-- The scans of one draw run in the order in which they were queued, and no more than the bound wait.
use competition_factory_serv.Prelude.{
  suc, ◌+◌, ◌≤◌, String, ◌==◌, eq_iff, ◌≡◌, refl, sym, ap, ◌∙◌, Bool, false, not, ◌&&◌, Option,
  List, [], ◌∷◌, ◌++◌, arith, ltb, filter, length, append_assoc, append-nil, length-append,
  Bool-cases, inl, inr, ltb→lt,
}
use competition_factory_serv.Integrity.Issues.{Inconsistency}
use competition_factory_serv.Integrity.Schedule.{
  ScanJob, key_of, Immediate, forget, scan, Scheduler, queue_forgets, queue_scan, queue_scans,
  schedule, in_flight, is_remembered, finish_scan, run_scan, jobs_of, max_pending_scans,
}

abbrev pub of_draw : String → List ScanJob → List ScanJob
of_draw key js = filter (λ j. key_of j == key) js

-- The scans that are queued and have not run.
pub record InOrder (s : Scheduler) : Type 0 where
  pub ordered :
      (key : String)
      → of_draw key s.accepted
        ≡ of_draw key s.finished ++ (of_draw key s.waiting ++ of_draw key (jobs_of s.immediates))
  pub counted : s.pending ≡ length s.waiting + length (jobs_of s.immediates)
  pub total : length s.accepted ≡ length s.finished + s.pending
  pub bounded : s.pending ≤ max_pending_scans

of_draw-append :
    (key : String) (xs ys : List ScanJob)
    → of_draw key (xs ++ ys) ≡ of_draw key xs ++ of_draw key ys
of_draw-append key [] ys = refl
of_draw-append key (x ∷ xs) ys = ground (arith, of_draw-append key xs ys)

jobs_of-append : (q r : List Immediate) → jobs_of (q ++ r) ≡ jobs_of q ++ jobs_of r
jobs_of-append [] r = refl
jobs_of-append (forget tid draw ∷ q) r = jobs_of-append q r
jobs_of-append (scan j ∷ q) r = rw (jobs_of-append q r)

jobs_of-queue_forgets :
    (q : List Immediate) (deleted : List (Option String × String))
    → jobs_of (queue_forgets q deleted) ≡ jobs_of q
jobs_of-queue_forgets q [] = refl
jobs_of-queue_forgets q ((tid, draw) ∷ deleted) =
    jobs_of-queue_forgets (q ++ forget tid draw ∷ []) deleted
    ∙ (jobs_of-append q (forget tid draw ∷ []) ∙ append-nil (jobs_of q))

-- Lists in the three places, the new one after them or between them.
after : {A : Type 0} (a f w q x : List A) → a ≡ f ++ (w ++ q) → a ++ x ≡ f ++ (w ++ (q ++ x))
after a f w q x h = rw (h, append_assoc f (w ++ q) x, append_assoc w q x) refl

queue_scan-InOrder : (s : Scheduler) (j : ScanJob) → InOrder s → InOrder (queue_scan s j)
unfolding queue_scan
queue_scan-InOrder s j v = elim (Bool-cases (ltb s.pending max_pending_scans)) [
  | inl h ↦ simp h (record {
    ordered = λ key.
        rw
          (
            of_draw-append key s.accepted (j ∷ []),
            jobs_of-append s.immediates (scan j ∷ []),
            of_draw-append key (jobs_of s.immediates) (j ∷ []),
          )
          (after (of_draw key s.accepted) (of_draw key s.finished) (of_draw key s.waiting)
            (of_draw key (jobs_of s.immediates)) (of_draw key (j ∷ [])) (v.ordered key));
    counted = omega (
      arith,
      v.counted,
      length-append (jobs_of s.immediates) (j ∷ []),
      ap length (jobs_of-append s.immediates (scan j ∷ [])),
    );
    total = omega (arith, v.total, length-append s.accepted (j ∷ []));
    bounded = omega (arith, ltb→lt s.pending max_pending_scans h);
  })
  | inr h ↦
      simp h
        (record { ordered = v.ordered; counted = v.counted; total = v.total; bounded = v.bounded })
]

queue_scans-InOrder : (s : Scheduler) (js : List ScanJob) → InOrder s → InOrder (queue_scans s js)
unfolding queue_scans
queue_scans-InOrder s [] v = v
queue_scans-InOrder s (j ∷ js) v =
    queue_scans-InOrder (queue_scan s j) js (queue_scan-InOrder s j v)

pub schedule-InOrder :
    (s : Scheduler) (deleted : List (Option String × String)) (js : List ScanJob)
    → InOrder s
    → InOrder (schedule s deleted js)
unfolding schedule
schedule-InOrder s deleted js v =
    let same = jobs_of-queue_forgets s.immediates deleted in
    queue_scans-InOrder (record s { immediates = queue_forgets s.immediates deleted }) js
      (record {
        ordered = λ key. rw same (v.ordered key);
        counted = omega (arith, v.counted, ap length same);
        total = v.total;
        bounded = v.bounded;
      })

-- A scan that has left its place and is the next of its draw to run.
pub record IsNext (s : Scheduler) (j : ScanJob) : Type 0 where
  pub ordered :
      (key : String)
      → of_draw key s.accepted
        ≡ of_draw key s.finished
          ++ (of_draw key (j ∷ []) ++ (of_draw key s.waiting ++ of_draw key (jobs_of s.immediates)))
  pub counted : s.pending ≡ suc (length s.waiting + length (jobs_of s.immediates))
  pub total : length s.accepted ≡ length s.finished + s.pending
  pub bounded : s.pending ≤ max_pending_scans

module _ (digest : String → String) (sink : Bool) (at_time : ScanJob → String)
    (answer : ScanJob → Option (List Inconsistency)) where
  pub finish_scan-InOrder :
      (s : Scheduler) (j : ScanJob)
      → IsNext s j
      → InOrder (finish_scan digest sink at_time answer s j)
  finish_scan-InOrder s j v = record {
    ordered = λ key. rw (of_draw-append key s.finished (j ∷ [])) (
        v.ordered key
        ∙ sym (
            append_assoc (of_draw key s.finished) (of_draw key (j ∷ []))
              (of_draw key s.waiting ++ of_draw key (jobs_of s.immediates))));
    counted = omega (arith, v.counted);
    total = omega (arith, v.total, v.counted, length-append s.finished (j ∷ []));
    bounded = omega (arith, v.bounded);
  }

  none_waits :
      (waiting : List ScanJob) (key : String)
      → in_flight waiting key ≡ false
      → of_draw key waiting ≡ []
  none_waits [] key h = refl
  none_waits (w ∷ ws) key h = ground (arith, h, none_waits ws key)

  module _ (s : Scheduler) (j : ScanJob) (rest : List Immediate)
      (here : s.immediates ≡ scan j ∷ rest) (v : InOrder s) where
    popped :
        (key : String)
        → of_draw key s.accepted
          ≡ of_draw key s.finished
            ++ (of_draw key s.waiting ++ (of_draw key (j ∷ []) ++ of_draw key (jobs_of rest)))
    popped key = v.ordered key ∙ rw (here, of_draw-append key (j ∷ []) (jobs_of rest)) refl

    popped_count : s.pending ≡ suc (length s.waiting + length (jobs_of rest))
    popped_count = omega (arith, rw here at v.counted)

    -- The draw has a chain, or gets one: the scan joins its end.
    joined-InOrder :
        (reading : List String)
        → InOrder (record s { immediates = rest; waiting = s.waiting ++ j ∷ []; reading = reading })
    joined-InOrder reading = record {
      ordered = λ key.
          popped key
          ∙ rw
              (
                of_draw-append key s.waiting (j ∷ []),
                append_assoc (of_draw key s.waiting) (of_draw key (j ∷ []))
                    (of_draw key (jobs_of rest)),
              )
              refl;
      counted = omega (arith, popped_count, length-append s.waiting (j ∷ []));
      total = v.total;
      bounded = v.bounded;
    }

    -- No scan of its draw waits: it is the next to run.
    IsNext-of_none :
        in_flight s.waiting (key_of j) ≡ false → IsNext (record s { immediates = rest }) j
    IsNext-of_none n = record {
      ordered = λ key. popped key ∙ swapped key;
      counted = popped_count;
      total = v.total;
      bounded = v.bounded;
    }
      where
        swapped :
            (key : String)
            → of_draw key s.finished
                ++ (of_draw key s.waiting ++ (of_draw key (j ∷ []) ++ of_draw key (jobs_of rest)))
              ≡ of_draw key s.finished
                ++ (of_draw key (j ∷ []) ++ (of_draw key s.waiting ++ of_draw key (jobs_of rest)))
        swapped key = elim (Bool-cases (key_of j == key)) [
          | inl e ↦ rw (none_waits s.waiting key (rw (← (eq_iff (key_of j) key).0 e) n)) refl
          | inr e ↦ rw e refl
        ]

    pub run_scan-InOrder :
        InOrder (run_scan digest sink at_time answer (record s { immediates = rest }) j)
    unfolding run_scan
    run_scan-InOrder = elim (Bool-cases (in_flight s.waiting (key_of j))) [
      | inl h ↦ simp h (joined-InOrder s.reading)
      | inr h ↦
          elim (Bool-cases
            ((sink && not j.target.added) && not (is_remembered s.scans.memory (key_of j)))) [
              | inl g ↦ simp (h, g) (joined-InOrder (s.reading ++ key_of j ∷ []))
              | inr g ↦
                  simp (h, g)
                    (finish_scan-InOrder (record s { immediates = rest }) j (IsNext-of_none h))
            ]
    ]
