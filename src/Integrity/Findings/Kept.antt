-- ===== src/Integrity/Findings/Kept.antt =====
-- No row that the findings service accepts is lost or overtaken.
use competition_factory_serv.Prelude.{
  ◌+◌, ◌-◌, ◌≤◌, ◌≡◌, refl, sym, ap, ◌∙◌, subst, Bool, true, false, Option, none, some, List, [],
  ◌∷◌, ◌++◌, arith, length, take, append_assoc, append-nil, length-append, take-append-drop,
  length-take, length-drop, Sublist, sublist_append, sublist_refl, sublist_take, sublist_trans,
  sublist_whole, Bool-cases, inl, inr,
}
use competition_factory_serv.Integrity.Issues.{FindingRow}
use competition_factory_serv.Integrity.Findings.{
  max_queued_finding_rows, max_finding_rows_per_write, Service, accept, record_rows, drain_from,
  drain, flush, append_succeeds, append_fails, settle, Event, rows_arrive, flush_due, retry_due,
  load, append_ok, append_rejected, settled, destroy, step, run, initial, rows_of, offered,
}

abbrev pub batch_of : Option (List FindingRow) → List FindingRow
batch_of none = []
batch_of (some rows) = rows

-- The rows in the table, then those under way, then those that wait.
abbrev pub kept_rows : Service → List FindingRow
kept_rows s = s.stored ++ (batch_of s.writing ++ s.queue)

pub record Kept (o : List FindingRow) (s : Service) : Type 0 where
  pub ordered : Sublist (kept_rows s) o
  pub counted :
      length o ≡ length s.stored + (length (batch_of s.writing) + length s.queue) + s.dropped
  pub bounded : length s.queue ≤ max_queued_finding_rows
  pub tallied : s.written ≡ length s.stored
  pub alone : s.flushing ≡ false → s.writing ≡ none

accept-Kept :
    (o rows taken : List FindingRow) (s : Service)
    → Kept o s
    → Sublist taken rows
    → length taken ≤ max_queued_finding_rows - length s.queue
    → length taken ≤ length rows
    → Kept (o ++ rows) (accept s (length rows - length taken) taken)
accept-Kept o rows [] s k sub fits short = record {
  ordered =
      subst (λ l. Sublist l (o ++ rows)) (append-nil (kept_rows s))
        (sublist_append (kept_rows s) o [] rows k.ordered tt);
  counted = omega (arith, k.counted, length-append o rows);
  bounded = k.bounded;
  tallied = k.tallied;
  alone = k.alone;
}
accept-Kept o rows (r ∷ rs) s k sub fits short = record {
  ordered =
      subst (λ l. Sublist l (o ++ rows))
        (append_assoc s.stored (batch_of s.writing ++ s.queue) (r ∷ rs)
          ∙ rw (append_assoc (batch_of s.writing) s.queue (r ∷ rs)) refl)
        (sublist_append (kept_rows s) o (r ∷ rs) rows k.ordered sub);
  counted = omega (arith, k.counted, length-append o rows, length-append s.queue (r ∷ rs), short);
  bounded = omega (arith, k.bounded, fits, length-append s.queue (r ∷ rs));
  tallied = k.tallied;
  alone = k.alone;
}

record_rows-Kept :
    (o rows : List FindingRow) (s : Service) (off : Bool)
    → Kept o s
    → Kept (o ++ rows_of (rows_arrive off rows)) (record_rows s off rows)
unfolding record_rows
record_rows-Kept o [] s true k = subst (λ l. Kept l s) (sym (append-nil o)) k
record_rows-Kept o (r ∷ rs) s true k = subst (λ l. Kept l s) (sym (append-nil o)) k
record_rows-Kept o [] s false k = subst (λ l. Kept l s) (sym (append-nil o)) k
record_rows-Kept o (r ∷ rs) s false k =
    accept-Kept o (r ∷ rs) (take (max_queued_finding_rows - length s.queue) (r ∷ rs)) s k
      (sublist_take (max_queued_finding_rows - length s.queue) (r ∷ rs))
      (omega (arith, length-take (max_queued_finding_rows - length s.queue) (r ∷ rs)))
      (omega (arith, length-take (max_queued_finding_rows - length s.queue) (r ∷ rs)))

-- The rows of a state in which no batch is under way, whatever its other fields.
record Ready (o : List FindingRow) (s : Service) : Type 0 where
  ordered : Sublist (s.stored ++ s.queue) o
  counted : length o ≡ length s.stored + length s.queue + s.dropped
  bounded : length s.queue ≤ max_queued_finding_rows
  tallied : s.written ≡ length s.stored
  busy : s.flushing ≡ true

drain_from-Kept :
    (o queue : List FindingRow) (s : Service)
    → s.queue ≡ queue
    → Ready o s
    → Kept o (drain_from s queue)
drain_from-Kept o [] s q r = record {
  ordered = r.ordered;
  counted = omega (arith, r.counted);
  bounded = r.bounded;
  tallied = r.tallied;
  alone = λ _. refl;
}
drain_from-Kept o (x ∷ xs) s q r =
    let n = max_finding_rows_per_write in
    let all = take-append-drop n (x ∷ xs) in
    let many : length s.queue ≡ length (x ∷ xs) = ap length q in
    record {
      ordered = subst (λ l. Sublist (s.stored ++ l) o) (q ∙ sym all) r.ordered;
      counted = omega (arith, r.counted, many, length-take n (x ∷ xs), length-drop n (x ∷ xs));
      bounded = omega (arith, r.bounded, many, length-drop n (x ∷ xs));
      tallied = r.tallied;
      alone = λ e. cc (e, r.busy);
    }

flush-Kept : (o : List FindingRow) (s : Service) → Kept o s → Kept o (flush s)
unfolding flush drain
flush-Kept o s k = elim (Bool-cases s.flushing) [
  | inl e ↦ simp e k
  | inr e ↦
      let none_under_way = k.alone e in
      simp e (
        drain_from-Kept o s.queue (record s { flushing = true }) refl
          (record {
            ordered = rw none_under_way at k.ordered;
            counted = omega (arith, rw none_under_way at k.counted);
            bounded = k.bounded;
            tallied = k.tallied;
            busy = refl;
          }))
]

busy_of_batch :
    (o batch : List FindingRow) (s : Service)
    → Kept o s
    → s.writing ≡ some batch
    → s.flushing ≡ true
busy_of_batch o batch s k w = elim (Bool-cases s.flushing) [ inl e ↦ e | inr e ↦ cc (k.alone e, w) ]

append_succeeds-Kept :
    (o : List FindingRow) (s : Service) (w : Option (List FindingRow))
    → s.writing ≡ w
    → Kept o s
    → Kept o (append_succeeds s w)
unfolding drain
append_succeeds-Kept o s none w k = k
append_succeeds-Kept o s (some batch) w k =
    drain_from-Kept o s.queue
      (record s {
        stored = s.stored ++ batch;
        written = s.written + length batch;
        failing_since = 0;
      })
      refl
      (record {
        ordered =
            subst (λ l. Sublist l o) (sym (append_assoc s.stored batch s.queue))
              (rw w at k.ordered);
        counted = omega (arith, rw w at k.counted, length-append s.stored batch);
        bounded = k.bounded;
        tallied = omega (arith, k.tallied, length-append s.stored batch);
        busy = busy_of_batch o batch s k w;
      })

append_fails-Kept :
    (o : List FindingRow) (s : Service) (w : Option (List FindingRow))
    → s.writing ≡ w
    → Kept o s
    → Kept o (append_fails s w)
append_fails-Kept o s none w k = k
append_fails-Kept o s (some batch) w k =
    let n = max_queued_finding_rows in
    let rows = batch ++ s.queue in
    record {
      ordered =
          sublist_trans (s.stored ++ take n rows) (s.stored ++ rows) o
            (sublist_append s.stored s.stored (take n rows) rows (sublist_refl s.stored)
              (sublist_take n rows))
            (rw w at k.ordered);
      counted = omega (arith, rw w at k.counted, length-append batch s.queue, length-take n rows);
      bounded = omega (arith, length-take n rows);
      tallied = k.tallied;
      alone = λ _. refl;
    }

settle-Kept :
    (o : List FindingRow) (s : Service) (w : Option (List FindingRow))
    → s.writing ≡ w
    → Kept o s
    → Kept o (settle s w)
settle-Kept o s none w k = record {
  ordered = k.ordered;
  counted = k.counted;
  bounded = k.bounded;
  tallied = k.tallied;
  alone = λ _. w;
}
settle-Kept o s (some batch) w k = k

-- The fields that only the timers read.
timers-Kept :
    (o : List FindingRow) (s : Service) (scheduled armed gone : Bool)
    → Kept o s
    → Kept o (record s { flush_scheduled = scheduled; retry_armed = armed; destroyed = gone })
timers-Kept o s scheduled armed gone k = record {
  ordered = k.ordered;
  counted = k.counted;
  bounded = k.bounded;
  tallied = k.tallied;
  alone = k.alone;
}

same : (o : List FindingRow) (s : Service) → Kept o s → Kept (o ++ []) s
same o s k = subst (λ l. Kept l s) (sym (append-nil o)) k

step-Kept :
    (o : List FindingRow) (s : Service) (e : Event) → Kept o s → Kept (o ++ rows_of e) (step s e)
unfolding step
step-Kept o s (rows_arrive off rows) k = record_rows-Kept o rows s off k
step-Kept o s flush_due k = same o _ (elim (Bool-cases s.flush_scheduled) [
  | inl e ↦ simp e (flush-Kept o _ (timers-Kept o s false s.retry_armed s.destroyed k))
  | inr e ↦ simp e k
])
step-Kept o s retry_due k = same o _ (elim (Bool-cases s.retry_armed) [
  | inl e ↦ simp e (flush-Kept o _ (timers-Kept o s s.flush_scheduled false s.destroyed k))
  | inr e ↦ simp e k
])
step-Kept o s load k = same o _ (flush-Kept o s k)
step-Kept o s append_ok k = same o _ (append_succeeds-Kept o s s.writing refl k)
step-Kept o s append_rejected k = same o _ (append_fails-Kept o s s.writing refl k)
step-Kept o s settled k = same o _ (settle-Kept o s s.writing refl k)
step-Kept o s destroy k = same o _ (flush-Kept o _ (timers-Kept o s s.flush_scheduled false true k))

run-Kept :
    (o : List FindingRow) (s : Service) (es : List Event)
    → Kept o s
    → Kept (o ++ offered es) (run s es)
unfolding run
run-Kept o s [] k = same o s k
run-Kept o s (e ∷ es) k =
    subst (λ l. Kept l (run (step s e) es)) (append_assoc o (rows_of e) (offered es))
      (run-Kept (o ++ rows_of e) (step s e) es (step-Kept o s e k))

initial-Kept : Kept [] initial
initial-Kept = record {
  ordered = tt;
  counted = refl;
  bounded = omega arith;
  tallied = refl;
  alone = λ _. refl;
}

-- Whatever rows arrive, writes fail or succeed and timers fire, the rows in the table, those under
-- way and those that wait are, in this order, some of the rows that were handed over, in the order in
-- which they were; each row that is not among them is counted as dropped, the waiting rows keep
-- within the bound, and the count of written rows is that of the table.
pub run_keeps_rows :
    (es : List Event)
    → Sublist (kept_rows (run initial es)) (offered es)
      × (length (offered es) ≡ length (kept_rows (run initial es)) + (run initial es).dropped)
      × (length (run initial es).queue ≤ max_queued_finding_rows)
      × ((run initial es).written ≡ length (run initial es).stored)
run_keeps_rows es =
    let s = run initial es in
    let k = run-Kept [] initial es initial-Kept in
    (
      k.ordered,
      omega (
        arith,
        k.counted,
        length-append s.stored (batch_of s.writing ++ s.queue),
        length-append (batch_of s.writing) s.queue,
      ),
      k.bounded,
      k.tallied,
    )

-- While no row has been dropped nothing is missing: the table, the batch under way and the queue are
-- together exactly the rows that were handed over, in order.
pub run_keeps_all_rows :
    (es : List Event) → (run initial es).dropped ≡ 0 → kept_rows (run initial es) ≡ offered es
run_keeps_all_rows es d =
    let (ordered, counted, bounded, tallied) = run_keeps_rows es in
    sublist_whole (kept_rows (run initial es)) (offered es) ordered (omega (arith, counted, d))
