-- ===== src/Integrity/Findings.antt =====
-- `DrawIntegrityFindingsService` of src/modules/factory/helpers/drawIntegrityFindings.ts: a bounded
-- queue of rows that one drain at a time writes in batches. `off` says that DRAW_INTEGRITY_MODE is
-- `off`. Log lines and their throttle are left out; the timers are the events that fire them.
pub mod Kept
pub mod Drained
use competition_factory_serv.Prelude.{
  ℕ, ◌+◌, ◌-◌, Bool, true, false, not, ◌&&◌, ◌||◌, Option, none, some, List, [], ◌∷◌, ◌++◌,
  if◌then◌else◌, length, take, drop, is_empty,
}
use competition_factory_serv.Integrity.Issues.{FindingRow}

abbrev pub max_queued_finding_rows : ℕ
max_queued_finding_rows = 5000

abbrev pub max_finding_rows_per_write : ℕ
max_finding_rows_per_write = 500

-- `writing` is the batch whose `append` is awaited, `flushing` says that the drain's promise is set,
-- and `stored` is what the table has received.
pub record Service : Type 0 where
  pub queue : List FindingRow
  pub writing : Option (List FindingRow)
  pub flushing : Bool
  pub flush_scheduled : Bool
  pub retry_armed : Bool
  pub destroyed : Bool
  pub failing_since : ℕ
  pub recorded : ℕ
  pub written : ℕ
  pub dropped : ℕ
  pub write_failures : ℕ
  pub stored : List FindingRow

abbrev pub accept : Service → ℕ → List FindingRow → Service
accept s lost [] = record s { dropped = s.dropped + lost }
accept s lost (row ∷ rows) = record s {
  dropped = s.dropped + lost;
  queue = s.queue ++ row ∷ rows;
  recorded = s.recorded + length (row ∷ rows);
  flush_scheduled = true;
}

unfoldable pub record_rows : Service → Bool → List FindingRow → Service
record_rows s off rows =
    let room = max_queued_finding_rows - length s.queue in
    if is_empty rows || off
    then s
    else accept s (length rows - length (take room rows)) (take room rows)

-- The head of the loop of `drain`; a drain that finds no row leaves the loop.
abbrev pub drain_from : Service → List FindingRow → Service
drain_from s [] = record s { writing = none }
drain_from s (row ∷ rows) = record s {
  writing = some (take max_finding_rows_per_write (row ∷ rows));
  queue = drop max_finding_rows_per_write (row ∷ rows);
}

unfoldable pub drain : Service → Service
drain s = drain_from s s.queue

unfoldable pub flush : Service → Service
unfolding drain
flush s = if s.flushing then s else drain (record s { flushing = true })

-- The awaited `append` succeeds.
abbrev pub append_succeeds : Service → Option (List FindingRow) → Service
append_succeeds s none = s
append_succeeds s (some batch) =
    drain (record s {
      stored = s.stored ++ batch;
      written = s.written + length batch;
      failing_since = 0;
    })

-- The awaited `append` rejects: the batch goes back in front, within the bound.
abbrev pub append_fails : Service → Option (List FindingRow) → Service
append_fails s none = s
append_fails s (some batch) = record s {
  queue = take max_queued_finding_rows (batch ++ s.queue);
  dropped = s.dropped + (length (batch ++ s.queue) - max_queued_finding_rows);
  write_failures = s.write_failures + 1;
  failing_since = s.failing_since + 1;
  retry_armed = if s.retry_armed || s.destroyed then s.retry_armed else true;
  writing = none;
}

abbrev pub settle : Service → Option (List FindingRow) → Service
settle s none = record s { flushing = false }
settle s (some batch) = s

-- What happens to the service. `flush_due` is the scheduled `setImmediate`, `retry_due` the retry
-- timer, `load` the flush at the start of `loadOpen`, and `settled` the `finally` of the drain.
pub data Event : Type 0 where
  rows_arrive : Bool → List FindingRow → Event
  flush_due retry_due load append_ok append_rejected settled destroy : Event

unfoldable pub step : Service → Event → Service
unfolding flush record_rows drain
step s (rows_arrive off rows) = record_rows s off rows
step s flush_due = if s.flush_scheduled then flush (record s { flush_scheduled = false }) else s
step s retry_due = if s.retry_armed then flush (record s { retry_armed = false }) else s
step s load = flush s
step s append_ok = append_succeeds s s.writing
step s append_rejected = append_fails s s.writing
step s settled = settle s s.writing
step s destroy = flush (record s { destroyed = true; retry_armed = false })

unfoldable pub run : Service → List Event → Service
unfolding step
run s [] = s
run s (e ∷ es) = run (step s e) es

abbrev pub initial : Service
initial = record {
  queue = [];
  writing = none;
  flushing = false;
  flush_scheduled = false;
  retry_armed = false;
  destroyed = false;
  failing_since = 0;
  recorded = 0;
  written = 0;
  dropped = 0;
  write_failures = 0;
  stored = [];
}

-- The rows that are handed over while the mode is not `off`.
abbrev pub rows_of : Event → List FindingRow
rows_of (rows_arrive off rows) = if off then [] else rows
rows_of e = []

abbrev pub offered : List Event → List FindingRow
offered [] = []
offered (e ∷ es) = rows_of e ++ offered es
