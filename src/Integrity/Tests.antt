-- ===== src/Integrity/Tests.antt =====
-- Concrete draws, scans and rows at which the integrity theorems apply.
use competition_factory_serv.Prelude.{
  ℕ, ◌+◌, ◌-◌, ◌*◌, ◌≤◌, String, ◌≡◌, refl, ◌⊎◌, true, false, not, ◌&&◌, Option, none, some, List,
  [], ◌∷◌, ◌++◌, map, arith, length, drop, filter, includes, lookup, Sublist,
}
use competition_factory_serv.Integrity.Issues.{
  baseline, FindingRow, Inconsistency, to_integrity_issue,
}
use competition_factory_serv.Integrity.Findings.{
  Service, Event, rows_arrive, flush_due, append_rejected, step, run, initial, offered,
  max_queued_finding_rows, flush, drain, record_rows,
}
use competition_factory_serv.Integrity.Findings.Kept.{kept_rows, run_keeps_rows}
use competition_factory_serv.Integrity.Findings.Drained.{writes, IsDrained, run_drains}
use competition_factory_serv.Integrity.Memory.{
  Memory, DrawMemory, without, remember, max_tracked_draws, recall, memory_key,
}
use competition_factory_serv.Integrity.Memory.Recent.{remember_keeps_recent}
use competition_factory_serv.Integrity.Scan.{Target, scan_draw, known_before}
use competition_factory_serv.Integrity.Scan.Table.{IsByFingerprint, IsSynced}
use competition_factory_serv.Integrity.Scan.Synced.{known_set, IsScanned, scan_draw-IsScanned}
use competition_factory_serv.Integrity.Schedule as Schedule
use competition_factory_serv.Integrity.Schedule.{
  ScanJob, jobs_of, idle_scans, max_pending_scans, batch, turn, read, chain, answers,
}
use competition_factory_serv.Integrity.Schedule.Order.{of_draw}
use competition_factory_serv.Integrity.Schedule.Runs.{run_scans_in_order}
use competition_factory_serv.Integrity.Notices.{
  Batch, RecordDraws, snapshot_touched_draws, visit_records, visit_events, visit_draws,
  method_names,
}
use competition_factory_serv.Access.Calendar.Sets.{to_set}
use competition_factory_serv.Integrity.Notices.Snapshot.{
  ids_of, in_records, IsDistinctIds, snapshot_touched_draws_complete,
}
use competition_factory_serv.Integrity.Gate.{
  report, enforce, ScanResult, answered, is_error, warn_line, refused, gate_draw_integrity,
}
use competition_factory_serv.Integrity.Gate.Measured.{issues_of, gate_draw_integrity_cases}

abbrev found : String → String → Inconsistency
found fingerprint severity = record {
  issue_type = some "LOSER_LINK";
  severity = some severity;
  message = none;
  scope = none;
  event_id = none;
  draw_id = none;
  structure_id = none;
  match_up_id = none;
  fingerprint = some fingerprint;
}

abbrev finding_row : String → FindingRow
finding_row fingerprint = record {
  tournament_id = "t1";
  draw_id = "d1";
  event = baseline;
  finding = record {
    fingerprint = fingerprint;
    code = "LOSER_LINK";
    severity = "error";
    structure_id = none;
    match_up_id = none;
  };
  methods = [];
  observed_at = "now";
}

-- Two rows arrive, a write fails, a third row arrives, and a retried write succeeds.
abbrev history : List Event
history =
    rows_arrive false (finding_row "a" ∷ finding_row "b" ∷ [])
    ∷ flush_due
    ∷ append_rejected
    ∷ rows_arrive false (finding_row "c" ∷ [])
    ∷ []

run_keeps_rows_example :
    Sublist (kept_rows (run initial history)) (offered history)
    × (length (offered history)
        ≡ length (kept_rows (run initial history)) + (run initial history).dropped)
    × (length (run initial history).queue ≤ max_queued_finding_rows)
    × ((run initial history).written ≡ length (run initial history).stored)
run_keeps_rows_example = run_keeps_rows history

nothing_dropped : (run initial history).dropped ≡ 0
unfolding run step flush drain record_rows
nothing_dropped = refl

abbrev writing_one : Service
writing_one = record initial {
  queue = finding_row "b" ∷ [];
  writing = some (finding_row "a" ∷ []);
  flushing = true;
}

one_fits : length writing_one.queue ≤ 1 * 500
one_fits = omega arith

run_drains_example : IsDrained (kept_rows writing_one) (run writing_one (writes 2))
run_drains_example = run_drains 1 writing_one (finding_row "a" ∷ []) refl one_fits

abbrev clean : DrawMemory
clean = record { fingerprints = []; pre_existing_logged = false }

abbrev two_draws : Memory
two_draws = ("t1:d1", clean) ∷ ("t1:d2", clean) ∷ []

remember_keeps_recent_example :
    (lookup (remember two_draws "t1:d1" clean).0 "t1:d1" ≡ some clean)
    × ((remember two_draws "t1:d1" clean).0
        ≡ drop
            (remember two_draws "t1:d1" clean).1
            (without two_draws "t1:d1" ++ ("t1:d1", clean) ∷ []))
    × ((remember two_draws "t1:d1" clean).1
        ≡ length (without two_draws "t1:d1" ++ ("t1:d1", clean) ∷ []) - max_tracked_draws)
    × (length (remember two_draws "t1:d1" clean).0 ≤ max_tracked_draws)
remember_keeps_recent_example = remember_keeps_recent two_draws "t1:d1" clean

abbrev first_draw : Target
first_draw = record { tournament_id = "t1"; draw_id = "d1"; added = false }

abbrev digest : String → String
digest s = s

unknown :
    IsByFingerprint (known_set (known_before digest first_draw [] true "now" idle_scans.memory).0)
unfolding recall
unknown = tt

unrecorded :
    IsSynced first_draw idle_scans.table
      (known_set (known_before digest first_draw [] true "now" idle_scans.memory).0)
unfolding recall
unrecorded fp = refl

scan_draw-IsScanned_example :
    IsScanned digest first_draw
      (map to_integrity_issue (found "a" "error" ∷ found "b" "warning" ∷ []))
      (scan_draw digest first_draw [] true "now" idle_scans
        (some (found "a" "error" ∷ found "b" "warning" ∷ [])))
scan_draw-IsScanned_example =
    scan_draw-IsScanned digest first_draw [] "now" idle_scans
      (found "a" "error" ∷ found "b" "warning" ∷ []) unknown unrecorded

abbrev job : ℕ → ScanJob
job n = record { target = first_draw; methods = []; snapshot = n }

abbrev now : ScanJob → String
now j = "now"

abbrev clean_answer : ScanJob → Option (List Inconsistency)
clean_answer j = some []

-- Two mutations of one draw: the second scan waits behind the first one's read.
abbrev mutations : List Schedule.Event
mutations =
    batch [] (job 1 ∷ [])
    ∷ turn
    ∷ batch [] (job 2 ∷ [])
    ∷ turn
    ∷ read "t1:d1" (answers false [])
    ∷ chain "t1:d1"
    ∷ []

abbrev after_mutations : Schedule.Scheduler
after_mutations = Schedule.run digest true now clean_answer Schedule.initial mutations

run_scans_in_order_example :
    (of_draw "t1:d1" after_mutations.accepted
      ≡ of_draw "t1:d1" after_mutations.finished
        ++ (of_draw "t1:d1" after_mutations.waiting
            ++ of_draw "t1:d1" (jobs_of after_mutations.immediates)))
    × (after_mutations.pending
        ≡ length after_mutations.waiting + length (jobs_of after_mutations.immediates))
    × (length after_mutations.accepted ≡ length after_mutations.finished + after_mutations.pending)
    × (after_mutations.pending ≤ max_pending_scans)
run_scans_in_order_example = run_scans_in_order digest true now clean_answer mutations "t1:d1"

-- The first scan has run and the second is the next.
run_scans_test : (after_mutations.finished ≡ job 1 ∷ []) × (after_mutations.waiting ≡ job 2 ∷ [])
unfolding Schedule.run memory_key Schedule.seed_draw Schedule.take_first
run_scans_test = (refl, refl)

abbrev two_records : List (String × RecordDraws)
two_records = ("t1", (some "d1" ∷ some "d2" ∷ []) ∷ []) ∷ ("t2", (some "d3" ∷ none ∷ []) ∷ []) ∷ []

abbrev snapshot : Batch
snapshot = record {
  methods = "addEvent" ∷ [];
  draws =
      record { tournament_id = "t1"; draw_id = "d1"; added = false }
      ∷ record { tournament_id = "t2"; draw_id = "d3"; added = true }
      ∷ [];
  deleted = "d9" ∷ [];
}

snapshot_taken :
    snapshot_touched_draws false
      ("d1" ∷ "d3" ∷ "d7" ∷ [])
      ("d9" ∷ [])
      ("d3" ∷ [])
      two_records
      (some "addEvent" ∷ some "addEvent" ∷ none ∷ [])
    ≡ some snapshot
unfolding snapshot_touched_draws visit_records visit_events visit_draws method_names to_set
snapshot_taken = refl

snapshot_touched_draws_complete_example :
    IsDistinctIds (ids_of snapshot.draws)
    × ((id : String)
        → includes (ids_of snapshot.draws) id
          ≡ (includes ("d1" ∷ "d3" ∷ "d7" ∷ []) id && in_records two_records id))
    × (snapshot.deleted ≡ "d9" ∷ [])
snapshot_touched_draws_complete_example =
    snapshot_touched_draws_complete ("d1" ∷ "d3" ∷ "d7" ∷ []) ("d9" ∷ []) ("d3" ∷ []) two_records
      (some "addEvent" ∷ some "addEvent" ∷ none ∷ []) snapshot snapshot_taken

abbrev mixed : ScanResult
mixed = answered (found "a" "error" ∷ found "b" "warning" ∷ [])

gate_draw_integrity_cases_example :
    ((filter is_error (issues_of mixed) ≡ [])
      × (gate_draw_integrity enforce mixed ≡ gate_draw_integrity report mixed))
    ⊎ ((¬ (filter is_error (issues_of mixed) ≡ []))
        × (gate_draw_integrity report mixed ≡ warn_line)
        × (gate_draw_integrity enforce mixed
            ≡ refused
                (filter is_error (issues_of mixed))
                (filter (λ i. not (is_error i)) (issues_of mixed))))
gate_draw_integrity_cases_example = gate_draw_integrity_cases mixed
