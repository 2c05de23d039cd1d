-- ===== src/Integrity/Scan.antt =====
-- `scanDraw` of src/modules/factory/helpers/executionQueueIntegrity.ts. The result of the factory's
-- scan is a parameter: `none` where it throws, fails or has no array. `digest` is the hexadecimal
-- SHA-256 of a text, cut to 32 characters; `observed_at` is the clock's text. Durations and the
-- throttled failure lines are left out.
use Prim.Native.String
pub mod Table
pub mod Synced
use competition_factory_serv.Prelude.{
  ℕ, ◌+◌, String, ◌==◌, Bool, true, false, not, ◌&&◌, ◌||◌, Option, none, some, List, [], ◌∷◌, ◌++◌,
  map, if◌then◌else◌, is_empty, length, filter, includes, keys, lookup, insert, truthy,
}
use competition_factory_serv.Integrity.Issues.{
  IntegrityIssue, OpenDrawFinding, FindingEvent, baseline, introduced, resolved, FindingRow,
  Inconsistency, or_else, to_integrity_issue,
}
use competition_factory_serv.Integrity.Memory.{DrawMemory, Memory, memory_key, recall, remember}

pub record Target : Type 0 where
  pub tournament_id : String
  pub draw_id : String
  pub added : Bool

-- A finding line: its kind, its draw and its issues.
pub data Finding : Type 0 where
  newly_introduced pre_existing first_seen : Finding

pub record Line : Type 0 where
  pub finding : Finding
  pub target : Target
  pub methods : List String
  pub issues : List IntegrityIssue

-- `table` holds the rows that were handed to the sink.
pub record Scans : Type 0 where
  pub memory : Memory
  pub lines : List Line
  pub table : List FindingRow
  pub scans : ℕ
  pub introduced_count : ℕ
  pub pre_existing_count : ℕ
  pub baseline_count : ℕ
  pub failures : ℕ
  pub evicted : ℕ
  pub failing_since : ℕ

abbrev pub Fingerprints : Type 0
Fingerprints = List (String × OpenDrawFinding)

abbrev pub values : Fingerprints → List OpenDrawFinding
values [] = []
values ((k, f) ∷ m) = f ∷ values m

module _ (digest : String → String) where
  abbrev located : IntegrityIssue → String
  located i = String.◌++◌ i.issue_type (
      String.◌++◌ "|" (
        String.◌++◌ (or_else i.structure_id "")
          (String.◌++◌ "|" (String.◌++◌ (or_else i.match_up_id "") (String.◌++◌ "|" i.message)))))

  abbrev unfingerprinted : IntegrityIssue → String
  unfingerprinted i = String.◌++◌ "unfingerprinted:" (digest (located i))

  unfoldable pub fingerprint_of : IntegrityIssue → String
  fingerprint_of i =
      if truthy i.fingerprint then or_else i.fingerprint (unfingerprinted i) else unfingerprinted i

  abbrev pub finding_of : IntegrityIssue → OpenDrawFinding
  finding_of i = record {
    fingerprint = fingerprint_of i;
    code = i.issue_type;
    severity = i.severity;
    structure_id = i.structure_id;
    match_up_id = i.match_up_id;
  }

  unfoldable pub add_current : Fingerprints → List IntegrityIssue → Fingerprints
  add_current m [] = m
  add_current m (i ∷ issues) = add_current (insert m (fingerprint_of i) (finding_of i)) issues

  abbrev pub row : Target → List String → String → FindingEvent → OpenDrawFinding → FindingRow
  row target methods observed_at event finding = record {
    tournament_id = target.tournament_id;
    draw_id = target.draw_id;
    event = event;
    finding = finding;
    methods = methods;
    observed_at = observed_at;
  }

  unfoldable pub change_rows :
      Target
      → List String
      → String
      → List OpenDrawFinding
      → List OpenDrawFinding
      → List OpenDrawFinding
      → List FindingRow
  change_rows target methods observed_at first news gone =
      map (row target methods observed_at baseline) first
      ++ (map (row target methods observed_at introduced) news
          ++ map (row target methods observed_at resolved) gone)

  abbrev pub has : Fingerprints → String → Bool
  has m fp = includes (keys m) fp

  -- `persist`: nothing without a sink; the append of no row changes nothing.
  abbrev pub persist : Bool → List FindingRow → List FindingRow → List FindingRow
  persist sink table rows = if sink then table ++ rows else table

  abbrev errors_of : List IntegrityIssue → List IntegrityIssue
  errors_of issues = filter (λ i. i.severity == "error") issues

  abbrev line_if : List IntegrityIssue → Finding → Target → List String → List Line → List Line
  line_if [] finding target methods lines = lines
  line_if (i ∷ issues) finding target methods lines =
      lines
      ++ record { finding = finding; target = target; methods = methods; issues = i ∷ issues } ∷ []

  abbrev count_if : List IntegrityIssue → ℕ → ℕ
  count_if [] n = n
  count_if (i ∷ issues) n = n + 1

  module _ (target : Target) (methods : List String) (sink : Bool) (observed_at : String) where
    abbrev key : String
    key = memory_key (some target.tournament_id) target.draw_id

    -- The scan of a draw that is not remembered.
    unfoldable pub first_scan : Scans → List IntegrityIssue → Fingerprints → Scans
    first_scan s issues current =
        let kept =
          remember s.memory key (record { fingerprints = current; pre_existing_logged = false }) in
        record s {
          baseline_count = count_if (errors_of issues) s.baseline_count;
          lines = line_if (errors_of issues) first_seen target methods s.lines;
          table =
              persist sink s.table (change_rows target methods observed_at (values current) [] []);
          memory = kept.0;
          evicted = s.evicted + kept.1;
        }

    abbrev new_issues : Fingerprints → List IntegrityIssue → List IntegrityIssue
    new_issues previous issues = filter (λ i. not (has previous (fingerprint_of i))) issues

    abbrev old_issues : Fingerprints → List IntegrityIssue → List IntegrityIssue
    old_issues previous issues = filter (λ i. has previous (fingerprint_of i)) issues

    -- The pre-existing issues to be logged: none where they have been.
    abbrev to_log : DrawMemory → List IntegrityIssue → List IntegrityIssue
    to_log previous issues =
        if previous.pre_existing_logged then [] else old_issues previous.fingerprints issues

    abbrev logged_after : DrawMemory → List IntegrityIssue → Fingerprints → Bool
    logged_after previous issues [] = false
    logged_after previous issues (f ∷ current) =
        previous.pre_existing_logged || not (is_empty (old_issues previous.fingerprints issues))

    abbrev pub difference_rows : Fingerprints → Fingerprints → List FindingRow
    difference_rows previous current =
        change_rows target methods observed_at []
          (filter (λ f. not (has previous f.fingerprint)) (values current))
          (filter (λ f. not (has current f.fingerprint)) (values previous))

    unfoldable pub next_scan : Scans → DrawMemory → List IntegrityIssue → Fingerprints → Scans
    next_scan s previous issues current =
        let kept = remember s.memory key (record {
          fingerprints = current;
          pre_existing_logged = logged_after previous issues current;
        }) in
        record s {
          introduced_count = count_if (new_issues previous.fingerprints issues) s.introduced_count;
          pre_existing_count = count_if (to_log previous issues) s.pre_existing_count;
          lines = line_if (to_log previous issues) pre_existing target methods (
              line_if (new_issues previous.fingerprints issues) newly_introduced target methods
                s.lines);
          memory = kept.0;
          evicted = s.evicted + kept.1;
          table = persist sink s.table (difference_rows previous.fingerprints current);
        }

    abbrev pub diffed : Scans → Option DrawMemory → List IntegrityIssue → Scans
    diffed s none issues = first_scan s issues (add_current [] issues)
    diffed s (some previous) issues = next_scan s previous issues (add_current [] issues)

    abbrev pub known_before : Memory → Option DrawMemory × Memory
    known_before memory =
        if target.added
        then (some (record { fingerprints = []; pre_existing_logged = false }), memory)
        else recall memory key

    abbrev pub counted_scan : Scans → Memory → Scans
    counted_scan s memory = record s { scans = s.scans + 1; failing_since = 0; memory = memory }

    unfoldable pub scan_draw : Scans → Option (List Inconsistency) → Scans
    scan_draw s none = record s { failures = s.failures + 1; failing_since = s.failing_since + 1 }
    scan_draw s (some found) =
        let known = known_before s.memory in
        diffed (counted_scan s known.1) known.0 (map to_integrity_issue found)
