-- ===== src/Integrity/Gate.antt =====
-- `drawIntegrityMode`, `checkDrawIntegrity` and `gateDrawIntegrity` of
-- src/modules/factory/helpers/drawIntegrity.ts. `tidy` is the runtime's `trim` and lower case; the
-- factory's scan of the tournament is a parameter, `failed` with the message of its failure.
pub mod Measured
use competition_factory_serv.Prelude.{
  String, ◌==◌, Bool, true, false, not, ◌&&◌, ◌||◌, Option, none, some, List, [], ◌∷◌, ◌++◌, map,
  if◌then◌else◌, is_empty, filter,
}
use competition_factory_serv.Integrity.Issues.{IntegrityIssue, Inconsistency, to_integrity_issue}

pub data Mode : Type 0 where
  report enforce off : Mode

unfoldable pub draw_integrity_mode : (String → String) → Option String → Mode
draw_integrity_mode tidy none = report
draw_integrity_mode tidy (some raw) =
    if tidy raw == "enforce" then enforce else if tidy raw == "off" then off else report

pub data ScanResult : Type 0 where
  failed : String → ScanResult
  answered : List Inconsistency → ScanResult

pub record IntegrityResult : Type 0 where
  pub errors : List IntegrityIssue
  pub warnings : List IntegrityIssue

abbrev pub scan_failure : String → IntegrityResult
scan_failure message = record {
  errors =
      record {
        issue_type = "INTEGRITY_SCAN_FAILED";
        severity = "error";
        message = message;
        scope = none;
        event_id = none;
        draw_id = none;
        structure_id = none;
        match_up_id = none;
        fingerprint = none;
      }
      ∷ [];
  warnings = [];
}

abbrev pub is_error : IntegrityIssue → Bool
is_error i = i.severity == "error"

-- The loop of `checkDrawIntegrity`.
unfoldable pub sort_issues : List Inconsistency → IntegrityResult → IntegrityResult
sort_issues [] r = r
sort_issues (i ∷ is) r =
    let issue = to_integrity_issue i in
    let with_error = sort_issues is (record r { errors = r.errors ++ issue ∷ [] }) in
    let with_warning = sort_issues is (record r { warnings = r.warnings ++ issue ∷ [] }) in
    if is_error issue then with_error else with_warning

unfoldable pub check_draw_integrity : ScanResult → IntegrityResult
unfolding sort_issues
check_draw_integrity (failed message) = scan_failure message
check_draw_integrity (answered found) = sort_issues found (record { errors = []; warnings = [] })

-- What a save meets: nothing, a line at debug, a warning line, or a warning line and a refusal that
-- carries the errors and the warnings.
pub data Verdict : Type 0 where
  silent debug_line warn_line : Verdict
  refused : List IntegrityIssue → List IntegrityIssue → Verdict

abbrev pub verdict_of : Mode → IntegrityResult → Verdict
verdict_of off r = silent
verdict_of report r =
    if is_empty r.errors then (if is_empty r.warnings then silent else debug_line) else warn_line
verdict_of enforce r =
    if is_empty r.errors
    then (if is_empty r.warnings then silent else debug_line)
    else refused r.errors r.warnings

-- With the mode `off` the scan is not run.
unfoldable pub gate_draw_integrity : Mode → ScanResult → Verdict
unfolding check_draw_integrity
gate_draw_integrity off scan = silent
gate_draw_integrity mode scan = verdict_of mode (check_draw_integrity scan)
