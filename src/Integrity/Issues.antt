-- ===== src/Integrity/Issues.antt =====
-- The issues and findings of src/modules/factory/helpers/drawIntegrity.ts and
-- src/storage/interfaces/draw-integrity-findings-storage.interface.ts.
use competition_factory_serv.Prelude.{String, Option, none, some, List}

pub record IntegrityIssue : Type 0 where
  pub issue_type : String
  pub severity : String
  pub message : String
  pub scope : Option String
  pub event_id : Option String
  pub draw_id : Option String
  pub structure_id : Option String
  pub match_up_id : Option String
  pub fingerprint : Option String

pub record OpenDrawFinding : Type 0 where
  pub fingerprint : String
  pub code : String
  pub severity : String
  pub structure_id : Option String
  pub match_up_id : Option String

pub data FindingEvent : Type 0 where
  baseline introduced resolved : FindingEvent

-- A row of `draw_integrity_findings`: the finding, and where and when it changed.
pub record FindingRow : Type 0 where
  pub tournament_id : String
  pub draw_id : String
  pub event : FindingEvent
  pub finding : OpenDrawFinding
  pub methods : List String
  pub observed_at : String

-- An `Inconsistency` of the factory, as far as the scans read it.
pub record Inconsistency : Type 0 where
  pub issue_type : Option String
  pub severity : Option String
  pub message : Option String
  pub scope : Option String
  pub event_id : Option String
  pub draw_id : Option String
  pub structure_id : Option String
  pub match_up_id : Option String
  pub fingerprint : Option String

-- `value ?? other`
abbrev pub or_else : Option String → String → String
or_else none other = other
or_else (some value) other = value

unfoldable pub to_integrity_issue : Inconsistency → IntegrityIssue
to_integrity_issue i = record {
  issue_type = or_else i.issue_type "UNKNOWN_INCONSISTENCY";
  severity = or_else i.severity "error";
  message = or_else i.message "";
  scope = i.scope;
  event_id = i.event_id;
  draw_id = i.draw_id;
  structure_id = i.structure_id;
  match_up_id = i.match_up_id;
  fingerprint = i.fingerprint;
}
