-- ===== src/Integrity/Schedule.antt =====
-- `scheduleDrawIntegrityScan`, `runScan`, `seedDraw` and `finishScan` of
-- src/modules/factory/helpers/executionQueueIntegrity.ts as a machine: the event loop's immediates, the
-- reads of the findings table that are under way, and the scans that wait behind them. The chains of
-- `seeding` are one list, in which a draw's chain is the scans of its key; a chain is there exactly
-- while a scan of its key waits. The factory's answer for a scan's snapshot is the parameter `answer`.
pub mod Order
pub mod Runs
use competition_factory_serv.Prelude.{
  ℕ, suc, ◌+◌, ◌-◌, String, ◌==◌, Bool, true, false, not, ◌&&◌, ◌||◌, Option, none, some, List, [],
  ◌∷◌, ◌++◌, if◌then◌else◌, ltb, any, filter, includes, keys, lookup, insert,
}
use competition_factory_serv.Integrity.Issues.{OpenDrawFinding, Inconsistency}
use competition_factory_serv.Integrity.Memory.{Memory, memory_key, remember, forget_draw}
use competition_factory_serv.Integrity.Scan.{Target, Scans, Fingerprints, scan_draw}

abbrev pub max_pending_scans : ℕ
max_pending_scans = 500

-- `snapshot` stands for the reference to the mutation's own drawDefinition.
pub record ScanJob : Type 0 where
  pub target : Target
  pub methods : List String
  pub snapshot : ℕ

abbrev pub key_of : ScanJob → String
key_of j = memory_key (some j.target.tournament_id) j.target.draw_id

pub data Immediate : Type 0 where
  forget : Option String → String → Immediate
  scan : ScanJob → Immediate

-- `accepted` and `finished` record the scans that were queued and that have run.
pub record Scheduler : Type 0 where
  pub immediates : List Immediate
  pub waiting : List ScanJob
  pub reading : List String
  pub pending : ℕ
  pub shed : ℕ
  pub seeded : ℕ
  pub seed_failures : ℕ
  pub scans : Scans
  pub accepted : List ScanJob
  pub finished : List ScanJob

abbrev pub queue_forgets : List Immediate → List (Option String × String) → List Immediate
queue_forgets q [] = q
queue_forgets q ((tid, draw) ∷ deleted) = queue_forgets (q ++ forget tid draw ∷ []) deleted

unfoldable pub queue_scan : Scheduler → ScanJob → Scheduler
queue_scan s j =
    if ltb s.pending max_pending_scans
    then record s {
      pending = s.pending + 1;
      immediates = s.immediates ++ scan j ∷ [];
      accepted = s.accepted ++ j ∷ [];
    }
    else record s { shed = s.shed + 1 }

unfoldable pub queue_scans : Scheduler → List ScanJob → Scheduler
unfolding queue_scan
queue_scans s [] = s
queue_scans s (j ∷ js) = queue_scans (queue_scan s j) js

unfoldable pub schedule : Scheduler → List (Option String × String) → List ScanJob → Scheduler
unfolding queue_scans
schedule s deleted js =
    queue_scans (record s { immediates = queue_forgets s.immediates deleted }) js

abbrev pub in_flight : List ScanJob → String → Bool
in_flight waiting key = any (λ j. key_of j == key) waiting

abbrev pub is_remembered : Memory → String → Bool
is_remembered memory key = includes (keys memory) key

abbrev open_set : Fingerprints → List OpenDrawFinding → Fingerprints
open_set m [] = m
open_set m (f ∷ fs) = open_set (insert m f.fingerprint f) fs

-- What `loadOpen` returns: whether the table knows the draw, and its open findings.
pub data Seed : Type 0 where
  read_fails : Seed
  answers : Bool → List OpenDrawFinding → Seed

abbrev remember_seed : Scheduler → String → List OpenDrawFinding → Scheduler
remember_seed s key open_findings =
    let kept =
      remember s.scans.memory key
        (record { fingerprints = open_set [] open_findings; pre_existing_logged = false }) in
    record s {
      seeded = s.seeded + 1;
      scans = record s.scans { memory = kept.0; evicted = s.scans.evicted + kept.1 };
    }

unfoldable pub seed_draw : Scheduler → String → Seed → Scheduler
seed_draw s key read_fails = record s { seed_failures = s.seed_failures + 1 }
seed_draw s key (answers known open_findings) =
    if not known || is_remembered s.scans.memory key then s else remember_seed s key open_findings

-- The first scan of a key, and the rest.
unfoldable pub take_first : String → List ScanJob → Option (ScanJob × List ScanJob)
take_first key [] = none
take_first key (j ∷ js) =
    let rest = take_first key js in
    if key_of j == key
    then some (j, js)
    else elim rest [ none ↦ none | some (i, is) ↦ some (i, j ∷ is) ]

-- `batch` is one mutation's call of `scheduleDrawIntegrityScan`, `turn` the next immediate,
-- `read` the end of a read, `chain` the next scan of a chain whose read has ended.
pub data Event : Type 0 where
  batch : List (Option String × String) → List ScanJob → Event
  turn : Event
  read : String → Seed → Event
  chain : String → Event

module _ (digest : String → String) (sink : Bool) (at_time : ScanJob → String)
    (answer : ScanJob → Option (List Inconsistency)) where
  abbrev pub finish_scan : Scheduler → ScanJob → Scheduler
  finish_scan s j = record s {
    pending = s.pending - 1;
    scans = scan_draw digest j.target j.methods sink (at_time j) s.scans (answer j);
    finished = s.finished ++ j ∷ [];
  }

  unfoldable pub run_scan : Scheduler → ScanJob → Scheduler
  run_scan s j =
      if in_flight s.waiting (key_of j)
      then record s { waiting = s.waiting ++ j ∷ [] }
      else if (sink && not j.target.added) && not (is_remembered s.scans.memory (key_of j))
      then record s { waiting = s.waiting ++ j ∷ []; reading = s.reading ++ key_of j ∷ [] }
      else finish_scan s j

  abbrev pub run_immediate : Scheduler → List Immediate → Scheduler
  run_immediate s [] = s
  run_immediate s (forget tid draw ∷ rest) = record s {
    immediates = rest;
    scans = record s.scans { memory = forget_draw s.scans.memory tid draw };
  }
  run_immediate s (scan j ∷ rest) = run_scan (record s { immediates = rest }) j

  abbrev pub chain_turn : Scheduler → Option (ScanJob × List ScanJob) → Scheduler
  chain_turn s none = s
  chain_turn s (some (j, rest)) = finish_scan (record s { waiting = rest }) j

  unfoldable pub step : Scheduler → Event → Scheduler
  unfolding run_scan schedule
  step s (batch deleted js) = schedule s deleted js
  step s turn = run_immediate s s.immediates
  step s (read key seed) =
      if includes s.reading key
      then seed_draw (record s { reading = filter (λ k. not (k == key)) s.reading }) key seed
      else s
  step s (chain key) = if includes s.reading key then s else chain_turn s (take_first key s.waiting)

  unfoldable pub run : Scheduler → List Event → Scheduler
  unfolding step
  run s [] = s
  run s (e ∷ es) = run (step s e) es

abbrev pub jobs_of : List Immediate → List ScanJob
jobs_of [] = []
jobs_of (forget tid draw ∷ q) = jobs_of q
jobs_of (scan j ∷ q) = j ∷ jobs_of q

abbrev pub idle_scans : Scans
idle_scans = record {
  memory = [];
  lines = [];
  table = [];
  scans = 0;
  introduced_count = 0;
  pre_existing_count = 0;
  baseline_count = 0;
  failures = 0;
  evicted = 0;
  failing_since = 0;
}

abbrev pub initial : Scheduler
initial = record {
  immediates = [];
  waiting = [];
  reading = [];
  pending = 0;
  shed = 0;
  seeded = 0;
  seed_failures = 0;
  scans = idle_scans;
  accepted = [];
  finished = [];
}
