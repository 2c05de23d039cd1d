-- ===== src/Integrity/Notices.antt =====
-- `drawIdsFromNotice`, `snapshotTouchedDraws` and `methodNames` of
-- src/modules/factory/helpers/executionQueueIntegrity.ts. A value that is not a string is `none`, an
-- item that is no object is `none`; the two topics are constants of the factory package.
pub mod Snapshot
use competition_factory_serv.Prelude.{
  ℕ, String, ◌==◌, Bool, true, false, not, ◌&&◌, ◌||◌, Option, none, some, List, [], ◌∷◌, ◌++◌,
  if◌then◌else◌, is_empty, includes, take,
}
use competition_factory_serv.Access.Calendar.Sets.{to_set}
use competition_factory_serv.Integrity.Scan.{Target}

-- A notice's item: `drawId`, `drawDefinition?.drawId`, `matchUp?.drawId` and each `matchUps[].drawId`.
pub record Item : Type 0 where
  pub draw_id : Option String
  pub definition_id : Option String
  pub match_up_draw : Option String
  pub match_up_draws : List (Option String)

pub record DrawIds : Type 0 where
  pub touched : List String
  pub deleted : List String
  pub added : List String

-- The candidates that are strings and not empty.
abbrev pub named_ids : List (Option String) → List String
named_ids [] = []
named_ids (none ∷ ids) = named_ids ids
named_ids (some id ∷ ids) = if id == "" then named_ids ids else id ∷ named_ids ids

abbrev pub string_ids : Option String → List String
string_ids none = []
string_ids (some id) = id ∷ []

abbrev pub candidates : Item → List (Option String)
candidates item = item.draw_id ∷ item.definition_id ∷ item.match_up_draw ∷ item.match_up_draws

module _ (deleted_draw_ids add_draw_definition : String) where
  abbrev pub item_ids : String → Item → DrawIds
  item_ids topic item =
      if topic == deleted_draw_ids
      then record { touched = []; deleted = string_ids item.draw_id; added = [] }
      else record {
        touched = named_ids (candidates item);
        deleted = [];
        added = if topic == add_draw_definition then named_ids (item.definition_id ∷ []) else [];
      }

  unfoldable pub draw_ids_from_notice : String → List (Option Item) → DrawIds
  draw_ids_from_notice topic [] = record { touched = []; deleted = []; added = [] }
  draw_ids_from_notice topic (none ∷ items) = draw_ids_from_notice topic items
  draw_ids_from_notice topic (some item ∷ items) =
      let here = item_ids topic item in
      let rest = draw_ids_from_notice topic items in
      record {
        touched = here.touched ++ rest.touched;
        deleted = here.deleted ++ rest.deleted;
        added = here.added ++ rest.added;
      }

-- A record's events, each with the ids of its drawDefinitions.
abbrev pub RecordDraws : Type 0
RecordDraws = List (List (Option String))

pub record Batch : Type 0 where
  pub methods : List String
  pub draws : List Target
  pub deleted : List String

abbrev max_logged_methods : ℕ
max_logged_methods = 20

abbrev strings : List (Option String) → List String
strings [] = []
strings (none ∷ names) = strings names
strings (some name ∷ names) = name ∷ strings names

unfoldable pub method_names : List (Option String) → List String
method_names names = take max_logged_methods (to_set (strings names))

-- The loop's state: the set `found` and the targets.
abbrev pub Found : Type 0
Found = List String × List Target

module _ (touched added : List String) where
  abbrev pub visit_draw : String → Option String → Found → Found
  visit_draw tournament_id none state = state
  visit_draw tournament_id (some draw_id) (found, draws) =
      if not (includes touched draw_id) || includes found draw_id then (found, draws) else (
        found ++ draw_id ∷ [],
        draws
            ++ record {
              tournament_id = tournament_id;
              draw_id = draw_id;
              added = includes added draw_id;
            }
              ∷ [],
      )

  unfoldable pub visit_draws : String → List (Option String) → Found → Found
  visit_draws tid [] state = state
  visit_draws tid (d ∷ ds) state = visit_draws tid ds (visit_draw tid d state)

  unfoldable pub visit_events : String → RecordDraws → Found → Found
  unfolding visit_draws
  visit_events tid [] state = state
  visit_events tid (e ∷ es) state = visit_events tid es (visit_draws tid e state)

  unfoldable pub visit_records : List (String × RecordDraws) → Found → Found
  unfolding visit_events
  visit_records [] state = state
  visit_records ((tid, events) ∷ rest) state = visit_records rest (visit_events tid events state)

-- `off` says that the mode is `off`; the sets are lists without their duplicates.
unfoldable pub snapshot_touched_draws :
    Bool
    → List String
    → List String
    → List String
    → List (String × RecordDraws)
    → List (Option String)
    → Option Batch
unfolding visit_records method_names
snapshot_touched_draws off touched deleted added records names =
    let draws = (visit_records touched added records ([], [])).1 in
    if off
    then none
    else if is_empty touched && is_empty deleted
    then none
    else if is_empty draws && is_empty deleted
    then none
    else some (record { methods = method_names names; draws = draws; deleted = deleted })
