-- ===== src/Mutation/Scope.antt =====
-- `checkGrantScope` of src/modules/factory/mutation-authorization.service.ts.
use competition_factory_serv.Prelude.{
  String, ◌==◌, ◌||◌, Option, none, some, List, [], ◌∷◌, ◌++◌, map, if◌then◌else◌, is_empty, filter,
  any,
}
use competition_factory_serv.Access.Context.{UserContext, Tournament}
use competition_factory_serv.Mutation.Target.{
  Method, Target, Event, target_from_params, enrich_target_from_record,
}
use competition_factory_serv.Mutation.Window.{window_denial_reason}
use competition_factory_serv.Mutation.Services.{
  Services, Grant, Read, read_threw, unreadable, read_value, Check, cleared, check_threw, denied,
  and_then,
}

pub record Denial : Type 0 where
  pub method : String
  pub dimension : String
  pub reason : Option String

abbrev pub name_of : Method → String
name_of m = elim m.method [ none ↦ "unknown" | some n ↦ n ]

-- `DIMENSION_LABEL`
abbrev dimension_label : String → Option String
dimension_label field =
    if field == "matchUpId"
    then some "matchUp"
    else if field == "eventId"
    then some "event"
    else if field == "drawId"
    then some "draw"
    else if field == "structureId"
    then some "structure"
    else if field == "venueId"
    then some "venue"
    else if field == "courtId"
    then some "court"
    else if field == "scheduledDate"
    then some "date"
    else none

abbrev or_text : Option String → String → String
or_text none d = d
or_text (some s) d = s

abbrev dimension_of : List String → String
dimension_of [] = "scope"
dimension_of (field ∷ fields) = if field == "" then "" else or_text (dimension_label field) "scope"

abbrev first_name : List Method → String
first_name [] = "unknown"
first_name (m ∷ ms) = name_of m

module _ (s : Services) where
  abbrev pub flat_fields : List (Grant s.Scope) → List String
  flat_fields [] = []
  flat_fields (g ∷ gs) = s.required_target_fields g.scope ++ flat_fields gs

  -- A record that is not found has no events; a read that throws leaves no target.
  abbrev pub completed : Target → Read (List Event) → List String → Option Target
  completed t read_threw fields = none
  completed t unreadable fields = some (enrich_target_from_record t [] fields)
  completed t (read_value events) fields = some (enrich_target_from_record t events fields)

  -- The target of a method, completed from the record where a grant needs that.
  unfoldable pub target_of : String → List (Grant s.Scope) → Method → Option Target
  target_of tid applicable m =
      if is_empty (flat_fields applicable)
      then some (target_from_params m)
      else completed (target_from_params m) (s.fetch_record tid) (flat_fields applicable)

  abbrev pub applicable_grants : List (Grant s.Scope) → Method → List (Grant s.Scope)
  applicable_grants live m = filter (λ g. s.grant_covers_method g.capability (name_of m)) live

  abbrev pub covered_at :
      Option Target → Grant s.Scope → List (Grant s.Scope) → Method → Check Denial
  covered_at none g gs m = check_threw
  covered_at (some target) g gs m =
      if any (λ a. s.is_target_in_scope a.scope target) (g ∷ gs)
      then cleared
      else denied (record {
        method = name_of m;
        dimension = dimension_of (s.required_target_fields g.scope);
        reason = none;
      })

  abbrev pub scope_denial : String → List (Grant s.Scope) → Method → Check Denial
  scope_denial tid [] m =
      denied (record { method = name_of m; dimension = "capability"; reason = none })
  scope_denial tid (g ∷ gs) m = covered_at (target_of tid (g ∷ gs) m) g gs m

  -- The loop over the methods of `checkGrantScope`.
  unfoldable pub check_methods : String → List (Grant s.Scope) → List Method → Check Denial
  check_methods tid live [] = cleared
  check_methods tid live (m ∷ ms) =
      and_then (scope_denial tid (applicable_grants live m) m) (check_methods tid live ms)

  abbrev pub live_grants : List (Grant s.Scope) → List (Grant s.Scope)
  live_grants grants = filter (λ g. s.is_within_window g) grants

  abbrev pub check_live :
      String → List (Grant s.Scope) → List (Grant s.Scope) → List Method → Check Denial
  check_live tid grants [] methods = denied (record {
    method = first_name methods;
    dimension = "time window";
    reason = some (window_denial_reason s.parse s.iso (map (λ g. g.window) grants) s.now);
  })
  check_live tid grants (g ∷ gs) methods = check_methods tid (g ∷ gs) methods

  abbrev pub check_grants : String → Option (List (Grant s.Scope)) → List Method → Check Denial
  check_grants tid none methods = cleared
  check_grants tid (some []) methods = cleared
  check_grants tid (some (g ∷ gs)) methods = check_live tid (g ∷ gs) (live_grants (g ∷ gs)) methods

  -- The record that a grant may need is that of the loop's tournament id, `record_id`.
  abbrev pub check_scope_at : String → Option String → UserContext → List Method → Check Denial
  check_scope_at record_id none ctx methods = cleared
  check_scope_at record_id (some tid) ctx methods =
      if tid == "" || ctx.user_id == ""
      then cleared
      else check_grants record_id (s.grants_for_subject ctx.user_id tid) methods

  unfoldable pub check_grant_scope : String → Tournament → UserContext → List Method → Check Denial
  check_grant_scope record_id t ctx methods =
      if ctx.is_super_admin || is_empty methods
      then cleared
      else check_scope_at record_id t.tournament_id ctx methods
