-- ===== src/Mutation/Tests.antt =====
-- A concrete deployment, tournament and batch of methods at which the mutation theorems apply.
use competition_factory_serv.Prelude.{
  ℕ, String, ◌==◌, ◌≡◌, refl, ◌↔◌, ◌⊎◌, Bool, true, false, Option, none, some, List, [], ◌∷◌, All,
  if◌then◌else◌, is_text, nat_eq,
}
use competition_factory_serv.Access.Context.{UserContext, Tournament}
use competition_factory_serv.Access.Tournament.{
  can_mutate_tournament, can_view_tournament, get_created_by_user_id, classify_assignment_role,
}
use competition_factory_serv.Access.Provider.{acting_provider_allows}
use competition_factory_serv.Mutation.Target.{
  Method, Target, MatchUp, structure, nil, cons, Event, target_from_params,
  enrich_target_from_record, enrich_from_events, enrich_from_draws, find_in_structure,
  find_in_structures, find_match_up,
}
use competition_factory_serv.Mutation.Completed.{
  IsFilledFrom, Extends, enrich_target_from_record_cases, enrich_target_from_record-Extends,
}
use competition_factory_serv.Mutation.Located.{LacksAll}
use competition_factory_serv.Mutation.Window.{
  Windowed, starts_at, ended_at, generic, window_denial_reason,
}
use competition_factory_serv.Mutation.Window.Soonest.{
  IsSoonestStart, IsLatestExpiry, NoUpcomingStart, NoPastExpiry, window_denial_reason_cases,
}
use competition_factory_serv.Mutation.Services.{
  Grant, Services, read_threw, unreadable, read_value, cleared, check_threw, denied,
  authorization_view, get_assigned_roles,
}
use competition_factory_serv.Mutation.Scope.{check_grant_scope, check_methods, target_of}
use competition_factory_serv.Mutation.Gate.{
  check_provider_permission_gate, gate, gate_loop, tournament_denial,
}
use competition_factory_serv.Mutation.Coverage.{IsExempt, IsHeld, check_grant_scope_iff}
use competition_factory_serv.Mutation.Admission.{Clears, gate_iff}

-- A grant's scope is one draw.
abbrev grant_on : String → Grant String
grant_on draw = record {
  capability = "SCORE";
  scope = draw;
  window = record { not_before = some "10"; not_after = some "20" };
}

abbrev parse : String → Option ℕ
parse s = if s == "10" then some 10 else if s == "20" then some 20 else none

abbrev iso : ℕ → String
iso n = if nat_eq n 10 then "10" else "20"

abbrev final_match : MatchUp
final_match = record { match_up_id = some "m1"; court_id = some "c1"; scheduled_date = none }

abbrev tournament_events : List Event
tournament_events =
    record {
      event_id = some "e1";
      draws =
          record {
            draw_id = some "d1";
            structures = cons (structure (some "s1") (final_match ∷ []) nil) nil;
          }
          ∷ [];
    }
    ∷ []

abbrev deployment : Services
deployment = record {
  Scope = String;
  Config = Unit;
  Permissions = Bool;
  scoping = true;
  now = 15;
  parse = parse;
  iso = iso;
  upper = λ s. s;
  fetch_updated_at = λ tid.
      read_value (record { tournament_id = some tid; provider_id = some "club"; extensions = [] });
  fetch_record = λ tid. read_value tournament_events;
  assignment_rows = λ user. some (record { tournament_id = "t1"; assignment_role = "SCORER" } ∷ []);
  grants_for_subject = λ user tid. some (grant_on "d1" ∷ []);
  provider_config = λ p. some (tt, tt);
  is_within_window = λ g. true;
  grant_covers_method = λ capability method. method == "setMatchUpStatus";
  required_target_fields = λ scope. "drawId" ∷ [];
  is_target_in_scope = λ scope target. is_text target.draw_id scope;
  effective_permissions = λ a b. true;
  is_mutation_allowed = λ method permissions. permissions;
}

abbrev caller : UserContext
caller = record {
  user_id = "u1";
  email = "u1@example.org";
  is_super_admin = false;
  global_roles = [];
  provider_roles = ("club", "DIRECTOR") ∷ [];
  provider_ids = "club" ∷ [];
  provisioner_provider_ids = none;
  acting_provider_id = none;
  provider_selection_pending = false;
  contact_email = none;
  email_verified_at = none;
}

abbrev score : Option String → Method
score draw = record {
  method = some "setMatchUpStatus";
  params = record {
    match_up_id = some "m1";
    match_up_ids = [];
    draw_id = draw;
    event_id = none;
    structure_id = none;
    venue_id = none;
    court_id = none;
    scheduled_date = none;
    date = none;
  };
}

abbrev cup : Tournament
cup = record { tournament_id = some "t1"; organisation_id = some "club"; extensions = [] }

gate_iff_example :
    (gate deployment (some caller) ("t1" ∷ []) ("setMatchUpStatus" ∷ []) (score (some "d1") ∷ [])
      ≡ cleared)
    ↔ All
        (λ tid.
          Clears deployment caller
            ("setMatchUpStatus" ∷ [])
            (score (some "d1") ∷ [])
            (authorization_view (deployment.fetch_updated_at tid))
            tid)
        ("t1" ∷ [])
gate_iff_example =
    gate_iff deployment caller ("t1" ∷ []) ("setMatchUpStatus" ∷ []) (score (some "d1") ∷ [])
      (refl, tt)

-- The scorer of draw d1 scores there, and nowhere else.
gate_test :
    (gate deployment (some caller) ("t1" ∷ []) ("setMatchUpStatus" ∷ []) (score (some "d1") ∷ [])
      ≡ cleared)
    × (gate deployment (some caller) ("t1" ∷ []) ("setMatchUpStatus" ∷ []) (score (some "d2") ∷ [])
        ≡ denied "Not authorized for this draw")
    × (gate deployment (some caller) ("t1" ∷ []) ("addEvent" ∷ []) (score (some "d1") ∷ [])
        ≡ denied "Not authorized to modify this tournament")
unfolding gate gate_loop tournament_denial check_grant_scope check_methods target_of
    target_from_params enrich_target_from_record enrich_from_events enrich_from_draws
    find_in_structure find_in_structures find_match_up authorization_view acting_provider_allows
    can_mutate_tournament can_view_tournament get_created_by_user_id get_assigned_roles
    classify_assignment_role check_provider_permission_gate
gate_test = (refl, refl, refl)

-- A read that throws rejects the gate, one that fails skips the tournament.
gate_reads_test :
    (gate
        (record deployment { fetch_updated_at = λ tid. read_threw })
        (some caller)
        ("t1" ∷ [])
        ("setMatchUpStatus" ∷ [])
        []
      ≡ check_threw)
    × (gate
          (record deployment { fetch_updated_at = λ tid. unreadable })
          (some caller)
          ("t1" ∷ [])
          ("setMatchUpStatus" ∷ [])
          []
        ≡ cleared)
unfolding gate gate_loop authorization_view
gate_reads_test = (refl, refl)

check_grant_scope_iff_example :
    (check_grant_scope deployment "t1" cup caller (score (some "d1") ∷ []) ≡ cleared) ↔ (
      IsExempt deployment cup caller (score (some "d1") ∷ [])
      ⊎ ((tid : String) × (some "t1" ≡ some tid)
          × IsHeld deployment "t1"
              (deployment.grants_for_subject "u1" tid)
              (score (some "d1") ∷ [])))
check_grant_scope_iff_example =
    check_grant_scope_iff deployment "t1" cup caller (score (some "d1") ∷ [])

abbrev late : List Windowed
late = record { not_before = some "10"; not_after = some "20" } ∷ []

window_denial_reason_cases_example :
    ((s : ℕ) × IsSoonestStart parse 25 late s
      × (window_denial_reason parse iso late 25 ≡ starts_at (iso s)))
    ⊎ (NoUpcomingStart parse 25 late
        × (((e : ℕ) × IsLatestExpiry parse 25 late e
              × (window_denial_reason parse iso late 25 ≡ ended_at (iso e)))
            ⊎ (NoPastExpiry parse 25 late × (window_denial_reason parse iso late 25 ≡ generic))))
window_denial_reason_cases_example = window_denial_reason_cases parse iso late 25

abbrev scoring : Target
scoring = record {
  match_up_id = some "m1";
  draw_id = none;
  event_id = none;
  structure_id = none;
  venue_id = none;
  court_id = none;
  scheduled_date = none;
}

enrich_target_from_record_cases_example :
    IsFilledFrom scoring "m1" tournament_events
      (enrich_target_from_record scoring tournament_events ("structureId" ∷ []))
    ⊎ ((enrich_target_from_record scoring tournament_events ("structureId" ∷ []) ≡ scoring)
        × All (λ e. All (λ d. LacksAll d.structures "m1") e.draws) tournament_events)
enrich_target_from_record_cases_example =
    enrich_target_from_record_cases scoring tournament_events ("structureId" ∷ []) "m1" refl refl
      refl

enrich_target_from_record-Extends_example :
    Extends scoring (enrich_target_from_record scoring tournament_events ("courtId" ∷ []))
enrich_target_from_record-Extends_example =
    enrich_target_from_record-Extends scoring tournament_events ("courtId" ∷ [])

-- The record adds the place of the matchUp.
enrich_target_from_record_test :
    enrich_target_from_record scoring tournament_events ("courtId" ∷ []) ≡ record scoring {
      draw_id = some "d1";
      event_id = some "e1";
      structure_id = some "s1";
      court_id = some "c1";
    }
unfolding enrich_target_from_record enrich_from_events enrich_from_draws find_in_structure
    find_in_structures find_match_up
enrich_target_from_record_test = refl
