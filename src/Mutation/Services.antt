-- ===== src/Mutation/Services.antt =====
-- What the mutation gate calls: `authorizationView` of
-- src/modules/factory/mutation-authorization.service.ts and `getAssignedRoles` of
-- src/modules/factory/assignments.service.ts. What src/ does not hold is a field of `Services`: the
-- predicates of the package @courthive/provider-config, the rows that the database returns and the
-- runtime's dates and case conversion.
use competition_factory_serv.Prelude.{
  ℕ, String, ◌==◌, ◌≡◌, refl, ◌↔◌, Bool, Option, none, some, List, [], ◌∷◌, if◌then◌else◌, insert,
}
use competition_factory_serv.Access.Context.{Extension, Tournament}
use competition_factory_serv.Mutation.Target.{Target, Event}
use competition_factory_serv.Mutation.Window.{Windowed}

-- What `fetchTournamentUpdatedAt` returns where it succeeds.
pub record FetchedView : Type 0 where
  pub tournament_id : Option String
  pub provider_id : Option String
  pub extensions : List Extension

pub record AssignmentRow : Type 0 where
  pub tournament_id : String
  pub assignment_role : String

pub record Grant (Scope : Type 0) : Type 0 where
  pub capability : String
  pub scope : Scope
  pub window : Windowed

-- A call of the storage: it throws, it has no answer that can be used, or it has a value.
pub data Read (A : Type 0) : Type 0 where
  read_threw unreadable : Read A
  read_value : A → Read A

-- What a check ends in: it lets the mutation go on, it denies it, or a call inside it throws and the
-- gate rejects.
pub data Check (A : Type 0) : Type 0 where
  cleared check_threw : Check A
  denied : A → Check A

pub record Services : Type 1 where
  pub Scope : Type 0
  pub Config : Type 0
  pub Permissions : Type 0
  pub scoping : Bool
  pub now : ℕ
  pub parse : String → Option ℕ
  pub iso : ℕ → String
  pub upper : String → String
  -- Rows of the database. Two calls stand in a `try`, so `none` is one that throws; a `none` of
  -- `provider_config` is one that throws too, and the gate does not catch it.
  pub fetch_updated_at : String → Read FetchedView
  pub fetch_record : String → Read (List Event)
  pub assignment_rows : String → Option (List AssignmentRow)
  pub grants_for_subject : String → String → Option (List (Grant Scope))
  pub provider_config : String → Option (Config × Config)
  -- @courthive/provider-config
  pub is_within_window : Grant Scope → Bool
  pub grant_covers_method : String → String → Bool
  pub required_target_fields : Scope → List String
  pub is_target_in_scope : Scope → Target → Bool
  pub effective_permissions : Config → Config → Permissions
  pub is_mutation_allowed : String → Permissions → Bool

abbrev insert_row : List (String × String) → AssignmentRow → List (String × String)
insert_row roles row = insert roles row.tournament_id row.assignment_role

abbrev to_map : List (String × String) → List AssignmentRow → List (String × String)
to_map roles [] = roles
to_map roles (row ∷ rows) = to_map (insert_row roles row) rows

abbrev roles_of_rows : Option (List AssignmentRow) → List (String × String)
roles_of_rows none = []
roles_of_rows (some rows) = to_map [] rows

-- The tournament as the gates read it.
unfoldable pub authorization_view : Read FetchedView → Read Tournament
authorization_view read_threw = read_threw
authorization_view unreadable = unreadable
authorization_view (read_value v) = read_value (record {
  tournament_id = v.tournament_id;
  organisation_id = elim v.provider_id [ none ↦ none | some p ↦ if p == "" then none else some p ];
  extensions = v.extensions;
})

-- One check after another.
abbrev pub and_then : {A : Type 0} → Check A → Check A → Check A
and_then cleared rest = rest
and_then check_threw rest = check_threw
and_then (denied a) rest = denied a

pub and_then-cleared :
    {A : Type 0} (a b : Check A) → (and_then a b ≡ cleared) ↔ ((a ≡ cleared) × (b ≡ cleared))
and_then-cleared cleared b = ((λ h. (refl, h)), (λ h. h.1))
and_then-cleared check_threw b = ((λ h. cc), (λ h. cc h.0))
and_then-cleared (denied a) b = ((λ h. cc), (λ h. cc h.0))

module _ (s : Services) where
  unfoldable pub get_assigned_roles : String → List (String × String)
  get_assigned_roles user_id = roles_of_rows (s.assignment_rows user_id)
