-- ===== src/Access/Calendar.antt =====
-- The calendar scoped in memory and in SQL: the end of
-- src/modules/factory/helpers/checkTournamentAccess.ts (`scopeCalendarForUser`,
-- `buildCalendarScope`) and `buildWhere` of src/storage/postgres/postgres-calendar.storage.ts.
-- A clause of the WHERE text is a test on a row; NULL never passes one, and no clause is negated.
pub mod Sets
pub mod Parity
use competition_factory_serv.Prelude.{
  ℕ, String, ◌==◌, starts_with, Bool, true, false, not, ◌&&◌, ◌||◌, Option, none, some, List, [],
  ◌∷◌, ◌++◌, if◌then◌else◌, is_text, filter, any, all, includes, is_empty, lookup,
}
use competition_factory_serv.Access.Context.{UserContext, inherits, provider_admin}
use competition_factory_serv.Access.Tournament.{
  is_own, is_assigned, is_provisioner_created, provisioner_actor_prefix,
}
use Sets.{set_add, to_set}

-- A calendar entry, and the columns of its row that scoping reads.
pub record Entry : Type 0 where
  pub tournament_id : Option String
  pub provider_id : Option String
  pub created_by_user_id : Option String
  pub published : Bool

abbrev director_sees : UserContext → List String → Entry → Bool
director_sees ctx assigned e =
    if is_own e.created_by_user_id ctx.user_id
    then true
    else if is_assigned e.tournament_id assigned
    then true
    else is_provisioner_created e.created_by_user_id

abbrev member_sees : Option String → UserContext → List String → Entry → Bool
member_sees none ctx assigned e = false
member_sees (some role) ctx assigned e =
    if role == ""
    then false
    else if role == provider_admin
    then true
    else director_sees ctx assigned e

-- The callback of `tournaments.filter`.
abbrev pub user_sees : Option String → UserContext → List String → Entry → Bool
user_sees none ctx assigned e = true
user_sees (some provider_id) ctx assigned e =
    if provider_id == ""
    then true
    else if inherits ctx.provisioner_provider_ids provider_id
    then true
    else member_sees (lookup ctx.provider_roles provider_id) ctx assigned e

unfoldable pub scope_calendar_for_user :
    Bool → List Entry → Option UserContext → List String → List Entry
scope_calendar_for_user false tournaments ctx assigned = tournaments
scope_calendar_for_user true tournaments none assigned = []
scope_calendar_for_user true tournaments (some ctx) assigned =
    if ctx.is_super_admin
    then tournaments
    else filter (λ e. user_sees e.provider_id ctx assigned e) tournaments

pub record CalendarScope : Type 0 where
  pub unrestricted : Bool
  pub full_access_provider_ids : List String
  pub director_provider_ids : List String
  pub user_id : Option String
  pub assigned_tournament_ids : List String

abbrev empty_scope : Bool → CalendarScope
empty_scope unrestricted = record {
  unrestricted = unrestricted;
  full_access_provider_ids = [];
  director_provider_ids = [];
  user_id = none;
  assigned_tournament_ids = [];
}

-- The two sets after one round of the loop over `Object.entries(userContext.providerRoles ?? {})`.
abbrev pub next_full : List String → String → String → List String
next_full full provider_id role =
    if includes full provider_id
    then full
    else if role == provider_admin
    then set_add full provider_id
    else full

abbrev pub next_directed : List String → List String → String → String → List String
next_directed full directed provider_id role =
    if includes full provider_id
    then directed
    else if role == provider_admin
    then directed
    else if role == ""
    then directed
    else set_add directed provider_id

unfoldable pub split_roles :
    List (String × String) → List String → List String → List String × List String
split_roles [] full directed = (full, directed)
split_roles ((provider_id, role) ∷ rest) full directed =
    split_roles rest (next_full full provider_id role)
      (next_directed full directed provider_id role)

abbrev pub inherited : Option (List String) → List String
inherited none = []
inherited (some ids) = ids

-- The last `return` of `buildCalendarScope`.
abbrev pub member_scope : UserContext → List String → CalendarScope
member_scope ctx assigned = record {
  unrestricted = false;
  full_access_provider_ids =
      (split_roles ctx.provider_roles (to_set (inherited ctx.provisioner_provider_ids)) []).0;
  director_provider_ids =
      (split_roles ctx.provider_roles (to_set (inherited ctx.provisioner_provider_ids)) []).1;
  user_id = some ctx.user_id;
  assigned_tournament_ids = assigned;
}

unfoldable pub build_calendar_scope : Bool → Option UserContext → List String → CalendarScope
build_calendar_scope false ctx assigned = empty_scope true
build_calendar_scope true none assigned = empty_scope false
build_calendar_scope true (some ctx) assigned =
    if ctx.is_super_admin then empty_scope true else member_scope ctx assigned

pub record CalendarQuery : Type 0 where
  pub provider_ids : List String
  pub scope : CalendarScope
  pub published_only : Bool
  pub limit : ℕ
  pub offset : ℕ

-- `column = ANY($n)`
abbrev pub is_any : Option String → List String → Bool
is_any none ids = false
is_any (some id) ids = includes ids id

-- `if (condition) clauses.push(clause)`
abbrev push_if : Bool → (Entry → Bool) → List (Entry → Bool)
push_if c clause = if c then clause ∷ [] else []

abbrev creator_clause : Option String → List (Entry → Bool)
creator_clause none = []
creator_clause (some id) = if id == "" then [] else (λ e. is_text e.created_by_user_id id) ∷ []

unfoldable pub ownership : CalendarScope → List (Entry → Bool)
ownership scope =
    creator_clause scope.user_id
    ++ (push_if (not (is_empty scope.assigned_tournament_ids))
          (λ e. is_any e.tournament_id scope.assigned_tournament_ids)
        ++ (λ e. is_provisioner_created e.created_by_user_id) ∷ [])

-- `ownership.join(' OR ')`, or `FALSE` where there is none; `any` of no clause is false.
unfoldable pub visibility : CalendarScope → List (Entry → Bool)
visibility scope =
    push_if (not (is_empty scope.full_access_provider_ids))
      (λ e. is_any e.provider_id scope.full_access_provider_ids)
    ++ push_if (not (is_empty scope.director_provider_ids))
        (λ e. is_any e.provider_id scope.director_provider_ids && any (λ c. c e) (ownership scope))

unfoldable pub where_clauses : CalendarQuery → List (Entry → Bool)
where_clauses query =
    (λ e. is_any e.provider_id query.provider_ids)
    ∷ (push_if (not query.scope.unrestricted) (λ e. any (λ c. c e) (visibility query.scope))
        ++ push_if query.published_only (λ e. e.published))

-- The rows that a query counts and pages through.
unfoldable pub matching_rows : CalendarQuery → List Entry → List Entry
matching_rows query rows = filter (λ e. all (λ c. c e) (where_clauses query)) rows
