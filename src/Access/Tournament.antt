-- ===== src/Access/Tournament.antt =====
-- modules/factory/helpers/checkTournamentAccess.ts, lines 1-243. `scoping` is the value of
-- `isTournamentAccessScopingEnabled()`; an absent user context is `none`.
use competition_factory_serv.Prelude.{
  String, ◌==◌, starts_with, Bool, true, false, not, ◌&&◌, Option, none, some, List, [], ◌∷◌, ◌++◌,
  if◌then◌else◌, truthy, is_text, filter, find, all, includes, is_empty, lookup, keys,
}
use competition_factory_serv.Access.Context.{
  UserContext, Extension, Tournament, inherits, provider_admin,
}

abbrev pub created_by_user_id : String
created_by_user_id = "createdByUserId"

abbrev pub provisioner_actor_prefix : String
provisioner_actor_prefix = "provisioner:"

unfoldable pub is_provisioner_created : Option String → Bool
is_provisioner_created none = false
is_provisioner_created (some id) = starts_with id provisioner_actor_prefix

abbrev pub value_of : Option Extension → Option String
value_of none = none
value_of (some ext) = ext.value

unfoldable pub get_created_by_user_id : Tournament → Option String
get_created_by_user_id t = value_of (find (λ e. e.name == created_by_user_id) t.extensions)

abbrev pub creator_extension : Option String → List Extension
creator_extension none = []
creator_extension (some id) =
    if id == "" then [] else record { name = created_by_user_id; value = some id } ∷ []

-- The assignment to `tournament.extensions`; an absent tournament stays absent.
unfoldable pub set_created_by_user_id : Option Tournament → Option String → Option Tournament
set_created_by_user_id none user_id = none
set_created_by_user_id (some t) user_id = some (record t {
  extensions =
      filter (λ e. not (e.name == created_by_user_id)) t.extensions ++ creator_extension user_id;
})

-- `createdBy && createdBy === userId`
abbrev pub is_own : Option String → String → Bool
is_own created_by user_id = truthy created_by && is_text created_by user_id

-- `tournamentId && ids.has(tournamentId)`
abbrev pub is_assigned : Option String → List String → Bool
is_assigned none ids = false
is_assigned (some id) ids = not (id == "") && includes ids id

abbrev pub director_views : Tournament → UserContext → List String → Bool
director_views t ctx assigned =
    if is_own (get_created_by_user_id t) ctx.user_id
    then true
    else if is_assigned t.tournament_id assigned
    then true
    else is_provisioner_created (get_created_by_user_id t)

abbrev pub member_views : Option String → Tournament → UserContext → List String → Bool
member_views none t ctx assigned = false
member_views (some role) t ctx assigned =
    if role == ""
    then false
    else if role == provider_admin
    then true
    else director_views t ctx assigned

abbrev pub provider_views : Option String → Tournament → UserContext → List String → Bool
provider_views none t ctx assigned = true
provider_views (some provider_id) t ctx assigned =
    if provider_id == ""
    then true
    else if inherits ctx.provisioner_provider_ids provider_id
    then true
    else member_views (lookup ctx.provider_roles provider_id) t ctx assigned

unfoldable pub can_view_tournament : Bool → Tournament → Option UserContext → List String → Bool
can_view_tournament false t ctx assigned = true
can_view_tournament true t none assigned = false
can_view_tournament true t (some ctx) assigned =
    if ctx.is_super_admin then true else provider_views t.organisation_id t ctx assigned

abbrev pub scorer_allowed_methods : List String
scorer_allowed_methods = "setMatchUpStatus" ∷ []

pub data AssignmentClass : Type 0 where
  full scorer none_at_all : AssignmentClass

-- `String(role ?? '').toUpperCase()` of a string is the runtime's; it is the parameter `upper`.
unfoldable pub classify_assignment_role : (String → String) → Option String → AssignmentClass
classify_assignment_role upper none =
    if upper "" == "OBSERVER" then none_at_all else if upper "" == "SCORER" then scorer else full
classify_assignment_role upper (some role) =
    if upper role == "OBSERVER"
    then none_at_all
    else if upper role == "SCORER"
    then scorer
    else full

abbrev pub role_of : Option String → List (String × String) → Option String
role_of none roles = none
role_of (some id) roles = if id == "" then none else lookup roles id

abbrev pub class_allows : AssignmentClass → List String → Bool
class_allows none_at_all methods = false
class_allows scorer methods =
    not (is_empty methods) && all (λ m. includes scorer_allowed_methods m) methods
class_allows full methods = true

abbrev pub is_provider_admin_at : UserContext → String → Bool
is_provider_admin_at ctx provider_id =
    is_text (lookup ctx.provider_roles provider_id) provider_admin

module _ (upper : String → String) where
  abbrev pub provider_mutates :
      Option String → Tournament → UserContext → List (String × String) → List String → Bool
  provider_mutates none t ctx roles methods = true
  provider_mutates (some provider_id) t ctx roles methods =
      if provider_id == ""
      then true
      else if inherits ctx.provisioner_provider_ids provider_id
      then true
      else if is_provider_admin_at ctx provider_id
      then true
      else if is_own (get_created_by_user_id t) ctx.user_id
      then true
      else class_allows (classify_assignment_role upper (role_of t.tournament_id roles)) methods

  abbrev pub may_mutate :
      Bool → Tournament → Option UserContext → List (String × String) → List String → Bool
  may_mutate false t ctx roles methods = true
  may_mutate true t none roles methods = true
  may_mutate true t (some ctx) roles methods =
      if ctx.is_super_admin then true else provider_mutates t.organisation_id t ctx roles methods

  unfoldable pub can_mutate_tournament :
      Bool → Tournament → Option UserContext → List (String × String) → List String → Bool
  can_mutate_tournament scoping t ctx roles methods =
      if not (can_view_tournament scoping t ctx (keys roles))
      then false
      else may_mutate scoping t ctx roles methods

abbrev pub member_deletes : Option String → Tournament → UserContext → List String → Bool
member_deletes none t ctx assigned = false
member_deletes (some role) t ctx assigned =
    if role == ""
    then false
    else if role == provider_admin
    then true
    else if is_own (get_created_by_user_id t) ctx.user_id
    then true
    else is_assigned t.tournament_id assigned

abbrev pub provider_deletes : Option String → Tournament → UserContext → List String → Bool
provider_deletes none t ctx assigned = false
provider_deletes (some provider_id) t ctx assigned =
    if provider_id == ""
    then false
    else if inherits ctx.provisioner_provider_ids provider_id
    then true
    else member_deletes (lookup ctx.provider_roles provider_id) t ctx assigned

unfoldable pub can_delete_tournament : Tournament → Option UserContext → List String → Bool
can_delete_tournament t none assigned = false
can_delete_tournament t (some ctx) assigned =
    if ctx.is_super_admin then true else provider_deletes t.organisation_id t ctx assigned
