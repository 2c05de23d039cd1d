-- ===== src/Access/Provider.antt =====
-- The provider that a session acts for, and the two coarse gates:
-- src/modules/factory/helpers/actingProviderScope.ts, checkProvider.ts and checkUser.ts.
use competition_factory_serv.Prelude.{
  String, ◌==◌, Bool, true, false, not, ◌&&◌, ◌||◌, Option, none, some, List, [], ◌∷◌, ◌++◌,
  if◌then◌else◌, truthy, includes, is_empty,
}
use competition_factory_serv.Access.Context.{UserContext, Tournament, super_admin_role}
use competition_factory_serv.Access.Calendar.{inherited}

abbrev pub acting_is : Option String → String → Bool
acting_is none provider_id = true
acting_is (some id) provider_id = if id == "" then true else id == provider_id

unfoldable pub acting_provider_allows : Option UserContext → String → Bool
acting_provider_allows none provider_id = true
acting_provider_allows (some ctx) provider_id =
    if ctx.is_super_admin
    then true
    else if ctx.provider_selection_pending
    then false
    else acting_is ctx.acting_provider_id provider_id

abbrev pub only_one : List String → Option String
only_one [] = none
only_one (id ∷ []) = some id
only_one (id ∷ other ∷ ids) = none

unfoldable pub session_provider_id : Option UserContext → Option String
session_provider_id none = none
session_provider_id (some ctx) =
    if ctx.provider_selection_pending
    then none
    else if truthy ctx.acting_provider_id
    then ctx.acting_provider_id
    else only_one ctx.provider_ids

-- The legacy user object; absent lists are empty.
pub record User : Type 0 where
  pub roles : List String
  pub provider_ids : List String

abbrev pub ctx_super : Option UserContext → Bool
ctx_super none = false
ctx_super (some ctx) = ctx.is_super_admin

abbrev pub user_super : Option User → Bool
user_super none = false
user_super (some user) = includes user.roles super_admin_role

abbrev pub user_ids : Option User → List String
user_ids none = []
user_ids (some user) = user.provider_ids

abbrev pub known_providers : Option User → Option UserContext → List String
known_providers user none = user_ids user
known_providers user (some ctx) =
    (if not (is_empty ctx.provider_ids) then ctx.provider_ids else user_ids user)
    ++ inherited ctx.provisioner_provider_ids

abbrev pub passes : Option String → Option UserContext → List String → Bool → Bool
passes none ctx ids write = not write
passes (some p) ctx ids write =
    if p == "" then not write else includes ids p && acting_provider_allows ctx p

-- The loop of `checkProvider`.
unfoldable pub check_records : List Tournament → Option UserContext → List String → Bool → Bool
check_records [] ctx ids write = true
check_records (t ∷ ts) ctx ids write =
    let rest = check_records ts ctx ids write in
    if passes t.organisation_id ctx ids write then rest else false

unfoldable pub check_provider : List Tournament → Option User → Option UserContext → Bool → Bool
unfolding check_records
check_provider records user ctx write =
    if ctx_super ctx
    then true
    else if user_super user
    then true
    else check_records records ctx (known_providers user ctx) write

abbrev ctx_associated : Option UserContext → Bool
ctx_associated none = false
ctx_associated (some ctx) =
    not (is_empty ctx.provider_ids) || not (is_empty (inherited ctx.provisioner_provider_ids))

unfoldable pub check_user : Option User → Option UserContext → Bool
check_user user ctx =
    if ctx_super ctx
    then true
    else if ctx_associated ctx
    then true
    else user_super user || not (is_empty (user_ids user))
