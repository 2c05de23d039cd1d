-- ===== src/Access/Context.antt =====
-- modules/account/auth/decorators/user-context.decorator.ts, common/constants/roles.ts,
-- common/constants/feature-flags.ts and the parts of a tournament record that access checks read.
-- Optional strings are `Option String`; an absent optional Boolean is `false`.
use competition_factory_serv.Prelude.{
  String, ◌==◌, Bool, true, false, not, Option, none, some, List, if◌then◌else◌, includes,
}

abbrev pub super_admin_role : String
super_admin_role = "superadmin"

abbrev pub provisioner_role : String
provisioner_role = "provisioner"

abbrev pub provider_admin : String
provider_admin = "PROVIDER_ADMIN"

abbrev pub director : String
director = "DIRECTOR"

pub record UserContext : Type 0 where
  pub user_id : String
  pub email : String
  pub is_super_admin : Bool
  pub global_roles : List String
  pub provider_roles : List (String × String)
  pub provider_ids : List String
  pub provisioner_provider_ids : Option (List String)
  pub acting_provider_id : Option String
  pub provider_selection_pending : Bool
  pub contact_email : Option String
  pub email_verified_at : Option String

-- `ctx.provisionerProviderIds?.includes(id)`
abbrev pub inherits : Option (List String) → String → Bool
inherits none id = false
inherits (some ids) id = includes ids id

-- An extension's value is `some` where it is a string, the only values that access checks act on.
pub record Extension : Type 0 where
  pub name : String
  pub value : Option String

-- `organisation_id` is `parentOrganisation?.organisationId`.
pub record Tournament : Type 0 where
  pub tournament_id : Option String
  pub organisation_id : Option String
  pub extensions : List Extension

-- The flag reads the environment variable; the second component is the one-shot warning latch.
unfoldable pub is_tournament_access_scoping_enabled : Option String → Bool → Bool × Bool
is_tournament_access_scoping_enabled none warned = (true, true)
is_tournament_access_scoping_enabled (some raw) warned =
    if raw == "" then (true, true) else (not (raw == "false"), warned)
