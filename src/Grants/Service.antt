-- ===== src/Grants/Service.antt =====
-- `create` and `revoke` of src/modules/factory/grants.service.ts over the table of
-- src/storage/postgres/postgres-grant.storage.ts, and src/modules/factory/helpers/providerAdmin.ts.
-- An absent string, and the empty one where the code tests for truth, are one; the answers of the
-- other tables are fields of `Host`. Log lines are left out.
pub mod Owned
pub mod Created
use competition_factory_serv.Prelude.{
  ℕ, String, ◌==◌, Bool, true, false, not, Option, none, some, List, [], ◌∷◌, ◌++◌, if◌then◌else◌,
  is_text, lookup, find,
}
use competition_factory_serv.Access.Context.{UserContext, Tournament, provider_admin}
use competition_factory_serv.Grants.Validation.{
  Entries, ScopeValue, no_scope, not_object, entries, DateValue, Rules, validate_capability,
  validate_scope, validate_window, first_problem,
}

-- `user` is `none` for an unknown email, and `some none` for a user without an id.
pub record Host : Type 0 where
  pub rules : Rules
  pub tournament : String → Option Tournament
  pub user : String → Option (Option String)
  pub is_associated : String → String → Bool

pub record CreateGrantParams : Type 0 where
  pub tournament_id : String
  pub user_email : String
  pub capability : Option String
  pub scope : ScopeValue
  pub not_before : DateValue
  pub not_after : DateValue

pub record TournamentGrantRow : Type 0 where
  pub grant_id : String
  pub tournament_id : String
  pub user_id : String
  pub provider_id : String
  pub capability : Option String
  pub scope : ScopeValue
  pub not_before : DateValue
  pub not_after : DateValue
  pub granted_by : Option String

abbrev pub Table : Type 0
Table = List TournamentGrantRow

pub data Answer : Type 0 where
  refused : String → Answer
  granted : String → Answer
  revoked : Bool → Answer

abbrev pub insufficient_permissions : String
insufficient_permissions = "Insufficient permissions — must be PROVIDER_ADMIN or SUPER_ADMIN"

unfoldable pub is_provider_admin_for : Option UserContext → String → Bool
is_provider_admin_for none provider_id = false
is_provider_admin_for (some ctx) provider_id =
    if provider_id == ""
    then false
    else if ctx.is_super_admin
    then true
    else is_text (lookup ctx.provider_roles provider_id) provider_admin

abbrev provider_of : Option Tournament → String
provider_of none = ""
provider_of (some t) = elim t.organisation_id [ none ↦ "" | some p ↦ p ]

-- `scope ?? {}`
abbrev or_empty_scope : ScopeValue → ScopeValue
or_empty_scope no_scope = entries []
or_empty_scope not_object = not_object
or_empty_scope (entries e) = entries e

abbrev user_id_of : Option UserContext → Option String
user_id_of none = none
user_id_of (some ctx) = some ctx.user_id

abbrev pub find_by_id : String → Table → Option TournamentGrantRow
find_by_id id table = find (λ row. row.grant_id == id) table

-- `DELETE … WHERE grant_id = $1`: the id is the table's primary key, so at most one row has it.
unfoldable pub delete_row : String → Table → Table
delete_row id [] = []
delete_row id (row ∷ rows) = if row.grant_id == id then rows else row ∷ delete_row id rows

pub data Request : Type 0 where
  create_grant : CreateGrantParams → Option UserContext → ℕ → String → Request
  revoke_grant : String → Option UserContext → Request

module _ (h : Host) where
  unfoldable pub resolve_provider_id : String → String
  resolve_provider_id tournament_id = provider_of (h.tournament tournament_id)

  unfoldable pub invalid : CreateGrantParams → ℕ → Option String
  invalid p now = first_problem (validate_capability h.rules p.capability) (
      first_problem (validate_scope h.rules p.scope)
        (validate_window h.rules p.not_before p.not_after now))

  abbrev pub new_row : CreateGrantParams → Option UserContext → String → String → TournamentGrantRow
  new_row p grantor grantee id = record {
    grant_id = id;
    tournament_id = p.tournament_id;
    user_id = grantee;
    provider_id = resolve_provider_id p.tournament_id;
    capability = p.capability;
    scope = or_empty_scope p.scope;
    not_before = p.not_before;
    not_after = p.not_after;
    granted_by = user_id_of grantor;
  }

  abbrev pub create_for_user :
      CreateGrantParams
      → Option UserContext
      → String
      → Table
      → Option (Option String)
      → Answer × Table
  create_for_user p grantor id table none = (refused "User not found", table)
  create_for_user p grantor id table (some none) =
      (refused "User has no UUID — schema migration may not have run", table)
  create_for_user p grantor id table (some (some grantee)) =
      if grantee == ""
      then (refused "User has no UUID — schema migration may not have run", table)
      else if not (h.is_associated grantee (resolve_provider_id p.tournament_id))
      then (refused "User is not associated with this provider — invite them first", table)
      else (granted id, table ++ new_row p grantor grantee id ∷ [])

  abbrev pub create_if_valid :
      CreateGrantParams → Option UserContext → String → Table → Option String → Answer × Table
  create_if_valid p grantor id table (some problem) = (refused problem, table)
  create_if_valid p grantor id table none = create_for_user p grantor id table (h.user p.user_email)

  -- `id` is the id that the database makes.
  unfoldable pub create :
      CreateGrantParams → Option UserContext → ℕ → String → Table → Answer × Table
  create p grantor now id table =
      if p.tournament_id == ""
      then (refused "tournamentId is required", table)
      else if p.user_email == ""
      then (refused "userEmail is required", table)
      else if resolve_provider_id p.tournament_id == ""
      then (refused "Tournament not found, or it has no owning provider", table)
      else if not (is_provider_admin_for grantor (resolve_provider_id p.tournament_id))
      then (refused insufficient_permissions, table)
      else create_if_valid p grantor id table (invalid p now)

  abbrev revoke_found :
      String → Option UserContext → Table → Option TournamentGrantRow → Answer × Table
  revoke_found id grantor table none = (refused "Grant not found", table)
  revoke_found id grantor table (some row) =
      if not (is_provider_admin_for grantor row.provider_id)
      then (refused insufficient_permissions, table)
      else (revoked true, delete_row id table)

  unfoldable pub revoke : String → Option UserContext → Table → Answer × Table
  unfolding delete_row
  revoke id grantor table =
      if not (h.rules.is_uuid id)
      then (refused "Grant not found", table)
      else revoke_found id grantor table (find_by_id id table)

  abbrev pub handle : Table → Request → Table
  handle table (create_grant p grantor now id) = (create p grantor now id table).1
  handle table (revoke_grant id grantor) = (revoke id grantor table).1

  unfoldable pub handle_all : Table → List Request → Table
  unfolding create revoke
  handle_all table [] = table
  handle_all table (q ∷ qs) = handle_all (handle table q) qs
