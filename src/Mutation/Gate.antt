-- ===== src/Mutation/Gate.antt =====
-- `gate` and `checkProviderPermissionGate` of
-- src/modules/factory/mutation-authorization.service.ts. Log lines are left out.
use Prim.Native.String
use competition_factory_serv.Prelude.{
  String, ◌==◌, Bool, not, ◌&&◌, ◌||◌, Option, none, some, List, [], ◌∷◌, if◌then◌else◌, is_empty,
  find,
}
use competition_factory_serv.Access.Context.{UserContext, Tournament}
use competition_factory_serv.Access.Tournament.{can_mutate_tournament}
use competition_factory_serv.Access.Provider.{acting_provider_allows}
use competition_factory_serv.Mutation.Target.{Method}
use competition_factory_serv.Mutation.Services.{
  Services, Read, read_threw, unreadable, read_value, Check, cleared, check_threw, denied, and_then,
  authorization_view, get_assigned_roles,
}
use competition_factory_serv.Mutation.Scope.{Denial, check_grant_scope}

abbrev pub not_authorized : String
not_authorized = "Not authorized to modify this tournament"

abbrev pub not_permitted : String → String
not_permitted method = String.◌++◌ "Action not permitted: " method

abbrev pub scope_message : Option String → String → String
scope_message none dimension = String.◌++◌ "Not authorized for this " dimension
scope_message (some reason) dimension = reason

module _ (s : Services) where
  abbrev pub permissions_of : s.Config × s.Config → s.Permissions
  permissions_of config = s.effective_permissions config.0 config.1

  -- `method ? { method, providerId } : null`: an empty name counts as none.
  abbrev pub blocked : Option String → Check String
  blocked none = cleared
  blocked (some method) = if method == "" then cleared else denied method

  abbrev pub blocked_at : Option (s.Config × s.Config) → List String → Check String
  blocked_at none methods = check_threw
  blocked_at (some config) methods =
      blocked (find (λ m. not (s.is_mutation_allowed m (permissions_of config))) methods)

  unfoldable pub check_provider_permission_gate : Option String → List String → Check String
  check_provider_permission_gate none methods = cleared
  check_provider_permission_gate (some p) methods =
      if p == "" then cleared else blocked_at (s.provider_config p) methods

  -- The session writes only to the provider that it acts for, and never to a tournament without one.
  abbrev pub acts_for : UserContext → Option String → Bool
  acts_for ctx none = ctx.is_super_admin
  acts_for ctx (some p) =
      ctx.is_super_admin || (not (p == "") && acting_provider_allows (some ctx) p)

  abbrev pub permission_denial : Check String → Check String
  permission_denial cleared = cleared
  permission_denial check_threw = check_threw
  permission_denial (denied method) = denied (not_permitted method)

  abbrev pub denial_message : Check Denial → Check String → Check String
  denial_message cleared rest = rest
  denial_message check_threw rest = check_threw
  denial_message (denied d) rest = denied (scope_message d.reason d.dimension)

  module _ (ctx : UserContext) (requested : List String) (methods : List Method) where
    -- One round of the loop over the tournaments; `cleared` is `continue`.
    unfoldable pub tournament_denial : List (String × String) → Tournament → String → Check String
    tournament_denial roles t tid =
        if not (acts_for ctx t.organisation_id)
        then denied not_authorized
        else if not (can_mutate_tournament s.upper s.scoping t (some ctx) roles requested)
        then denied not_authorized
        else denial_message (check_grant_scope s tid t ctx methods) (
            if ctx.is_super_admin || is_empty requested
            then cleared
            else permission_denial (check_provider_permission_gate t.organisation_id requested))

    abbrev pub round : List (String × String) → Read Tournament → String → Check String
    round roles read_threw tid = check_threw
    round roles unreadable tid = cleared
    round roles (read_value t) tid = tournament_denial roles t tid

    unfoldable pub gate_loop : List (String × String) → List String → Check String
    gate_loop roles [] = cleared
    gate_loop roles (tid ∷ tids) =
        and_then (round roles (authorization_view (s.fetch_updated_at tid)) tid)
          (gate_loop roles tids)

  unfoldable pub gate : Option UserContext → List String → List String → List Method → Check String
  unfolding gate_loop
  gate none tids requested methods = cleared
  gate (some ctx) tids requested methods =
      gate_loop ctx requested methods (get_assigned_roles s ctx.user_id) tids
