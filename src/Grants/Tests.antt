-- ===== src/Grants/Tests.antt =====
-- A concrete deployment with one provider, its administrator, and one user who may be granted.
use competition_factory_serv.Prelude.{
  String, ◌==◌, ◌≡◌, refl, false, not, ◌&&◌, none, some, List, [], ◌∷◌, if◌then◌else◌, all,
  includes, keys,
}
use competition_factory_serv.Access.Context.{UserContext}
use competition_factory_serv.Grants.Validation.{
  ids, entries, text, no_date, Rules, validate_capability, validate_scope, entries_problem,
  validate_window, to_instant,
}
use competition_factory_serv.Grants.Service.{
  Host, CreateGrantParams, TournamentGrantRow, refused, granted, Request, create_grant,
  revoke_grant, insufficient_permissions, is_provider_admin_for, resolve_provider_id, invalid,
  create, revoke, handle_all,
}
use competition_factory_serv.Grants.Service.Owned.{grants_at, handle_all-keeps_others}

abbrev rules : Rules
rules = record {
  full_grant = "*";
  permission_keys = "canEnterScores" ∷ [];
  scope_keys = "drawIds" ∷ [];
  is_evaluable = λ e. all (λ k. includes ("drawIds" ∷ []) k) (keys e);
  is_blank = λ s. s == "";
  is_uuid = λ s. not (s == "");
  parse = λ s. if s == "20" then some 20 else none;
}

abbrev host : Host
host = record {
  rules = rules;
  tournament = λ t.
      if t == "t1"
      then some (record { tournament_id = some "t1"; organisation_id = some "p1"; extensions = [] })
      else none;
  user = λ e. if e == "scorer@club" then some (some "u2") else none;
  is_associated = λ u p. u == "u2" && p == "p1";
}

abbrev admin_at : String → UserContext
admin_at provider = record {
  user_id = "u1";
  email = "admin@club";
  is_super_admin = false;
  global_roles = [];
  provider_roles = (provider, "PROVIDER_ADMIN") ∷ [];
  provider_ids = provider ∷ [];
  provisioner_provider_ids = none;
  acting_provider_id = none;
  provider_selection_pending = false;
  contact_email = none;
  email_verified_at = none;
}

abbrev scoring : CreateGrantParams
scoring = record {
  tournament_id = "t1";
  user_email = "scorer@club";
  capability = some "canEnterScores";
  scope = entries (("drawIds", ids (some "d1" ∷ [])) ∷ []);
  not_before = no_date;
  not_after = text "20";
}

abbrev scoring_row : TournamentGrantRow
scoring_row = record {
  grant_id = "g1";
  tournament_id = "t1";
  user_id = "u2";
  provider_id = "p1";
  capability = some "canEnterScores";
  scope = entries (("drawIds", ids (some "d1" ∷ [])) ∷ []);
  not_before = no_date;
  not_after = text "20";
  granted_by = some "u1";
}

scoring_is_granted :
    create host scoring (some (admin_at "p1")) 10 "g1" [] ≡ (granted "g1", scoring_row ∷ [])
unfolding create resolve_provider_id is_provider_admin_for invalid validate_capability
    validate_scope entries_problem validate_window to_instant
scoring_is_granted = refl

late_is_refused :
    create host scoring (some (admin_at "p1")) 20 "g1" []
    ≡ (refused "notAfter is already in the past — the grant would never be live", [])
unfolding create resolve_provider_id is_provider_admin_for invalid validate_capability
    validate_scope entries_problem validate_window to_instant
late_is_refused = refl

foreign_is_refused :
    revoke host "g1" (some (admin_at "p2")) (scoring_row ∷ [])
    ≡ (refused insufficient_permissions, scoring_row ∷ [])
unfolding revoke is_provider_admin_for
foreign_is_refused = refl

abbrev foreign_requests : List Request
foreign_requests =
    revoke_grant "g1" (some (admin_at "p2"))
    ∷ create_grant scoring (some (admin_at "p2")) 10 "g2"
    ∷ []

handle_all-keeps_others_example :
    grants_at "p1" (handle_all host (scoring_row ∷ []) foreign_requests)
    ≡ grants_at "p1" (scoring_row ∷ [])
unfolding is_provider_admin_for
handle_all-keeps_others_example =
    handle_all-keeps_others host "p1" foreign_requests (scoring_row ∷ []) (refl, (refl, tt))
