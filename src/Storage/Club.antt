-- ===== src/Storage/Club.antt =====
-- A club's tournaments, for the tests of the storage.
use competition_factory_serv.Prelude.{
  ℕ, String, ◌==◌, true, false, none, some, [], ◌∷◌, if◌then◌else◌,
}
use competition_factory_serv.Access.Context.{UserContext}
use competition_factory_serv.Storage.{TournamentRecord, StoredRow, Store, Services}
use competition_factory_serv.Storage.Delete.{Request}

abbrev pub upper : String → String
upper role = role

abbrev pub svc : Services
svc = record {
  get_provider = λ id. if id == "club" then some (some "CLB") else none;
  calendar_entry = λ r. (r.tournament_id, r.rest);
  publish_state = λ r. some true;
  participation = λ r. some [];
  size = λ r. 7;
  is_uuid = λ id. true;
  outbox_enabled = true;
  has_audit = true;
}

abbrev pub club_record : String → String → TournamentRecord
club_record id end_date = record {
  tournament_id = some id;
  organisation_id = some "club";
  end_date = some end_date;
  is_mock = false;
  extensions = [];
  rest = "";
}

abbrev pub other_record : TournamentRecord
other_record = record (club_record "open" "2026-12-01") { organisation_id = some "rival" }

abbrev pub row_of : TournamentRecord → ℕ → StoredRow
row_of r epoch = record { document = r; owner_epoch = epoch }

abbrev pub store : Store
store = record {
  tournaments =
      ("spring", row_of (club_record "spring" "2026-04-01") 0)
      ∷ ("autumn", row_of (club_record "autumn" "2026-12-01") 3)
      ∷ ("open", row_of other_record 0)
      ∷ [];
  archive = [];
  calendar = [];
  participation = [];
  outbox = [];
  audit = [];
}

abbrev pub ctx : UserContext
ctx = record {
  user_id = "u1";
  email = "u1@club";
  is_super_admin = false;
  global_roles = [];
  provider_roles = ("club", "PROVIDER_ADMIN") ∷ [];
  provider_ids = "club" ∷ [];
  provisioner_provider_ids = none;
  acting_provider_id = none;
  provider_selection_pending = false;
  contact_email = none;
  email_verified_at = none;
}

abbrev pub request : Request
request = record { user = none; user_context = some ctx; today = "2026-10-10" }
