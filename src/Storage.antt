-- ===== src/Storage.antt =====
-- src/storage/tournament-storage.service.ts, TournamentStorageService, over the tables of
-- src/storage/postgres/postgres-tournament.storage.ts and postgres-calendar.storage.ts: the records,
-- the tables and what the service calls. Each statement of the database is done by itself; instants
-- of writing and the loggers are left out.
pub mod Delete
pub mod Cases
pub mod Removals
pub mod Answers
pub mod Save
pub mod Writes
pub mod Fence
pub mod Stale
pub mod Gate
pub mod Creators
pub mod Guard
pub mod Guarded
pub mod Foreign
pub mod Club
pub mod Tests
use competition_factory_serv.Prelude.{
  ℕ, String, ◌==◌, Bool, false, not, Option, none, some, List, map, filter, lookup, truthy,
}
use competition_factory_serv.Access.Context.{Extension, Tournament}

-- A value of an extension; `other` is neither a string nor a Boolean.
pub data ExtensionValue : Type 0 where
  text : String → ExtensionValue
  flag : Bool → ExtensionValue
  other : ExtensionValue

pub record StoredExtension : Type 0 where
  pub name : String
  pub value : ExtensionValue

-- `is_mock` is `isMock === true`; `rest` is the remaining document; absent extensions are none.
pub record TournamentRecord : Type 0 where
  pub tournament_id : Option String
  pub organisation_id : Option String
  pub end_date : Option String
  pub is_mock : Bool
  pub extensions : List StoredExtension
  pub rest : String

abbrev pub text_of : ExtensionValue → Option String
text_of (text t) = some t
text_of (flag b) = none
text_of other = none

-- What an access decision reads of a record.
unfoldable pub access_view : TournamentRecord → Tournament
access_view r = record {
  tournament_id = r.tournament_id;
  organisation_id = r.organisation_id;
  extensions = map (λ e. record { name = e.name; value = text_of e.value }) r.extensions;
}

-- A row of `tournaments`, of `deleted_tournaments`, and of `calendar_tournaments`, whose columns
-- other than the providers' are the entry.
pub record StoredRow : Type 0 where
  pub document : TournamentRecord
  pub owner_epoch : ℕ

pub record ArchivedRow : Type 0 where
  pub tournament_id : String
  pub document : TournamentRecord
  pub deleted_by_user_id : Option String
  pub deleted_by_email : Option String

-- `derived` is what the package makes of a record.
pub record CalendarEntry : Type 0 where
  pub tournament_id : Option String
  pub derived : String
  pub created_by_user_id : Option String
  pub published : Bool

pub record CalendarRow : Type 0 where
  pub provider_id : String
  pub provider_abbr : Option String
  pub entry : CalendarEntry

-- `outbox` holds the ids of the delete-deltas, `audit` those of the recorded deletions.
pub record Store : Type 0 where
  pub tournaments : List (String × StoredRow)
  pub archive : List ArchivedRow
  pub calendar : List (String × CalendarRow)
  pub participation : List (String × List String)
  pub outbox : List String
  pub audit : List String

-- What a service is built over: the providers' table, with their abbreviations, and the package's
-- readings of a record (`none` where one throws), the length of its JSON text and the UUID pattern.
pub record Services : Type 0 where
  pub get_provider : String → Option (Option String)
  pub calendar_entry : TournamentRecord → Option String × String
  pub publish_state : TournamentRecord → Option Bool
  pub participation : TournamentRecord → Option (List String)
  pub size : TournamentRecord → ℕ
  pub is_uuid : String → Bool
  pub outbox_enabled : Bool
  pub has_audit : Bool

-- `DELETE … WHERE tournament_id = $1`
abbrev pub remove {ℓ} : {V : Type ℓ} → String → List (String × V) → List (String × V)
remove id rows = filter (λ row. not (row.0 == id)) rows
