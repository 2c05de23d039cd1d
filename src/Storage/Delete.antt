-- ===== src/Storage/Delete.antt =====
-- removeTournamentRecords, deleteSingleTournament and what they call.
use competition_factory_serv.Prelude.{
  ℕ, suc, String, ◌==◌, Bool, true, false, not, ◌&&◌, Option, none, some, List, [], ◌∷◌, ◌++◌,
  if◌then◌else◌, lookup, includes,
}
use competition_factory_serv.Mutex.TextOrder.{text_lt}
use competition_factory_serv.Access.Context.{UserContext, super_admin_role}
use competition_factory_serv.Access.Tournament.{can_delete_tournament}
use competition_factory_serv.Storage.{
  TournamentRecord, access_view, StoredRow, ArchivedRow, CalendarRow, Store, Services, remove,
}

-- The legacy `user`, and the request that a removal serves; `today` is the date in UTC.
pub record Actor : Type 0 where
  pub user_id : Option String
  pub email : Option String
  pub roles : List String

pub record Request : Type 0 where
  pub user : Option Actor
  pub user_context : Option UserContext
  pub today : String

-- Which calls of one deletion fail: by an error that is answered, or by throwing.
pub record Faults : Type 0 where
  pub find_throws : Bool
  pub archive_answers_error : Bool
  pub archive_throws : Bool
  pub audit_throws : Bool
  pub remove_throws : Bool
  pub calendar_throws : Bool
  pub participation_throws : Bool
  pub enqueue_throws : Bool

pub data Deletion : Type 0 where
  nothing removed threw : Deletion
  refused : String → Deletion

-- `finished` and `stopped` carry the count `removed`.
pub data Removal : Type 0 where
  finished : ℕ → Removal
  stopped : String → ℕ → Removal
  aborted : Removal

abbrev has_legacy_role : Option Actor → Bool
has_legacy_role none = false
has_legacy_role (some user) = includes user.roles super_admin_role

unfoldable pub is_delete_authorized : TournamentRecord → Request → Bool
is_delete_authorized r q = elim q.user_context [
  | some ctx ↦ can_delete_tournament (access_view r) (some ctx) []
  | none ↦ has_legacy_role q.user
]

-- The dates are compared as texts; those of the records are in ASCII.
abbrev is_past : Option String → String → Bool
is_past none today = false
is_past (some date) today = not (date == "") && text_lt date today

unfoldable pub check_deletable_by_end_date : TournamentRecord → String → Bool
unfolding text_lt
check_deletable_by_end_date r today = if r.is_mock then true else is_past r.end_date today

abbrev pub own_provider : Option String → Option String
own_provider none = none
own_provider (some id) = if id == "" then none else some id

abbrev pub drop_own : Option CalendarRow → String → String → Store → Store
drop_own none provider_id id s = s
drop_own (some row) provider_id id s =
    if row.provider_id == provider_id then record s { calendar = remove id s.calendar } else s

-- `providerId` is checked against the row, and another provider's row stays.
unfoldable pub remove_from_calendar : String → String → Store → Store
remove_from_calendar provider_id id s = drop_own (lookup s.calendar id) provider_id id s

abbrev or_nobody : (String → Bool) → Option String → Option String
or_nobody is_uuid none = none
or_nobody is_uuid (some id) = if not (id == "") && is_uuid id then some id else none

abbrev user_id_of : Option Actor → Option String
user_id_of none = none
user_id_of (some user) = user.user_id

abbrev email_of : Option Actor → Option String
email_of none = none
email_of (some user) = user.email

module _ (svc : Services) (q : Request) where
  abbrev pub archived_row : String → TournamentRecord → ArchivedRow
  archived_row key r = record {
    tournament_id = key;
    document = r;
    deleted_by_user_id = or_nobody svc.is_uuid (user_id_of q.user);
    deleted_by_email = email_of q.user;
  }

  -- The rows to archive, or `none` where there is no key.
  unfoldable pub archive_tournament_record : TournamentRecord → Option ArchivedRow
  archive_tournament_record r = elim r.tournament_id [
    | none ↦ none
    | some key ↦ if key == "" then none else some (archived_row key r)
  ]

  -- The calls that follow the calendar's: participation and the outbox, each fail-soft.
  unfoldable pub drop_read_models : Faults → String → Store → Store
  drop_read_models f id s = record s {
    participation = if f.participation_throws then s.participation else remove id s.participation;
    outbox = if svc.outbox_enabled && not f.enqueue_throws then s.outbox ++ id ∷ [] else s.outbox;
  }

  abbrev pub detach : Faults → String → Option String → Store → Deletion × Store
  detach f id none s = (removed, drop_read_models f id s)
  detach f id (some provider_id) s =
      if f.calendar_throws
      then (threw, s)
      else (removed, drop_read_models f id (remove_from_calendar provider_id id s))

  abbrev pub delete_row : Faults → String → TournamentRecord → Store → Deletion × Store
  delete_row f id r s =
      if f.remove_throws
      then (threw, s)
      else detach f id (own_provider r.organisation_id)
          (record s { tournaments = remove id s.tournaments })

  abbrev pub record_deletion_safely : Faults → String → Store → Store
  record_deletion_safely f id s =
      if svc.has_audit && not f.audit_throws then record s { audit = s.audit ++ id ∷ [] } else s

  abbrev pub archive_first :
      Faults → String → TournamentRecord → Option ArchivedRow → Store → Deletion × Store
  archive_first f id r none s = (refused "ERR_ARCHIVE_FAILED", s)
  archive_first f id r (some row) s =
      if f.archive_throws
      then (threw, s)
      else if f.archive_answers_error
      then (refused "ERR_ARCHIVE_FAILED", s)
      else delete_row f id r
          (record_deletion_safely f id (record s { archive = s.archive ++ row ∷ [] }))

  abbrev pub delete_found : Faults → String → Option StoredRow → Store → Deletion × Store
  delete_found f id none s = (nothing, s)
  delete_found f id (some row) s =
      if not (is_delete_authorized row.document q)
      then (refused "ERR_DELETE_FORBIDDEN", s)
      else if not (check_deletable_by_end_date row.document q.today)
      then (refused "ERR_TOURNAMENT_NOT_ENDED", s)
      else archive_first f id row.document (archive_tournament_record row.document) s

  unfoldable pub delete_single_tournament : String → Faults → Store → Deletion × Store
  unfolding is_delete_authorized check_deletable_by_end_date archive_tournament_record
      drop_read_models remove_from_calendar
  delete_single_tournament id f s =
      if f.find_throws then (threw, s) else delete_found f id (lookup s.tournaments id) s

  -- What the loop does with an answer; `again` is the rest of the loop.
  abbrev pub after_deletion : (ℕ → Store → Removal × Store) → ℕ → Deletion × Store → Removal × Store
  after_deletion again n (nothing, s) = again n s
  after_deletion again n (removed, s) = again (suc n) s
  after_deletion again n (threw, s) = (aborted, s)
  after_deletion again n (refused code, s) = (stopped code n, s)

  unfoldable pub remove_each : List (String × Faults) → ℕ → Store → Removal × Store
  unfolding delete_single_tournament
  remove_each [] n s = (finished n, s)
  remove_each ((id, f) ∷ calls) n s =
      after_deletion (remove_each calls) n (delete_single_tournament id f s)

  -- The ids are `tournamentIds`, or the one `tournamentId`. Each comes with the faults that its deletion
  -- meets.
  unfoldable pub remove_tournament_records : List (String × Faults) → Store → Removal × Store
  unfolding remove_each
  remove_tournament_records calls s = remove_each calls 0 s
