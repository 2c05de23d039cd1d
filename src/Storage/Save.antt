-- ===== src/Storage/Save.antt =====
-- saveTournamentRecords, saveTournamentRecord and what they call, with the upserts of the tables, and
-- common/constants/test.ts, helpers/calendarListing.ts and helpers/getCalendarEntry.ts.
use competition_factory_serv.Prelude.{
  ℕ, String, ◌==◌, starts_with, Bool, true, false, not, ◌&&◌, ◌||◌, Option, none, some, List, [],
  ◌∷◌, ◌++◌, if◌then◌else◌, leb, find, lookup, insert, truthy,
}
use competition_factory_serv.Access.Tournament.{created_by_user_id, get_created_by_user_id}
use competition_factory_serv.Storage.{
  text, flag, other, StoredExtension, TournamentRecord, access_view, StoredRow, CalendarEntry,
  Store, Services,
}

unfoldable pub is_test_tournament_id : String → Bool
is_test_tournament_id key = key == "test" || starts_with key "test-"

abbrev lists : Option StoredExtension → Bool
lists none = true
lists (some e) = elim e.value [ text t ↦ true | flag b ↦ b | other ↦ true ]

unfoldable pub is_calendar_listed : TournamentRecord → Bool
is_calendar_listed r = lists (find (λ e. e.name == "calendarListed") r.extensions)

abbrev stamped : Option StoredExtension → TournamentRecord → String → TournamentRecord
stamped (some e) r user_id = r
stamped none r user_id = record r {
  extensions = r.extensions ++ record { name = created_by_user_id; value = text user_id } ∷ [];
}

unfoldable pub stamp_created_by : TournamentRecord → Option String → TournamentRecord
stamp_created_by r none = r
stamp_created_by r (some user_id) =
    if user_id == ""
    then r
    else stamped (find (λ e. e.name == created_by_user_id) r.extensions) r user_id

abbrev pub fenced_by_newer_owner : String
fenced_by_newer_owner = "Fenced: tournament is owned by a newer epoch"

-- Which calls of one save throw. The participation index is fail-soft.
pub record SaveFaults : Type 0 where
  pub provider_throws : Bool
  pub calendar_throws : Bool
  pub participation_throws : Bool
  pub save_throws : Bool

-- `saved` carries the number of bytes.
pub data SaveAnswer : Type 0 where
  saved : ℕ → SaveAnswer
  failed : String → SaveAnswer
  save_threw : SaveAnswer

pub data SaveRun : Type 0 where
  saved_all : List (String × ℕ) → SaveRun
  save_stopped : String → SaveRun
  save_aborted : SaveRun

abbrev is_published : Option Bool → Bool
is_published none = false
is_published (some b) = b

-- `DO UPDATE … WHERE tournaments.owner_epoch <= EXCLUDED.owner_epoch`
abbrev pub fence_passes : ℕ → Option StoredRow → Bool
fence_passes epoch none = true
fence_passes epoch (some row) = leb row.owner_epoch epoch

abbrev is_found : Option (Option String) → Bool
is_found none = false
is_found (some abbr) = true

module _ (svc : Services) where
  unfoldable pub get_calendar_entry : TournamentRecord → CalendarEntry
  unfolding access_view
  get_calendar_entry r = record {
    tournament_id = (svc.calendar_entry r).0;
    derived = (svc.calendar_entry r).1;
    created_by_user_id = get_created_by_user_id (access_view r);
    published = is_published (svc.publish_state r);
  }

  abbrev pub upsert_entry : Option String → String → Option String → CalendarEntry → Store → Store
  upsert_entry none provider_id abbr entry s = s
  upsert_entry (some id) provider_id abbr entry s = if id == "" then s else record s {
    calendar =
        insert s.calendar id
          (record { provider_id = provider_id; provider_abbr = abbr; entry = entry });
  }

  abbrev pub list_at : Option (Option String) → String → TournamentRecord → Store → Store
  list_at none provider_id r s = s
  list_at (some abbr) provider_id r s =
      upsert_entry (svc.calendar_entry r).0 provider_id abbr (get_calendar_entry r) s

  -- An unknown provider is an error that the save does not look at.
  unfoldable pub add_to_or_update_calendar : String → TournamentRecord → Store → Store
  unfolding get_calendar_entry
  add_to_or_update_calendar provider_id r s = list_at (svc.get_provider provider_id) provider_id r s

  abbrev pub index_rows : Option (List String) → String → Store → Store
  index_rows none key s = s
  index_rows (some rows) key s = record s { participation = insert s.participation key rows }

  unfoldable pub update_participation_index : SaveFaults → String → TournamentRecord → Store → Store
  update_participation_index f key r s =
      if f.participation_throws then s else index_rows (svc.participation r) key s

  -- The upsert of `tournaments`, guarded by the epoch.
  unfoldable pub write_record :
      SaveFaults → String → TournamentRecord → ℕ → Store → SaveAnswer × Store
  write_record f key r epoch s =
      if f.save_throws
      then (save_threw, s)
      else if fence_passes epoch (lookup s.tournaments key)
      then (
        saved (svc.size r),
        record s {
          tournaments = insert s.tournaments key (record { document = r; owner_epoch = epoch });
        },
      )
      else (failed fenced_by_newer_owner, s)

  -- The calendar is written only for a provider that is known and a record that yields an entry.
  abbrev pub listing_throws : SaveFaults → String → TournamentRecord → Bool
  listing_throws f provider_id r =
      f.provider_throws
      || (f.calendar_throws
          && is_found (svc.get_provider provider_id)
          && truthy (svc.calendar_entry r).0)

  abbrev pub index_and_write :
      SaveFaults → String → TournamentRecord → ℕ → Store → SaveAnswer × Store
  index_and_write f key r epoch s =
      write_record f key r epoch (update_participation_index f key r s)

  abbrev pub list_and_write :
      SaveFaults → String → Option String → TournamentRecord → ℕ → Store → SaveAnswer × Store
  list_and_write f key none r epoch s = index_and_write f key r epoch s
  list_and_write f key (some provider_id) r epoch s =
      if not (provider_id == "") && is_calendar_listed r
      then (if listing_throws f provider_id r
          then (save_threw, s)
          else index_and_write f key r epoch (add_to_or_update_calendar provider_id r s))
      else index_and_write f key r epoch s

  abbrev pub save_keyed :
      SaveFaults → Option String → TournamentRecord → ℕ → Option String → Store → SaveAnswer × Store
  save_keyed f none r epoch user_id s = (failed "Invalid tournamentRecord", s)
  save_keyed f (some key) r epoch user_id s =
      if key == ""
      then (failed "Invalid tournamentRecord", s)
      else if not (truthy r.organisation_id) && not (is_test_tournament_id key)
      then (failed "Missing providerId", s)
      else list_and_write f key r.organisation_id (stamp_created_by r user_id) epoch s

  unfoldable pub save_tournament_record :
      SaveFaults → TournamentRecord → ℕ → Option String → Store → SaveAnswer × Store
  unfolding is_test_tournament_id is_calendar_listed stamp_created_by add_to_or_update_calendar
      update_participation_index write_record
  save_tournament_record f r epoch user_id s = save_keyed f r.tournament_id r epoch user_id s

  abbrev pub after_save :
      (List (String × ℕ) → Store → SaveRun × Store)
      → List (String × ℕ)
      → String
      → SaveAnswer × Store
      → SaveRun × Store
  after_save again bytes key (saved n, s) = again (insert bytes key n) s
  after_save again bytes key (failed e, s) = (save_stopped e, s)
  after_save again bytes key (save_threw, s) = (save_aborted, s)

  unfoldable pub save_each :
      List (String × TournamentRecord × SaveFaults)
      → ℕ
      → Option String
      → List (String × ℕ)
      → Store
      → SaveRun × Store
  unfolding save_tournament_record
  save_each [] epoch user_id bytes s = (saved_all bytes, s)
  save_each ((key, r, f) ∷ rest) epoch user_id bytes s =
      after_save (save_each rest epoch user_id) bytes key
        (save_tournament_record f r epoch user_id s)

  -- Each record comes with the faults that its save meets; an absent `ownerEpoch` is 0.
  unfoldable pub save_tournament_records :
      List (String × TournamentRecord × SaveFaults)
      → Option ℕ
      → Option String
      → Store
      → SaveRun × Store
  unfolding save_each
  save_tournament_records records none user_id s = save_each records 0 user_id [] s
  save_tournament_records records (some epoch) user_id s = save_each records epoch user_id [] s
