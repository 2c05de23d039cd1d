-- ===== src/Storage/Tests.antt =====
-- A club's tournaments: a removal that stops at one that is under way, a save that comes too late, and
-- wholesale saves of the club's administrator.
use competition_factory_serv.Prelude.{
  ℕ, ◌≤◌, String, ◌≡◌, refl, Bool, true, false, none, some, List, [], ◌∷◌, lookup, truthy, arith,
}
use competition_factory_serv.Access.Tournament.{
  can_delete_tournament, can_view_tournament, can_mutate_tournament,
}
use competition_factory_serv.Access.Provider.{acting_provider_allows, check_user, check_provider}
use competition_factory_serv.Storage.{flag, TournamentRecord, access_view, StoredRow, Store}
use competition_factory_serv.Storage.Club.{
  upper, svc, club_record, other_record, row_of, store, ctx, request,
}
use competition_factory_serv.Storage.Delete.{Faults, stopped, remove_tournament_records}
use competition_factory_serv.Storage.Removals.{Fate, remove_tournament_records-Fate}
use competition_factory_serv.Storage.Answers.{Answer, remove_tournament_records-Answer}
use competition_factory_serv.Storage.Save.{
  failed, saved_all, fenced_by_newer_owner, stamp_created_by, is_calendar_listed,
  get_calendar_entry, save_tournament_record,
}
use competition_factory_serv.Storage.Fence.{SaveCall, serve_saves, serve_saves_keeps_epoch}
use competition_factory_serv.Storage.Stale.{no_faults, fenced_save_writes_calendar}
use competition_factory_serv.Storage.Gate.{
  Payload, set_created_by, stored_view, Caller, ran, wholesale_save,
}
use competition_factory_serv.Storage.Guarded.{SaveFate, wholesale_save_guards}
use competition_factory_serv.Storage.Foreign.{wholesale_save_replaces_other}

abbrev all_well : Faults
all_well = record {
  find_throws = false;
  archive_answers_error = false;
  archive_throws = false;
  audit_throws = true;
  remove_throws = false;
  calendar_throws = false;
  participation_throws = true;
  enqueue_throws = false;
}

abbrev calls : List (String × Faults)
calls = ("spring", all_well) ∷ ("autumn", all_well) ∷ ("open", all_well) ∷ []

removal_stops :
    (remove_tournament_records svc request calls store).0 ≡ stopped "ERR_TOURNAMENT_NOT_ENDED" 1
unfolding remove_tournament_records can_delete_tournament access_view
removal_stops = refl

spring_is_gone :
    lookup (remove_tournament_records svc request calls store).1.tournaments "spring" ≡ none
unfolding remove_tournament_records can_delete_tournament access_view
spring_is_gone = refl

remove_tournament_records-Fate_example :
    Fate svc request
      ("spring" ∷ "autumn" ∷ "open" ∷ [])
      "spring"
      store
      (remove_tournament_records svc request calls store).1
remove_tournament_records-Fate_example =
    remove_tournament_records-Fate svc request calls store "spring"

remove_tournament_records-Answer_example :
    Answer 0
      ("spring" ∷ "autumn" ∷ "open" ∷ [])
      store
      (remove_tournament_records svc request calls store)
remove_tournament_records-Answer_example = remove_tournament_records-Answer svc request calls store

abbrev late_call : ℕ → SaveCall
late_call epoch = record {
  records = ("autumn", club_record "autumn" "2026-12-02", no_faults) ∷ [];
  owner_epoch = some epoch;
  user_id = none;
}

abbrev save_calls : List SaveCall
save_calls = late_call 5 ∷ late_call 4 ∷ []

epoch_is_kept :
    lookup (serve_saves svc save_calls store).tournaments "autumn"
    ≡ some (row_of (club_record "autumn" "2026-12-02") 5)
unfolding serve_saves
epoch_is_kept = refl

serve_saves_keeps_epoch_example :
    (row : StoredRow) × (lookup (serve_saves svc save_calls store).tournaments "autumn" ≡ some row)
    × (3 ≤ row.owner_epoch)
serve_saves_keeps_epoch_example =
    serve_saves_keeps_epoch svc "autumn" save_calls store
      (row_of (club_record "autumn" "2026-12-01") 3) refl

abbrev stale : TournamentRecord
stale = club_record "autumn" "2026-11-11"

stale_is_listed : is_calendar_listed (stamp_created_by stale none) ≡ true
unfolding is_calendar_listed stamp_created_by
stale_is_listed = refl

unlisted :
    is_calendar_listed
      (record stale { extensions = record { name = "calendarListed"; value = flag false } ∷ [] })
    ≡ false
unfolding is_calendar_listed
unlisted = refl

stamp_none : (svc.calendar_entry (stamp_created_by stale none)).0 ≡ some "autumn"
unfolding stamp_created_by
stamp_none = refl

fenced_save_writes_calendar_example :
    let (answer, s') = save_tournament_record svc no_faults stale 2 none store in
    (answer ≡ failed fenced_by_newer_owner)
    × (s'.tournaments ≡ store.tournaments)
    × (lookup s'.calendar "autumn"
        ≡ some (record {
          provider_id = "club";
          provider_abbr = some "CLB";
          entry = get_calendar_entry svc (stamp_created_by stale none);
        }))
fenced_save_writes_calendar_example =
    fenced_save_writes_calendar svc stale "autumn" "club" (some "CLB") 2 none store
      (row_of (club_record "autumn" "2026-12-01") 3) refl refl refl refl stale_is_listed refl
      stamp_none refl (omega arith)

abbrev caller : Caller
caller = record {
  user = none;
  legacy_id = none;
  user_context = some ctx;
  roles = [];
  unreadable_keys = λ key. false;
}

abbrev attach : Store → TournamentRecord → TournamentRecord
attach s r = r

abbrev accepts : Payload → Bool
accepts payload = true

abbrev own_payload : Payload
own_payload = ("spring", club_record "spring" "2026-04-02", no_faults) ∷ []

wholesale_save_guards_example :
    SaveFate upper true svc caller ctx store "spring" store
      (wholesale_save upper true svc attach accepts caller own_payload store).1
wholesale_save_guards_example =
    wholesale_save_guards upper true svc caller ctx store attach accepts own_payload "spring" refl
      refl (λ t r. (refl, refl)) ((refl, refl), tt)

-- The administrator may not mutate the rival's tournament.
open_is_protected :
    can_mutate_tournament upper true (stored_view "open" other_record) (some ctx) [] [] ≡ false
unfolding can_mutate_tournament stored_view can_view_tournament
open_is_protected = refl

abbrev sent : TournamentRecord
sent = club_record "open" "2026-12-01"

abbrev named : TournamentRecord
named = set_created_by sent (some "u1")

named_id : named.tournament_id ≡ some "open"
unfolding set_created_by
named_id = refl

named_provider : truthy named.organisation_id ≡ true
unfolding set_created_by
named_provider = refl

user_passes : check_user none (some ctx) ≡ true
unfolding check_user
user_passes = refl

provider_passes : check_provider (access_view sent ∷ []) none (some ctx) true ≡ true
unfolding check_provider access_view acting_provider_allows
provider_passes = refl

wholesale_save_replaces_other_example :
    let (answer, s') =
      wholesale_save upper true svc attach accepts caller (("fresh", sent, no_faults) ∷ []) store in
    (answer ≡ ran (saved_all (("fresh", 7) ∷ [])))
    × (lookup s'.tournaments "open" ≡ some (row_of (stamp_created_by named (some "u1")) 0))
wholesale_save_replaces_other_example =
    wholesale_save_replaces_other upper true svc caller ctx store attach accepts "fresh" "open" sent
      named (row_of other_record 0) refl user_passes provider_passes refl refl refl refl named_id
      refl named_provider refl refl
