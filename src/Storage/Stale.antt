-- ===== src/Storage/Stale.antt =====
-- What a save that the fence rejects has already written.
use competition_factory_serv.Prelude.{
  ℕ, ◌<◌, String, ◌==◌, ◌≡◌, refl, ◌∙◌, ap, true, false, Option, some, arith, lookup, leb,
}
use competition_factory_serv.Storage.{TournamentRecord, StoredRow, Store, Services}
use competition_factory_serv.Storage.Save.{
  SaveFaults, failed, fenced_by_newer_owner, stamp_created_by, is_calendar_listed,
  get_calendar_entry, add_to_or_update_calendar, update_participation_index, write_record,
  save_tournament_record,
}
use competition_factory_serv.Storage.Writes.{
  lookup-insert_self, add_to_or_update_calendar-tournaments, update_participation_index-keeps,
}

abbrev pub no_faults : SaveFaults
no_faults = record {
  provider_throws = false;
  calendar_throws = false;
  participation_throws = false;
  save_throws = false;
}

module _ (svc : Services) where
  write_record-fenced :
      (key : String) (r : TournamentRecord) (epoch : ℕ) (s : Store) (row : StoredRow)
      → lookup s.tournaments key ≡ some row
      → epoch < row.owner_epoch
      → write_record svc no_faults key r epoch s ≡ (failed fenced_by_newer_owner, s)
  unfolding write_record
  write_record-fenced key r epoch s row l h =
      let closed : leb row.owner_epoch epoch ≡ false = ground arith in rw (l, closed) refl

  add_to_or_update_calendar-row :
      (p key : String) (abbr : Option String) (r : TournamentRecord) (s : Store)
      → svc.get_provider p ≡ some abbr
      → (svc.calendar_entry r).0 ≡ some key
      → (key == "") ≡ false
      → lookup (add_to_or_update_calendar svc p r s).calendar key
        ≡ some (record { provider_id = p; provider_abbr = abbr; entry = get_calendar_entry svc r })
  unfolding add_to_or_update_calendar
  add_to_or_update_calendar-row p key abbr r s found entry e =
      rw (found, entry, e) (lookup-insert_self s.calendar key _)

-- Take a record with an id, a known provider and the calendar's listing, whose calendar entry is under
-- that id, and a stored row with a higher owner epoch than the caller's. When no call throws, the save
-- answers the fence's error and leaves the table of tournaments as it was, and yet the calendar row of
-- the tournament is then the one derived from the rejected record.
pub fenced_save_writes_calendar :
    (svc : Services) (r : TournamentRecord) (key p : String) (abbr : Option String) (epoch : ℕ)
    (user_id : Option String) (s : Store) (row : StoredRow)
    → r.tournament_id ≡ some key
    → (key == "") ≡ false
    → r.organisation_id ≡ some p
    → (p == "") ≡ false
    → is_calendar_listed (stamp_created_by r user_id) ≡ true
    → svc.get_provider p ≡ some abbr
    → (svc.calendar_entry (stamp_created_by r user_id)).0 ≡ some key
    → lookup s.tournaments key ≡ some row
    → epoch < row.owner_epoch
    → let (answer, s') = save_tournament_record svc no_faults r epoch user_id s in
      (answer ≡ failed fenced_by_newer_owner)
      × (s'.tournaments ≡ s.tournaments)
      × (lookup s'.calendar key
          ≡ some (record {
            provider_id = p;
            provider_abbr = abbr;
            entry = get_calendar_entry svc (stamp_created_by r user_id);
          }))
unfolding save_tournament_record
fenced_save_writes_calendar svc r key p abbr epoch user_id s row k ke o pe listed found entry l h =
    let new : TournamentRecord = stamp_created_by r user_id in
    let t : Store = add_to_or_update_calendar svc p new s in
    let u : Store = update_participation_index svc no_faults key new t in
    let kept : u.tournaments ≡ s.tournaments =
      (update_participation_index-keeps svc no_faults key new t).0
      ∙ add_to_or_update_calendar-tournaments svc p new s in
    let fenced : write_record svc no_faults key new epoch u ≡ (failed fenced_by_newer_owner, u) =
      write_record-fenced svc key new epoch u row (ap (λ rows. lookup rows key) kept ∙ l) h in
    let run : save_tournament_record svc no_faults r epoch user_id s
        ≡ (failed fenced_by_newer_owner, u) =
      simp (k, ke, o, pe, listed) fenced in
    rw run (
      refl,
      kept,
      ap (λ rows. lookup rows key) (update_participation_index-keeps svc no_faults key new t).1
          ∙ add_to_or_update_calendar-row svc p key abbr new s found entry ke,
    )
