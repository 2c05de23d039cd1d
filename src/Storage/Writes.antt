-- ===== src/Storage/Writes.antt =====
-- What one save of saveTournamentRecord does to the table of tournaments.
use competition_factory_serv.Prelude.{
  ℕ, String, ◌==◌, ◌≡◌, refl, sym, ◌∙◌, ap, subst, ◌⊎◌, inl, inr, true, false, not, ◌&&◌, Option,
  none, some, List, [], ◌∷◌, lookup, insert, truthy, Bool-cases, eq_iff, eq_refl,
}
use competition_factory_serv.Storage.{TournamentRecord, CalendarEntry, Store, Services}
use competition_factory_serv.Storage.Save.{
  SaveFaults, fence_passes, stamp_created_by, is_test_tournament_id, is_calendar_listed,
  upsert_entry, list_at, add_to_or_update_calendar, get_calendar_entry, index_rows,
  update_participation_index, write_record, index_and_write, listing_throws, list_and_write,
  save_keyed, save_tournament_record,
}

module _ {V : Type 0} where
  pub lookup-insert_self :
      (rows : List (String × V)) (k : String) (v : V) → lookup (insert rows k v) k ≡ some v
  lookup-insert_self [] k v = rw (eq_refl k) refl
  lookup-insert_self ((j, w) ∷ rows) k v = elim (Bool-cases (j == k)) [
    | inl e ↦ rw (e, eq_refl k) refl
    | inr e ↦ rw (e, e, lookup-insert_self rows k v) refl
  ]

  pub lookup-insert_other :
      (rows : List (String × V)) (j k : String) (v : V)
      → (j == k) ≡ false
      → lookup (insert rows j v) k ≡ lookup rows k
  lookup-insert_other [] j k v h = rw h refl
  lookup-insert_other ((i, w) ∷ rows) j k v h = elim (Bool-cases (i == j)) [
    | inl e ↦ rw (e, (eq_iff i j).0 e, h) refl
    | inr e ↦ rw (e, lookup-insert_other rows j k v h) refl
  ]

-- The table is as it was, or the fence let the stamped record in.
abbrev pub Written : String → TournamentRecord → ℕ → Store → Store → Type 0
Written key r epoch s s' =
    (s'.tournaments ≡ s.tournaments)
    ⊎ ((s'.tournaments ≡ insert s.tournaments key (record { document = r; owner_epoch = epoch }))
        × (fence_passes epoch (lookup s.tournaments key) ≡ true))

module _ (svc : Services) where
  upsert_entry-tournaments :
      (id : Option String) (p : String) (abbr : Option String) (entry : CalendarEntry) (s : Store)
      → (upsert_entry svc id p abbr entry s).tournaments ≡ s.tournaments
  upsert_entry-tournaments none p abbr entry s = refl
  upsert_entry-tournaments (some id) p abbr entry s = elim (Bool-cases (id == "")) [
    | inl e ↦ rw e refl
    | inr e ↦ rw e refl
  ]

  list_at-tournaments :
      (found : Option (Option String)) (p : String) (r : TournamentRecord) (s : Store)
      → (list_at svc found p r s).tournaments ≡ s.tournaments
  list_at-tournaments none p r s = refl
  list_at-tournaments (some abbr) p r s =
      upsert_entry-tournaments (svc.calendar_entry r).0 p abbr (get_calendar_entry svc r) s

  pub add_to_or_update_calendar-tournaments :
      (p : String) (r : TournamentRecord) (s : Store)
      → (add_to_or_update_calendar svc p r s).tournaments ≡ s.tournaments
  unfolding add_to_or_update_calendar
  add_to_or_update_calendar-tournaments p r s = list_at-tournaments (svc.get_provider p) p r s

  index_rows-keeps :
      (rows : Option (List String)) (key : String) (s : Store)
      → ((index_rows svc rows key s).tournaments ≡ s.tournaments)
        × ((index_rows svc rows key s).calendar ≡ s.calendar)
  index_rows-keeps none key s = (refl, refl)
  index_rows-keeps (some rows) key s = (refl, refl)

  pub update_participation_index-keeps :
      (f : SaveFaults) (key : String) (r : TournamentRecord) (s : Store)
      → ((update_participation_index svc f key r s).tournaments ≡ s.tournaments)
        × ((update_participation_index svc f key r s).calendar ≡ s.calendar)
  unfolding update_participation_index
  update_participation_index-keeps f key r s = elim (Bool-cases f.participation_throws) [
    | inl e ↦ rw e (refl, refl)
    | inr e ↦ rw e (index_rows-keeps (svc.participation r) key s)
  ]

  write_record-Written :
      (f : SaveFaults) (key : String) (r : TournamentRecord) (epoch : ℕ) (s t : Store)
      → t.tournaments ≡ s.tournaments
      → Written key r epoch s (write_record svc f key r epoch t).1
  unfolding write_record
  write_record-Written f key r epoch s t e = elim (Bool-cases f.save_throws) [
    | inl h ↦ rw h (inl e)
    | inr h ↦ elim (Bool-cases (fence_passes epoch (lookup t.tournaments key))) [
      | inr g ↦ rw (h, g) (inl e)
      | inl g ↦
          rw (h, g)
            (inr (
              ap (λ rows. insert rows key (record { document = r; owner_epoch = epoch })) e,
              ap (λ rows. fence_passes epoch (lookup rows key)) (sym e) ∙ g,
            ))
    ]
  ]

  index_and_write-Written :
      (f : SaveFaults) (key : String) (r : TournamentRecord) (epoch : ℕ) (s t : Store)
      → t.tournaments ≡ s.tournaments
      → Written key r epoch s (index_and_write svc f key r epoch t).1
  index_and_write-Written f key r epoch s t e =
      write_record-Written f key r epoch s (update_participation_index svc f key r t)
        ((update_participation_index-keeps f key r t).0 ∙ e)

  list_and_write-Written :
      (f : SaveFaults) (key : String) (p : Option String) (r : TournamentRecord) (epoch : ℕ)
      (s : Store)
      → Written key r epoch s (list_and_write svc f key p r epoch s).1
  list_and_write-Written f key none r epoch s = index_and_write-Written f key r epoch s s refl
  list_and_write-Written f key (some p) r epoch s =
      elim (Bool-cases (not (p == "") && is_calendar_listed r)) [
        | inr l ↦ rw l (index_and_write-Written f key r epoch s s refl)
        | inl l ↦ elim (Bool-cases (listing_throws svc f p r)) [
          | inl t ↦ rw (l, t) (inl refl)
          | inr t ↦
              rw (l, t)
                (index_and_write-Written f key r epoch s (add_to_or_update_calendar svc p r s)
                  (add_to_or_update_calendar-tournaments p r s))
        ]
      ]

  save_keyed-Written :
      (f : SaveFaults) (key : String) (r : TournamentRecord) (epoch : ℕ) (user_id : Option String)
      (s : Store)
      → Written key
          (stamp_created_by r user_id)
          epoch
          s
          (save_keyed svc f (some key) r epoch user_id s).1
  save_keyed-Written f key r epoch user_id s = elim (Bool-cases (key == "")) [
    | inl e ↦ rw e (inl refl)
    | inr e ↦
        elim (Bool-cases (not (truthy r.organisation_id) && not (is_test_tournament_id key))) [
          | inl m ↦ rw (e, m) (inl refl)
          | inr m ↦
              rw (e, m)
                (list_and_write-Written f key r.organisation_id (stamp_created_by r user_id) epoch
                  s)
        ]
  ]

  pub save_tournament_record-Written :
      (f : SaveFaults) (key : String) (r : TournamentRecord) (epoch : ℕ) (user_id : Option String)
      (s : Store)
      → r.tournament_id ≡ some key
      → Written key
          (stamp_created_by r user_id)
          epoch
          s
          (save_tournament_record svc f r epoch user_id s).1
  unfolding save_tournament_record
  save_tournament_record-Written f key r epoch user_id s e =
      subst
        (λ k.
          Written key (stamp_created_by r user_id) epoch s (save_keyed svc f k r epoch user_id s).1)
        (sym e) (save_keyed-Written f key r epoch user_id s)
