-- ===== src/Storage/Foreign.antt =====
-- A wholesale save in which a record stands under the key of another tournament.
use competition_factory_serv.Prelude.{
  ℕ, String, ◌==◌, ◌≡◌, refl, sym, ◌∙◌, ap, subst, inl, inr, Bool, true, false, not, ◌&&◌, Option,
  none, some, [], ◌∷◌, arith, if◌then◌else◌, lookup, truthy, map, Bool-cases,
}
use competition_factory_serv.Access.Context.{UserContext}
use competition_factory_serv.Access.Provider.{check_user, check_provider}
use competition_factory_serv.Storage.{TournamentRecord, access_view, StoredRow, Store, Services}
use competition_factory_serv.Storage.Save.{
  SaveAnswer, saved, failed, save_threw, saved_all, fence_passes, stamp_created_by,
  is_calendar_listed, add_to_or_update_calendar, update_participation_index, write_record,
  index_and_write, list_and_write, save_keyed, save_tournament_record, after_save, save_each,
  save_tournament_records,
}
use competition_factory_serv.Storage.Writes.{
  lookup-insert_self, add_to_or_update_calendar-tournaments, update_participation_index-keeps,
}
use competition_factory_serv.Storage.Stale.{no_faults}
use competition_factory_serv.Storage.Gate.{
  Payload, fetch_tournament_updated_at, set_created_by, Caller, gate_wholesale_save, gated_save,
  validated_save, gate_if_context, saver, WholesaleSave, denied, ran, wholesale_save,
}

module _ (svc : Services) where
  -- The save is answered with success and has written the record.
  abbrev IsThrough : String → TournamentRecord → ℕ → SaveAnswer × Store → Type 0
  IsThrough key r epoch a =
      (a.0 ≡ saved (svc.size r))
      × (lookup a.1.tournaments key ≡ some (record { document = r; owner_epoch = epoch }))

  index_and_write-IsThrough :
      (key : String) (r : TournamentRecord) (epoch : ℕ) (s t : Store)
      → t.tournaments ≡ s.tournaments
      → fence_passes epoch (lookup s.tournaments key) ≡ true
      → IsThrough key r epoch (index_and_write svc no_faults key r epoch t)
  unfolding write_record
  index_and_write-IsThrough key r epoch s t e h =
      let u : Store = update_participation_index svc no_faults key r t in
      let passes : fence_passes epoch (lookup u.tournaments key) ≡ true =
        ap (λ rows. fence_passes epoch (lookup rows key))
          ((update_participation_index-keeps svc no_faults key r t).0 ∙ e)
        ∙ h in
      rw passes
        (refl, lookup-insert_self u.tournaments key (record { document = r; owner_epoch = epoch }))

  list_and_write-IsThrough :
      (key : String) (p : Option String) (r : TournamentRecord) (epoch : ℕ) (s : Store)
      → fence_passes epoch (lookup s.tournaments key) ≡ true
      → IsThrough key r epoch (list_and_write svc no_faults key p r epoch s)
  list_and_write-IsThrough key none r epoch s h = index_and_write-IsThrough key r epoch s s refl h
  list_and_write-IsThrough key (some p) r epoch s h =
      elim (Bool-cases (not (p == "") && is_calendar_listed r)) [
        | inl l ↦ rw l (
            index_and_write-IsThrough key r epoch s (add_to_or_update_calendar svc p r s)
              (add_to_or_update_calendar-tournaments svc p r s) h)
        | inr l ↦ rw l (index_and_write-IsThrough key r epoch s s refl h)
      ]

  save_tournament_record-IsThrough :
      (key : String) (r : TournamentRecord) (epoch : ℕ) (user_id : Option String) (s : Store)
      → r.tournament_id ≡ some key
      → (key == "") ≡ false
      → truthy r.organisation_id ≡ true
      → fence_passes epoch (lookup s.tournaments key) ≡ true
      → IsThrough key
          (stamp_created_by r user_id)
          epoch
          (save_tournament_record svc no_faults r epoch user_id s)
  unfolding save_tournament_record
  save_tournament_record-IsThrough key r epoch user_id s own e org h =
      let through : IsThrough key (stamp_created_by r user_id) epoch
          (save_keyed svc no_faults (some key) r epoch user_id s) =
        rw (e, org)
          (list_and_write-IsThrough key r.organisation_id (stamp_created_by r user_id) epoch s h) in
      subst
        (λ o.
          IsThrough key (stamp_created_by r user_id) epoch
            (save_keyed svc no_faults o r epoch user_id s))
        (sym own) through

module _ (upper : String → String) (scoping : Bool) (svc : Services) (c : Caller)
    (ctx : UserContext) (s : Store) (attach : Store → TournamentRecord → TournamentRecord)
    (accepts : Payload → Bool) where
  -- The answer to a payload of one record, and the row that it leaves under `id`.
  abbrev Replaced : String → String → TournamentRecord → WholesaleSave × Store → Type 0
  Replaced key id stored (answer, s') =
      (answer ≡ ran (saved_all ((key, svc.size stored) ∷ [])))
      × (lookup s'.tournaments id ≡ some (record { document = stored; owner_epoch = 0 }))

  after_save-Replaced :
      (key id : String) (stored : TournamentRecord) (a : SaveAnswer × Store)
      → IsThrough svc id stored 0 a
      → let (run, s') = after_save svc (save_each svc [] 0 (some ctx.user_id)) [] key a in
        Replaced key id stored (ran run, s')
  unfolding save_each
  after_save-Replaced key id stored (saved n, t) (e, l) =
      let same : n ≡ svc.size stored = ground (arith, e) in rw same (refl, l)
  after_save-Replaced key id stored (failed m, t) (e, l) = absurd (ground (arith, e))
  after_save-Replaced key id stored (save_threw, t) (e, l) = absurd (ground (arith, e))

  validated_save-Replaced :
      (key id : String) (new : TournamentRecord)
      → accepts ((key, new, no_faults) ∷ []) ≡ true
      → IsThrough svc id
          (stamp_created_by new (some ctx.user_id))
          0
          (save_tournament_record svc no_faults new 0 (some ctx.user_id) s)
      → Replaced key id (stamp_created_by new (some ctx.user_id)) (
          validated_save upper scoping svc attach accepts
            ((key, new, no_faults) ∷ [])
            (some ctx.user_id)
            s)
  unfolding save_tournament_records save_each
  validated_save-Replaced key id new a t = rw a (
      after_save-Replaced key id (stamp_created_by new (some ctx.user_id))
        (save_tournament_record svc no_faults new 0 (some ctx.user_id) s) t)

  gate-new :
      (key : String) (r : TournamentRecord)
      → c.unreadable_keys key ≡ false
      → lookup s.tournaments key ≡ none
      → gate_wholesale_save upper scoping svc c ctx ((key, r, no_faults) ∷ []) s
        ≡ some ((key, set_created_by r (some ctx.user_id), no_faults) ∷ [])
  unfolding gate_wholesale_save fetch_tournament_updated_at
  gate-new key r reads l = elim (Bool-cases (key == "")) [
    | inl e ↦ rw e refl
    | inr e ↦ rw (e, reads, l) refl
  ]

-- The gate reads the stored record under the key of the payload, and the write goes to the id inside
-- the record. A caller with a user context who passes the two provider checks for a record can send it
-- under a key that no tournament has, with the id of any stored tournament: if the key can be read, the
-- payload is accepted, the record still has that id and a provider once the privacy policy is on, and
-- no call fails, then the save succeeds and the stored record of that id is replaced, whoever may
-- mutate it. The stored row must have the owner epoch 0, as a wholesale save sends none.
pub wholesale_save_replaces_other :
    (upper : String → String) (scoping : Bool) (svc : Services) (c : Caller) (ctx : UserContext)
    (s : Store) (attach : Store → TournamentRecord → TournamentRecord) (accepts : Payload → Bool)
    (key id : String) (r new : TournamentRecord) (row : StoredRow)
    → c.user_context ≡ some ctx
    → check_user c.user (some ctx) ≡ true
    → check_provider (access_view r ∷ []) c.user (some ctx) true ≡ true
    → c.unreadable_keys key ≡ false
    → lookup s.tournaments key ≡ none
    → attach s (set_created_by r (some ctx.user_id)) ≡ new
    → accepts ((key, new, no_faults) ∷ []) ≡ true
    → new.tournament_id ≡ some id
    → (id == "") ≡ false
    → truthy new.organisation_id ≡ true
    → lookup s.tournaments id ≡ some row
    → row.owner_epoch ≡ 0
    → let (answer, s') =
        wholesale_save upper scoping svc attach accepts c ((key, r, no_faults) ∷ []) s in
      let stored : TournamentRecord = stamp_created_by new (some ctx.user_id) in
      (answer ≡ ran (saved_all ((key, svc.size stored) ∷ [])))
      × (lookup s'.tournaments id ≡ some (record { document = stored; owner_epoch = 0 }))
unfolding wholesale_save
wholesale_save_replaces_other upper scoping svc c ctx s attach accepts key id r new row has user
      provider reads l made a own e org there zero_epoch =
    let by : Option String = some ctx.user_id in
    let stored : TournamentRecord = stamp_created_by new by in
    let passes : fence_passes 0 (lookup s.tournaments id) ≡ true = rw (there, zero_epoch) refl in
    let saves : Replaced upper scoping svc c ctx s attach accepts key id stored (
        gated_save upper scoping svc attach accepts
          (some ((key, set_created_by r by, no_faults) ∷ [])) by s) =
      subst
        (λ x.
          Replaced upper scoping svc c ctx s attach accepts key id stored
            (validated_save upper scoping svc attach accepts ((key, x, no_faults) ∷ []) by s))
        (sym made)
        (validated_save-Replaced upper scoping svc c ctx s attach accepts key id new a
          (save_tournament_record-IsThrough svc id new 0 by s own e org passes)) in
    let gated : Replaced upper scoping svc c ctx s attach accepts key id stored (
        gated_save upper scoping svc attach accepts
          (gate_wholesale_save upper scoping svc c ctx ((key, r, no_faults) ∷ []) s) by s) =
      subst
        (λ o.
          Replaced upper scoping svc c ctx s attach accepts key id stored
            (gated_save upper scoping svc attach accepts o by s))
        (sym (gate-new upper scoping svc c ctx s attach accepts key r reads l)) saves in
    let payload : Payload = (key, r, no_faults) ∷ [] in
    subst
      (λ o. Replaced upper scoping svc c ctx s attach accepts key id stored (
        if not (check_user c.user o)
        then (denied "Invalid user", s)
        else if not (check_provider (map (λ e. access_view e.1) payload) c.user o true)
        then (denied "User not allowed", s)
        else gated_save upper scoping svc attach accepts
            (gate_if_context upper scoping svc attach accepts c o payload s) (saver o c.legacy_id)
            s))
      (sym has) (rw (user, provider) gated)
