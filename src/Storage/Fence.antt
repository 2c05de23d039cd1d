-- ===== src/Storage/Fence.antt =====
-- The owner epoch over runs of saveTournamentRecords, and what a rejected save has already written.
use competition_factory_serv.Prelude.{
  ℕ, ◌≤◌, String, ◌==◌, ◌≡◌, refl, sym, ◌∙◌, ap, subst, inl, inr, true, Option, none, some, List,
  [], ◌∷◌, arith, lookup, insert, Bool-cases, Option-cases, eq_iff, leb→le,
}
use competition_factory_serv.Storage.{TournamentRecord, StoredRow, Store, Services}
use competition_factory_serv.Storage.Save.{
  SaveFaults, SaveAnswer, saved, failed, save_threw, SaveRun, fence_passes, stamp_created_by,
  save_keyed, save_tournament_record, after_save, save_each, save_tournament_records,
}
use competition_factory_serv.Storage.Writes.{
  lookup-insert_self, lookup-insert_other, Written, save_tournament_record-Written,
}

-- One call of saveTournamentRecords.
pub record SaveCall : Type 0 where
  pub records : List (String × TournamentRecord × SaveFaults)
  pub owner_epoch : Option ℕ
  pub user_id : Option String

unfoldable pub serve_saves : Services → List SaveCall → Store → Store
unfolding save_tournament_records
serve_saves svc [] s = s
serve_saves svc (c ∷ calls) s =
    serve_saves svc calls (save_tournament_records svc c.records c.owner_epoch c.user_id s).1

-- The row of `k` is still there, under an epoch that is no lower.
abbrev Rises : String → Store → Store → Type 0
Rises k s s' =
    (row : StoredRow)
    → lookup s.tournaments k ≡ some row
    → (row' : StoredRow) × (lookup s'.tournaments k ≡ some row')
      × (row.owner_epoch ≤ row'.owner_epoch)

Rises-refl : (k : String) (s s' : Store) → s'.tournaments ≡ s.tournaments → Rises k s s'
Rises-refl k s s' e row h = (row, ap (λ rows. lookup rows k) e ∙ h, omega arith)

Rises-trans : (k : String) (s t u : Store) → Rises k s t → Rises k t u → Rises k s u
Rises-trans k s t u f g row h =
    let (one, there, up) = f row h in
    let (two, here, more) = g one there in (two, here, omega (arith, up, more))

Written-Rises :
    (k key : String) (r : TournamentRecord) (epoch : ℕ) (s s' : Store)
    → Written key r epoch s s'
    → Rises k s s'
Written-Rises k key r epoch s s' (inl e) row h = Rises-refl k s s' e row h
Written-Rises k key r epoch s s' (inr (e, passes)) row h =
    let new : StoredRow = record { document = r; owner_epoch = epoch } in
    elim (Bool-cases (key == k)) [
      | inr d ↦ (
        row,
        ap (λ rows. lookup rows k) e ∙ lookup-insert_other s.tournaments key k new d ∙ h,
        omega arith,
      )
      | inl d ↦
          let same : key ≡ k = (eq_iff key k).0 d in
          (
            new,
            ap (λ rows. lookup rows k) e
                ∙ subst (λ x. lookup (insert s.tournaments key new) x ≡ some new) same
                    (lookup-insert_self s.tournaments key new),
            leb→le row.owner_epoch epoch (
                subst (λ o. fence_passes epoch o ≡ true)
                  (subst (λ x. lookup s.tournaments x ≡ some row) (sym same) h) passes),
          )
    ]

module _ (svc : Services) (k : String) where
  save_tournament_record-Rises :
      (f : SaveFaults) (r : TournamentRecord) (epoch : ℕ) (user_id : Option String) (s : Store)
      → Rises k s (save_tournament_record svc f r epoch user_id s).1
  unfolding save_tournament_record
  save_tournament_record-Rises f r epoch user_id s = elim (Option-cases r.tournament_id) [
    | inl e ↦ Rises-refl k s (save_tournament_record svc f r epoch user_id s).1 (
        subst (λ o. (save_keyed svc f o r epoch user_id s).1.tournaments ≡ s.tournaments) (sym e)
          refl)
    | inr (key, e) ↦
        Written-Rises k key (stamp_created_by r user_id) epoch s
          (save_tournament_record svc f r epoch user_id s).1
          (save_tournament_record-Written svc f key r epoch user_id s e)
  ]

  after_save-Rises :
      (again : List (String × ℕ) → Store → SaveRun × Store) (bytes : List (String × ℕ))
      (key : String) (s : Store) (a : SaveAnswer × Store)
      → Rises k s a.1
      → ((b : List (String × ℕ)) (t : Store) → Rises k t (again b t).1)
      → Rises k s (after_save svc again bytes key a).1
  after_save-Rises again bytes key s (saved n, t) h ih =
      Rises-trans k s t (again (insert bytes key n) t).1 h (ih (insert bytes key n) t)
  after_save-Rises again bytes key s (failed e, t) h ih = h
  after_save-Rises again bytes key s (save_threw, t) h ih = h

  save_each-Rises :
      (records : List (String × TournamentRecord × SaveFaults)) (epoch : ℕ)
      (user_id : Option String) (bytes : List (String × ℕ)) (s : Store)
      → Rises k s (save_each svc records epoch user_id bytes s).1
  unfolding save_each
  save_each-Rises [] epoch user_id bytes s = Rises-refl k s s refl
  save_each-Rises ((key, r, f) ∷ rest) epoch user_id bytes s =
      after_save-Rises (save_each svc rest epoch user_id) bytes key s
        (save_tournament_record svc f r epoch user_id s)
        (save_tournament_record-Rises f r epoch user_id s) (save_each-Rises rest epoch user_id)

  save_tournament_records-Rises :
      (records : List (String × TournamentRecord × SaveFaults)) (epoch : Option ℕ)
      (user_id : Option String) (s : Store)
      → Rises k s (save_tournament_records svc records epoch user_id s).1
  unfolding save_tournament_records
  save_tournament_records-Rises records none user_id s = save_each-Rises records 0 user_id [] s
  save_tournament_records-Rises records (some epoch) user_id s =
      save_each-Rises records epoch user_id [] s

-- Over any sequence of saves, whatever fails in them, a row of the table of tournaments stays, and its
-- owner epoch never falls.
pub serve_saves_keeps_epoch :
    (svc : Services) (k : String) (calls : List SaveCall) (s : Store) (row : StoredRow)
    → lookup s.tournaments k ≡ some row
    → (row' : StoredRow) × (lookup (serve_saves svc calls s).tournaments k ≡ some row')
      × (row.owner_epoch ≤ row'.owner_epoch)
unfolding serve_saves
serve_saves_keeps_epoch svc k [] s row h = (row, h, omega arith)
serve_saves_keeps_epoch svc k (c ∷ calls) s row h =
    let t : Store = (save_tournament_records svc c.records c.owner_epoch c.user_id s).1 in
    let (one, there, up) =
      save_tournament_records-Rises svc k c.records c.owner_epoch c.user_id s row h in
    let (two, here, more) = serve_saves_keeps_epoch svc k calls t one there in
    (two, here, omega (arith, up, more))
