-- ===== src/Storage/Cases.antt =====
-- What one deletion of deleteSingleTournament does, by its answer.
use competition_factory_serv.Prelude.{
  String, ◌==◌, ◌≡◌, refl, sym, ◌∙◌, ◌⊎◌, inl, inr, true, false, not, ◌&&◌, Option, none, some,
  List, [], ◌∷◌, ◌++◌, arith, lookup, Any, Bool-cases, Option-cases, eq_iff, ap, append-nil,
  some-injective,
}
use competition_factory_serv.Storage.{
  TournamentRecord, StoredRow, ArchivedRow, CalendarRow, Store, Services, remove,
}
use competition_factory_serv.Storage.Delete.{
  Request, Faults, Deletion, nothing, removed, threw, refused, is_delete_authorized,
  check_deletable_by_end_date, drop_own, remove_from_calendar, archived_row,
  archive_tournament_record, drop_read_models, detach, own_provider, record_deletion_safely,
  archive_first, delete_single_tournament,
}

module _ {V : Type 0} where
  pub lookup-remove_self :
      (id : String) (rows : List (String × V)) → lookup (remove id rows) id ≡ none
  lookup-remove_self id [] = refl
  lookup-remove_self id ((k, v) ∷ rows) = elim (Bool-cases (k == id)) [
    | inl e ↦ rw (e, lookup-remove_self id rows) refl
    | inr e ↦ rw (e, e, lookup-remove_self id rows) refl
  ]

  pub lookup-remove_other :
      (id k : String) (rows : List (String × V))
      → (id == k) ≡ false
      → lookup (remove id rows) k ≡ lookup rows k
  lookup-remove_other id k [] h = refl
  lookup-remove_other id k ((j, v) ∷ rows) h = elim (Bool-cases (j == id)) [
    | inl e ↦ rw (e, (eq_iff j id).0 e, h, lookup-remove_other id k rows h) refl
    | inr e ↦ rw (e, lookup-remove_other id k rows h) refl
  ]

pub Any-append_left {ℓ} :
    {A : Type ℓ} (P : A → Type 0) (xs ys : List A) → Any P xs → Any P (xs ++ ys)
Any-append_left P [] ys h = absurd h
Any-append_left P (x ∷ xs) ys (inl h) = inl h
Any-append_left P (x ∷ xs) ys (inr h) = inr (Any-append_left P xs ys h)

pub Any-append_last {ℓ} :
    {A : Type ℓ} (P : A → Type 0) (xs : List A) (y : A) → P y → Any P (xs ++ y ∷ [])
Any-append_last P [] y h = inl h
Any-append_last P (x ∷ xs) y h = inr (Any-append_last P xs y h)

module _ (svc : Services) (q : Request) where
  -- The record of an id has been deleted: it was there, the caller was authorised, it was over or a
  -- mock, and its copy is the last of the archive.
  pub record Removed (id : String) (s s' : Store) : Type 0 where
    pub row : StoredRow
    pub key : String
    pub was_there : lookup s.tournaments id ≡ some row
    pub has_key : row.document.tournament_id ≡ some key
    pub allowed : is_delete_authorized row.document q ≡ true
    pub over : check_deletable_by_end_date row.document q.today ≡ true
    pub rows : s'.tournaments ≡ remove id s.tournaments
    pub copy : s'.archive ≡ s.archive ++ archived_row svc q key row.document ∷ []

  -- No record is gone, and at most the archive has one more.
  abbrev pub Untouched : Store → Store → Type 0
  Untouched s s' =
      (s'.tournaments ≡ s.tournaments)
      × ((more : List ArchivedRow) × (s'.archive ≡ s.archive ++ more))

  abbrev pub DeletionCase : String → Store → Deletion × Store → Type 0
  DeletionCase id s (nothing, s') = (s' ≡ s) × (lookup s.tournaments id ≡ none)
  DeletionCase id s (refused code, s') =
      (s' ≡ s) × ((row : StoredRow) × (lookup s.tournaments id ≡ some row))
  DeletionCase id s (removed, s') = Removed id s s'
  DeletionCase id s (threw, s') = Untouched s s' ⊎ Removed id s s'

  drop_own-keeps :
      (found : Option CalendarRow) (provider_id id : String) (s : Store)
      → ((drop_own found provider_id id s).tournaments ≡ s.tournaments)
        × ((drop_own found provider_id id s).archive ≡ s.archive)
  drop_own-keeps none provider_id id s = (refl, refl)
  drop_own-keeps (some row) provider_id id s = elim (Bool-cases (row.provider_id == provider_id)) [
    | inl e ↦ rw e (refl, refl)
    | inr e ↦ rw e (refl, refl)
  ]

  -- `Removed` reads the two tables of records only.
  moved :
      (id : String) (s t u : Store)
      → (u.tournaments ≡ t.tournaments) × (u.archive ≡ t.archive)
      → Removed id s t
      → Removed id s u
  moved id s t u e r = record {
    row = r.row;
    key = r.key;
    was_there = r.was_there;
    has_key = r.has_key;
    allowed = r.allowed;
    over = r.over;
    rows = e.0 ∙ r.rows;
    copy = e.1 ∙ r.copy;
  }

  detach-DeletionCase :
      (f : Faults) (id : String) (provider : Option String) (s t : Store)
      → Removed id s t
      → DeletionCase id s (detach svc q f id provider t)
  unfolding drop_read_models remove_from_calendar
  detach-DeletionCase f id none s t r = moved id s t (drop_read_models svc q f id t) (refl, refl) r
  detach-DeletionCase f id (some p) s t r = elim (Bool-cases f.calendar_throws) [
    | inl e ↦ rw e (inr r)
    | inr e ↦ rw e (
        moved id s t (drop_read_models svc q f id (remove_from_calendar p id t))
          (drop_own-keeps (lookup t.calendar id) p id t) r)
  ]

  record_deletion_safely-keeps :
      (f : Faults) (id : String) (s : Store)
      → ((record_deletion_safely svc q f id s).tournaments ≡ s.tournaments)
        × ((record_deletion_safely svc q f id s).archive ≡ s.archive)
  record_deletion_safely-keeps f id s = elim (Bool-cases (svc.has_audit && not f.audit_throws)) [
    | inl e ↦ rw e (refl, refl)
    | inr e ↦ rw e (refl, refl)
  ]

  archive_tournament_record-some :
      (r : TournamentRecord) (a : ArchivedRow)
      → archive_tournament_record svc q r ≡ some a
      → (key : String) × (r.tournament_id ≡ some key) × (archived_row svc q key r ≡ a)
  unfolding archive_tournament_record
  archive_tournament_record-some r a h = elim (Option-cases r.tournament_id) [
    | inl e ↦ absurd (ground (arith, e, h))
    | inr (key, e) ↦ elim (Bool-cases (key == "")) [
      | inl k ↦ absurd (ground (arith, e, k, h))
      | inr k ↦ (key, e, some-injective _ a (ground (arith, e, k, h)))
    ]
  ]

  archive_first-DeletionCase :
      (f : Faults) (id : String) (s : Store) (row : StoredRow) (copy : Option ArchivedRow)
      → lookup s.tournaments id ≡ some row
      → is_delete_authorized row.document q ≡ true
      → check_deletable_by_end_date row.document q.today ≡ true
      → archive_tournament_record svc q row.document ≡ copy
      → DeletionCase id s (archive_first svc q f id row.document copy s)
  unfolding drop_read_models
  archive_first-DeletionCase f id s row none l a o c = (refl, (row, l))
  archive_first-DeletionCase f id s row (some copy) l a o c =
      let (key, has, e) = archive_tournament_record-some row.document copy c in
      let kept : Store = record s { archive = s.archive ++ copy ∷ [] } in
      let said : Store = record_deletion_safely svc q f id kept in
      let safe = record_deletion_safely-keeps f id kept in
      let gone : Store = record said { tournaments = remove id said.tournaments } in
      let r : Removed id s gone = record {
        row = row;
        key = key;
        was_there = l;
        has_key = has;
        allowed = a;
        over = o;
        rows = ap (remove id) safe.0;
        copy = rw e safe.1;
      } in
      elim (Bool-cases f.archive_throws) [
        | inl t ↦ rw t (inl (refl, ([], sym (append-nil s.archive))))
        | inr t ↦ elim (Bool-cases f.archive_answers_error) [
          | inl u ↦ rw (t, u) (refl, (row, l))
          | inr u ↦ elim (Bool-cases f.remove_throws) [
            | inl v ↦ rw (t, u, v) (inl (safe.0, (copy ∷ [], safe.1)))
            | inr v ↦
                rw (t, u, v)
                  (detach-DeletionCase f id (own_provider row.document.organisation_id) s gone r)
          ]
        ]
      ]

  pub delete_single_tournament-DeletionCase :
      (id : String) (f : Faults) (s : Store)
      → DeletionCase id s (delete_single_tournament svc q id f s)
  unfolding delete_single_tournament
  delete_single_tournament-DeletionCase id f s = elim (Bool-cases f.find_throws) [
    | inl t ↦ rw t (inl (refl, ([], sym (append-nil s.archive))))
    | inr t ↦ elim (Option-cases (lookup s.tournaments id)) [
      | inl l ↦ rw (t, l) (refl, l)
      | inr (row, l) ↦ elim (Bool-cases (is_delete_authorized row.document q)) [
        | inr a ↦ rw (t, l, a) (refl, (row, l))
        | inl a ↦ elim (Bool-cases (check_deletable_by_end_date row.document q.today)) [
          | inr o ↦ rw (t, l, a, o) (refl, (row, l))
          | inl o ↦
              rw (t, l, a, o)
                (archive_first-DeletionCase f id s row
                  (archive_tournament_record svc q row.document) l a o refl)
        ]
      ]
    ]
  ]
