-- ===== src/Storage/Removals.antt =====
-- What a run of removeTournamentRecords leaves of the records, and what it answers.
use competition_factory_serv.Prelude.{
  ℕ, suc, String, ◌==◌, ◌≡◌, refl, sym, ◌∙◌, subst, ap, ◌⊎◌, inl, inr, true, false, none, some,
  List, [], ◌∷◌, ◌++◌, arith, lookup, includes, keys, append_assoc, append-nil, Any, Bool-cases,
  eq_iff, eq_refl,
}
use competition_factory_serv.Storage.{StoredRow, ArchivedRow, Store, Services}
use competition_factory_serv.Storage.Delete.{
  Request, Faults, Deletion, nothing, removed, threw, refused, Removal, is_delete_authorized,
  check_deletable_by_end_date, archived_row, delete_single_tournament, after_deletion, remove_each,
  remove_tournament_records,
}
use competition_factory_serv.Storage.Cases.{
  lookup-remove_self, lookup-remove_other, Any-append_left, Any-append_last, Removed, Untouched,
  DeletionCase, delete_single_tournament-DeletionCase,
}

module _ (svc : Services) (q : Request) where
  -- The record of `k` was asked for and is deleted, with leave, after its end, and archived.
  pub record Gone (ids : List String) (k : String) (s s' : Store) : Type 0 where
    pub row : StoredRow
    pub key : String
    pub asked : includes ids k ≡ true
    pub was_there : lookup s.tournaments k ≡ some row
    pub is_absent : lookup s'.tournaments k ≡ none
    pub allowed : is_delete_authorized row.document q ≡ true
    pub over : check_deletable_by_end_date row.document q.today ≡ true
    pub has_copy : Any (λ a. a ≡ archived_row svc q key row.document) s'.archive

  abbrev pub Fate : List String → String → Store → Store → Type 0
  Fate ids k s s' = (lookup s'.tournaments k ≡ lookup s.tournaments k) ⊎ Gone ids k s s'

  abbrev pub Extends : Store → Store → Type 0
  Extends s s' = (more : List ArchivedRow) × (s'.archive ≡ s.archive ++ more)

  abbrev pub Loop : List String → String → Store → Store → Type 0
  Loop ids k s s' = Fate ids k s s' × Extends s s'

  Loop-same :
      (ids : List String) (k : String) (s s' : Store) → Untouched svc q s s' → Loop ids k s s'
  Loop-same ids k s s' u = (inl (ap (λ rows. lookup rows k) u.0), u.1)

  Extends-trans : (s t u : Store) → Extends s t → Extends t u → Extends s u
  Extends-trans s t u (m, e) (n, f) = (m ++ n, f ∙ rw (e, append_assoc s.archive m n) refl)

  pub Removed-absent :
      (id : String) (s t : Store) → Removed svc q id s t → lookup t.tournaments id ≡ none
  Removed-absent id s t r = rw r.rows (lookup-remove_self id s.tournaments)

  Removed-other :
      (id k : String) (s t : Store)
      → Removed svc q id s t
      → (id == k) ≡ false
      → lookup t.tournaments k ≡ lookup s.tournaments k
  Removed-other id k s t r e = rw r.rows (lookup-remove_other id k s.tournaments e)

  Removed-Extends : (id : String) (s t : Store) → Removed svc q id s t → Extends s t
  Removed-Extends id s t r = (archived_row svc q r.key r.row.document ∷ [], r.copy)

  Removed-Gone :
      (id : String) (ids : List String) (s t s' : Store)
      → Removed svc q id s t
      → lookup s'.tournaments id ≡ none
      → Extends t s'
      → Gone (id ∷ ids) id s s'
  Removed-Gone id ids s t s' r absent m = record {
    row = r.row;
    key = r.key;
    asked = rw (eq_refl id) refl;
    was_there = r.was_there;
    is_absent = absent;
    allowed = r.allowed;
    over = r.over;
    has_copy =
        let row = archived_row svc q r.key r.row.document in
        subst (Any (λ a. a ≡ row)) (sym (m.1 ∙ ap (λ rows. rows ++ m.0) r.copy)) (
          Any-append_left (λ a. a ≡ row) (s.archive ++ row ∷ []) m.0
            (Any-append_last (λ a. a ≡ row) s.archive row refl));
  }

  after_own :
      (id : String) (ids : List String) (s t s' : Store)
      → Removed svc q id s t
      → Loop ids id t s'
      → Fate (id ∷ ids) id s s'
  after_own id ids s t s' r (inl e, m) =
      inr (Removed-Gone id ids s t s' r (e ∙ Removed-absent id s t r) m)
  after_own id ids s t s' r (inr g, m) = inr (Removed-Gone id ids s t s' r g.is_absent m)

  after_other :
      (id : String) (ids : List String) (k : String) (s t s' : Store)
      → lookup t.tournaments k ≡ lookup s.tournaments k
      → Loop ids k t s'
      → Fate (id ∷ ids) k s s'
  after_other id ids k s t s' same (inl e, m) = inl (e ∙ same)
  after_other id ids k s t s' same (inr g, m) = inr (record {
    row = g.row;
    key = g.key;
    asked = ground (arith, g.asked);
    was_there = sym same ∙ g.was_there;
    is_absent = g.is_absent;
    allowed = g.allowed;
    over = g.over;
    has_copy = g.has_copy;
  })

  widen :
      (id : String) (ids : List String) (k : String) (s s' : Store)
      → Loop ids k s s'
      → Loop (id ∷ ids) k s s'
  widen id ids k s s' loop = (after_other id ids k s s s' refl loop, loop.1)

  after_removal :
      (id : String) (ids : List String) (k : String) (s t s' : Store)
      → Removed svc q id s t
      → Loop ids k t s'
      → Loop (id ∷ ids) k s s'
  after_removal id ids k s t s' r loop = (
    elim (Bool-cases (id == k)) [
      | inl e ↦
          let same : id ≡ k = (eq_iff id k).0 e in
          subst (λ x. Loop ids x t s' → Fate (id ∷ ids) x s s') same (after_own id ids s t s' r)
            loop
      | inr e ↦ after_other id ids k s t s' (Removed-other id k s t r e) loop
    ],
    Extends-trans s t s' (Removed-Extends id s t r) loop.1,
  )

  after_removal_alone :
      (id : String) (ids : List String) (k : String) (s t : Store)
      → Removed svc q id s t
      → Loop (id ∷ ids) k s t
  after_removal_alone id ids k s t r =
      after_removal id ids k s t t r (inl refl, ([], sym (append-nil t.archive)))

  after_deletion-Loop :
      (id : String) (ids : List String) (k : String) (n : ℕ) (s : Store) (d : Deletion × Store)
      (again : ℕ → Store → Removal × Store)
      → DeletionCase svc q id s d
      → ((m : ℕ) (t : Store) → Loop ids k t (again m t).1)
      → Loop (id ∷ ids) k s (after_deletion svc q again n d).1
  after_deletion-Loop id ids k n s (nothing, t) again c ih =
      subst (λ u. Loop (id ∷ ids) k u (again n t).1) c.0 (widen id ids k t (again n t).1 (ih n t))
  after_deletion-Loop id ids k n s (removed, t) again c ih =
      after_removal id ids k s t (again (suc n) t).1 c (ih (suc n) t)
  after_deletion-Loop id ids k n s (threw, t) again (inl u) ih = Loop-same (id ∷ ids) k s t u
  after_deletion-Loop id ids k n s (threw, t) again (inr r) ih = after_removal_alone id ids k s t r
  after_deletion-Loop id ids k n s (refused code, t) again c ih =
      Loop-same (id ∷ ids) k s t
        (ap (λ u. u.tournaments) c.0, ([], ap (λ u. u.archive) c.0 ∙ sym (append-nil s.archive)))

  pub remove_each-Loop :
      (calls : List (String × Faults)) (k : String) (n : ℕ) (s : Store)
      → Loop (keys calls) k s (remove_each svc q calls n s).1
  unfolding remove_each
  remove_each-Loop [] k n s = (inl refl, ([], sym (append-nil s.archive)))
  remove_each-Loop ((id, f) ∷ calls) k n s =
      after_deletion-Loop id (keys calls) k n s (delete_single_tournament svc q id f s)
        (remove_each svc q calls) (delete_single_tournament-DeletionCase svc q id f s)
        (remove_each-Loop calls k)

-- A run of removals, whatever fails in it, leaves the record of each id as it was, or has deleted it:
-- then the id was asked for, a record was there that the caller may delete and that is a mock or
-- ended before today, and its copy is in the archive.
pub remove_tournament_records-Fate :
    (svc : Services) (q : Request) (calls : List (String × Faults)) (s : Store) (k : String)
    → Fate svc q (keys calls) k s (remove_tournament_records svc q calls s).1
unfolding remove_tournament_records
remove_tournament_records-Fate svc q calls s k = (remove_each-Loop svc q calls k 0 s).0
