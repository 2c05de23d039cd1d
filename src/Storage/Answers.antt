-- ===== src/Storage/Answers.antt =====
-- The answer of removeTournamentRecords and the tables it leaves.
use competition_factory_serv.Prelude.{
  ℕ, suc, ◌+◌, String, ◌≡◌, refl, ◌∙◌, subst, ap, inl, inr, none, some, List, [], ◌∷◌, ◌++◌, arith,
  lookup, keys, length, length-append, All,
}
use competition_factory_serv.Storage.{StoredRow, Store, Services}
use competition_factory_serv.Storage.Delete.{
  Request, Faults, Deletion, nothing, removed, threw, refused, Removal, finished, stopped, aborted,
  archived_row, delete_single_tournament, after_deletion, remove_each, remove_tournament_records,
}
use competition_factory_serv.Storage.Cases.{DeletionCase, delete_single_tournament-DeletionCase}
use competition_factory_serv.Storage.Removals.{Loop, Removed-absent, remove_each-Loop}

abbrev IsAbsent : Store → String → Type 0
IsAbsent s id = lookup s.tournaments id ≡ none

-- The ids before the one that stopped the run are gone, and that one is there.
abbrev pub StopsAt : List String → Store → Type 0
StopsAt ids s =
    (before : List String) × (id : String) × (after : List String) × (row : StoredRow) × (ids
      ≡ before ++ id ∷ after)
    × All (IsAbsent s) before
    × (lookup s.tournaments id ≡ some row)

-- The count goes from `n` by what the archive gains.
abbrev Counted : ℕ → ℕ → Store → Store → Type 0
Counted n m s s' = m + length s.archive ≡ n + length s'.archive

abbrev pub Answer : ℕ → List String → Store → Removal × Store → Type 0
Answer n ids s (finished m, s') = Counted n m s s' × All (IsAbsent s') ids
Answer n ids s (stopped code m, s') = Counted n m s s' × StopsAt ids s'
Answer n ids s (aborted, s') = Unit

answer_cons :
    (id : String) (ids : List String) (n n' : ℕ) (s t : Store) (r : Removal × Store)
    → length t.archive + n ≡ length s.archive + n'
    → IsAbsent r.1 id
    → Answer n' ids t r
    → Answer n (id ∷ ids) s r
answer_cons id ids n n' s t (finished m, s') c absent (count, all) =
    (omega (arith, c, count), (absent, all))
answer_cons id ids n n' s t (stopped code m, s') c absent
      (count, (before, at, after, row, e, all, there)) =
    (
      omega (arith, c, count),
      (id ∷ before, at, after, row, ap (λ xs. id ∷ xs) e, (absent, all), there),
    )
answer_cons id ids n n' s t (aborted, s') c absent a = tt

module _ (svc : Services) (q : Request) where
  stays-IsAbsent :
      (ids : List String) (k : String) (s s' : Store)
      → Loop svc q ids k s s'
      → IsAbsent s k
      → IsAbsent s' k
  stays-IsAbsent ids k s s' (inl e, m) h = e ∙ h
  stays-IsAbsent ids k s s' (inr g, m) h = g.is_absent

  after_deletion-Answer :
      (id : String) (ids : List String) (n : ℕ) (s : Store) (d : Deletion × Store)
      (again : ℕ → Store → Removal × Store)
      → DeletionCase svc q id s d
      → ((k : String) (m : ℕ) (t : Store) → Loop svc q ids k t (again m t).1)
      → ((m : ℕ) (t : Store) → Answer m ids t (again m t))
      → Answer n (id ∷ ids) s (after_deletion svc q again n d)
  after_deletion-Answer id ids n s (nothing, t) again c loop ih =
      subst (λ u. Answer n (id ∷ ids) u (again n t)) c.0
        (answer_cons id ids n n t t (again n t) refl
          (stays-IsAbsent ids id t (again n t).1 (loop id n t)
            (ap (λ u. lookup u.tournaments id) c.0 ∙ c.1))
          (ih n t))
  after_deletion-Answer id ids n s (removed, t) again c loop ih =
      answer_cons id ids n (suc n) s t (again (suc n) t)
        (rw c.copy
          (omega (arith, length-append s.archive (archived_row svc q c.key c.row.document ∷ []))))
        (stays-IsAbsent ids id t (again (suc n) t).1 (loop id (suc n) t)
          (Removed-absent svc q id s t c))
        (ih (suc n) t)
  after_deletion-Answer id ids n s (threw, t) again c loop ih = tt
  after_deletion-Answer id ids n s (refused code, t) again (same, (row, there)) loop ih =
      (rw same refl, ([], id, ids, row, refl, tt, ap (λ u. lookup u.tournaments id) same ∙ there))

  remove_each-Answer :
      (calls : List (String × Faults)) (n : ℕ) (s : Store)
      → Answer n (keys calls) s (remove_each svc q calls n s)
  unfolding remove_each
  remove_each-Answer [] n s = (refl, tt)
  remove_each-Answer ((id, f) ∷ calls) n s =
      after_deletion-Answer id (keys calls) n s (delete_single_tournament svc q id f s)
        (remove_each svc q calls) (delete_single_tournament-DeletionCase svc q id f s)
        (remove_each-Loop svc q calls) (remove_each-Answer calls)

-- A run of removals that is not aborted by a call that throws counts as removed exactly the copies it
-- has added to the archive. Where it finishes, no requested id has a record; where it stops with an
-- error, the ids before one of the list have none, and that one still has its record.
pub remove_tournament_records-Answer :
    (svc : Services) (q : Request) (calls : List (String × Faults)) (s : Store)
    → Answer 0 (keys calls) s (remove_tournament_records svc q calls s)
unfolding remove_tournament_records
remove_tournament_records-Answer svc q calls s = remove_each-Answer svc q calls 0 s
