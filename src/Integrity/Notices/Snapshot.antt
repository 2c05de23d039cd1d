-- ===== src/Integrity/Notices/Snapshot.antt =====
-- Which draws a mutation's snapshot holds.
use competition_factory_serv.Prelude.{
  String, ◌==◌, eq_iff, ◌≡◌, refl, ◌∙◌, Bool, true, false, not, ◌&&◌, ◌||◌, Option, none, some,
  some-injective, List, [], ◌∷◌, ◌++◌, arith, if◌then◌else◌, includes, includes-concat, Bool-cases,
  inl, inr,
}
use competition_factory_serv.Integrity.Scan.{Target}
use competition_factory_serv.Integrity.Notices.{
  RecordDraws, Batch, Found, visit_draw, visit_draws, visit_events, visit_records,
  snapshot_touched_draws,
}

abbrev pub ids_of : List Target → List String
ids_of [] = []
ids_of (t ∷ ts) = t.draw_id ∷ ids_of ts

abbrev pub in_draws : List (Option String) → String → Bool
in_draws [] id = false
in_draws (none ∷ ds) id = in_draws ds id
in_draws (some d ∷ ds) id = d == id || in_draws ds id

abbrev pub in_events : RecordDraws → String → Bool
in_events [] id = false
in_events (e ∷ es) id = in_draws e id || in_events es id

abbrev pub in_records : List (String × RecordDraws) → String → Bool
in_records [] id = false
in_records ((tid, events) ∷ rest) id = in_events events id || in_records rest id

abbrev pub IsDistinctIds : List String → Type 0
IsDistinctIds [] = Unit {0}
IsDistinctIds (x ∷ xs) = (includes xs x ≡ false) × IsDistinctIds xs

IsDistinctIds-concat :
    (xs : List String) (x : String)
    → IsDistinctIds xs
    → includes xs x ≡ false
    → IsDistinctIds (xs ++ x ∷ [])
IsDistinctIds-concat [] x d h = (refl, tt)
IsDistinctIds-concat (y ∷ xs) x (a, d) h = (
  ground (arith, includes-concat xs x y, eq_iff x y, eq_iff y x),
  IsDistinctIds-concat xs x d (ground arith),
)

ids_of-append :
    (xs : List Target) (t : Target) → ids_of (xs ++ t ∷ []) ≡ ids_of xs ++ t.draw_id ∷ []
ids_of-append [] t = refl
ids_of-append (x ∷ xs) t = rw (ids_of-append xs t) refl

module _ (touched added : List String) where
  -- The set holds the ids of the targets, once each.
  record IsFound (state : Found) : Type 0 where
    same : ids_of state.1 ≡ state.0
    distinct : IsDistinctIds state.0

  visit_draw-IsFound :
      (tid : String) (d : Option String) (state : Found)
      → IsFound state
      → IsFound (visit_draw touched added tid d state)
  visit_draw-IsFound tid none state f = f
  visit_draw-IsFound tid (some d) (found, draws) f =
      elim (Bool-cases (not (includes touched d) || includes found d)) [
        | inl h ↦ rw h f
        | inr h ↦ rw h (record {
          same = ids_of-append draws _ ∙ rw f.same refl;
          distinct = IsDistinctIds-concat found d f.distinct (ground (arith, h));
        })
      ]

  visit_draw-includes :
      (tid : String) (d : Option String) (state : Found) (id : String)
      → includes (visit_draw touched added tid d state).0 id
        ≡ (includes state.0 id || (includes touched id && in_draws (d ∷ []) id))
  visit_draw-includes tid none state id = ground arith
  visit_draw-includes tid (some d) (found, draws) id =
      ground (arith, includes-concat found d id, eq_iff d id)

  -- What a part of the walk does, given which ids the part holds.
  record IsWalk (before after : Found) (holds : String → Bool) : Type 0 where
    kept : IsFound before → IsFound after
    gains :
        (id : String)
        → includes after.0 id ≡ (includes before.0 id || (includes touched id && holds id))

  IsWalk-then :
      (a b c : Found) (p q r : String → Bool)
      → IsWalk a b p
      → IsWalk b c q
      → ((id : String) → r id ≡ (p id || q id))
      → IsWalk a c r
  IsWalk-then a b c p q r x y e = record {
    kept = λ f. y.kept (x.kept f);
    gains = λ id. ground (arith, x.gains id, y.gains id, e id);
  }

  IsWalk-nothing : (a : Found) → IsWalk a a (λ _. false)
  IsWalk-nothing a = record { kept = λ f. f; gains = λ id. ground arith }

  in_draws-cons :
      (d : Option String) (ds : List (Option String)) (id : String)
      → in_draws (d ∷ ds) id ≡ (in_draws (d ∷ []) id || in_draws ds id)
  in_draws-cons none ds id = refl
  in_draws-cons (some d) ds id = ground arith

  visit_draws-IsWalk :
      (tid : String) (ds : List (Option String)) (state : Found)
      → IsWalk state (visit_draws touched added tid ds state) (in_draws ds)
  unfolding visit_draws
  visit_draws-IsWalk tid [] state = IsWalk-nothing state
  visit_draws-IsWalk tid (d ∷ ds) state =
      IsWalk-then state (visit_draw touched added tid d state) _ (in_draws (d ∷ [])) (in_draws ds)
        (in_draws (d ∷ ds))
        (record { kept = visit_draw-IsFound tid d state; gains = visit_draw-includes tid d state })
        (visit_draws-IsWalk tid ds (visit_draw touched added tid d state)) (in_draws-cons d ds)

  visit_events-IsWalk :
      (tid : String) (es : RecordDraws) (state : Found)
      → IsWalk state (visit_events touched added tid es state) (in_events es)
  unfolding visit_events
  visit_events-IsWalk tid [] state = IsWalk-nothing state
  visit_events-IsWalk tid (e ∷ es) state =
      IsWalk-then state (visit_draws touched added tid e state) _ (in_draws e) (in_events es)
        (in_events (e ∷ es)) (visit_draws-IsWalk tid e state)
        (visit_events-IsWalk tid es (visit_draws touched added tid e state)) (λ id. refl)

  visit_records-IsWalk :
      (records : List (String × RecordDraws)) (state : Found)
      → IsWalk state (visit_records touched added records state) (in_records records)
  unfolding visit_records
  visit_records-IsWalk [] state = IsWalk-nothing state
  visit_records-IsWalk ((tid, events) ∷ rest) state =
      IsWalk-then state (visit_events touched added tid events state) _ (in_events events)
        (in_records rest) (in_records ((tid, events) ∷ rest)) (visit_events-IsWalk tid events state)
        (visit_records-IsWalk rest (visit_events touched added tid events state)) (λ id. refl)

  visited :
      (records : List (String × RecordDraws)) (id : String)
      → includes (ids_of (visit_records touched added records ([], [])).1) id
        ≡ (includes touched id && in_records records id)
  visited records id =
      let walk = visit_records-IsWalk records ([], []) in
      let found = walk.kept (record { same = refl; distinct = tt }) in
      rw found.same (walk.gains id ∙ ground arith)

  visited_once :
      (records : List (String × RecordDraws))
      → IsDistinctIds (ids_of (visit_records touched added records ([], [])).1)
  visited_once records =
      let walk = visit_records-IsWalk records ([], []) in
      let found = walk.kept (record { same = refl; distinct = tt }) in rw found.same found.distinct

taken_batch :
    (a b : Bool) (x y : Batch) → (if a then none else if b then none else some x) ≡ some y → x ≡ y
taken_batch true b x y h = cc
taken_batch false true x y h = cc
taken_batch false false x y h = some-injective x y h

-- A snapshot that is taken has one target for each touched draw that the records hold, in whatever
-- event, and no other, and carries the deleted draws as they are.
pub snapshot_touched_draws_complete :
    (touched deleted added : List String) (records : List (String × RecordDraws))
    (names : List (Option String)) (batch : Batch)
    → snapshot_touched_draws false touched deleted added records names ≡ some batch
    → IsDistinctIds (ids_of batch.draws)
      × ((id : String)
          → includes (ids_of batch.draws) id ≡ (includes touched id && in_records records id))
      × (batch.deleted ≡ deleted)
unfolding snapshot_touched_draws
snapshot_touched_draws_complete touched deleted added records names batch h =
    let taken = taken_batch _ _ _ batch h in
    rw (← taken) (visited_once touched added records, visited touched added records, refl)
