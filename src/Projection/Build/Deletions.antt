-- ===== src/Projection/Build/Deletions.antt =====
-- What each kind of deltas builds and deletes of one matchUp.
use competition_factory_serv.Prelude.{
  String, ◌==◌, ◌≡◌, refl, sym, ◌∙◌, inl, inr, Bool, true, false, ◌&&◌, ◌||◌, Option, List, [], ◌∷◌,
  ◌++◌, map, All, any, any-append, is_text, Bool-cases, flat_map, arith, eq_iff,
}
use competition_factory_serv.Projection.Intents.{ResultMatchUp}
use competition_factory_serv.Projection.Rows.{
  Row, field, Op, upsert_op, delete_op, Records, FlatMatchUp, Toolkit, ProjectionDelta,
}
use competition_factory_serv.Projection.Group.{Grouped}
use competition_factory_serv.Projection.Build.Matches.{
  is_covered, match_up_upsert, rows_of, competitor_upsert, one_match_up, ids_of_match_up,
  draw_match_ups, one_flatten, ids_of_flatten, flatten_draw_deltas, covered_by_flatten, result_row,
  result_deltas, one_delete_venue, one_delete_draw, one_delete_match_up, one_delete_event,
  one_delete_participants, delete_deltas,
}
use competition_factory_serv.Projection.Build.Laws

abbrev pub is_upsert : Op → Bool
is_upsert upsert_op = true
is_upsert _ = false

abbrev pub is_delete : Op → Bool
is_delete delete_op = true
is_delete _ = false

abbrev pub of_match_up : String → ProjectionDelta → Bool
of_match_up m d = Laws.is_match_ups d.table && is_text (field d.key "match_up_id") m

-- The row of a matchUp is built; it is deleted by its id.
abbrev pub builds : String → ProjectionDelta → Bool
builds m d = is_upsert d.op && of_match_up m d

abbrev pub deletes : String → ProjectionDelta → Bool
deletes m d = is_delete d.op && of_match_up m d

module _ (m : String) where
  abbrev pub Elsewhere : ProjectionDelta → Type 0
  Elsewhere d = Laws.is_match_ups d.table ≡ false

  pub builds-Elsewhere : (ds : List ProjectionDelta) → All Elsewhere ds → any (builds m) ds ≡ false
  builds-Elsewhere [] h = refl
  builds-Elsewhere (d ∷ ds) (e, h) = ground (arith, e, builds-Elsewhere ds h)

  pub deletes-Elsewhere :
      (ds : List ProjectionDelta) → All Elsewhere ds → any (deletes m) ds ≡ false
  deletes-Elsewhere [] h = refl
  deletes-Elsewhere (d ∷ ds) (e, h) = ground (arith, e, deletes-Elsewhere ds h)

  -- What a flatten builds is what it covers, and it deletes nothing.
  rows-any :
      (k : Toolkit) (records : Records) (t : String) (rows others : List Row)
      → let ds =
          map (match_up_upsert "flattenDraw" t) rows
          ++ map (competitor_upsert k records t) others in
        (any (builds m) ds ≡ is_covered (map (λ r. field r "match_up_id") rows) m)
        × (any (deletes m) ds ≡ false)
  rows-any k records t [] [] = (refl, refl)
  rows-any k records t [] (o ∷ os) = rows-any k records t [] os
  rows-any k records t (r ∷ rows) others =
      let rest = rows-any k records t rows others in (rw rest.0 refl, rest.1)

  match_up-any :
      (k : Toolkit) (records : Records) (t : String) (x : FlatMatchUp)
      → (any (builds m) (one_match_up k records t x) ≡ is_covered (ids_of_match_up k records t x) m)
        × (any (deletes m) (one_match_up k records t x) ≡ false)
  match_up-any k records t x = elim (Bool-cases (x.collection_id == "")) [
    | inl e ↦ rw e (rows-any k records t (rows_of k records t x).0 (rows_of k records t x).1)
    | inr e ↦ rw e (refl, refl)
  ]

  pair-any :
      {A : Type 0} (f : A → List ProjectionDelta) (ids : A → List (Option String)) (xs : List A)
      → ((x : A) → (any (builds m) (f x) ≡ is_covered (ids x) m) × (any (deletes m) (f x) ≡ false))
      → (any (builds m) (flat_map f xs) ≡ is_covered (flat_map ids xs) m)
        × (any (deletes m) (flat_map f xs) ≡ false)
  pair-any f ids [] h = (refl, refl)
  pair-any f ids (x ∷ xs) h =
      let here = h x in
      let rest = pair-any f ids xs h in
      (
        any-append (builds m) (f x) (flat_map f xs)
            ∙ rw (here.0, rest.0) (sym (any-append (λ c. is_text c m) (ids x) (flat_map ids xs))),
        any-append (deletes m) (f x) (flat_map f xs) ∙ rw (here.1, rest.1) refl,
      )

  pub flatten-any :
      (k : Toolkit) (records : Records) (g : Grouped)
      → (any (builds m) (flatten_draw_deltas k records g)
          ≡ is_covered (covered_by_flatten k records g) m)
        × (any (deletes m) (flatten_draw_deltas k records g) ≡ false)
  unfolding flatten_draw_deltas covered_by_flatten
  flatten-any k records g =
      pair-any (one_flatten k records) (ids_of_flatten k records) g.flatten_draws (λ e.
        pair-any (one_match_up k records e.1.0) (ids_of_match_up k records e.1.0)
          (draw_match_ups k records e.1.0 e.1.1) (match_up-any k records e.1.0))

  pub results-any :
      (k : Toolkit) (records : Records) (covered : List (Option String))
      (rs : List (String × (String × ResultMatchUp)))
      → (is_covered (result_deltas k records covered rs).1 m
          ≡ is_covered covered m || any (builds m) (result_deltas k records covered rs).0)
        × (any (deletes m) (result_deltas k records covered rs).0 ≡ false)
  unfolding result_deltas
  results-any k records covered [] = (ground arith, refl)
  results-any k records covered ((id, (t, x)) ∷ rest) =
      elim (Bool-cases (is_covered covered x.match_up_id)) [
        | inl e ↦ rw e (results-any k records covered rest)
        | inr e ↦
            let tail =
              results-any k records (field (result_row k records t x) "match_up_id" ∷ covered)
                rest in
            rw e (ground (arith, tail), tail.1)
      ]

  deletions-spare :
      (covered : List (Option String)) (ids : List (String × String))
      → is_covered covered m ≡ true
      → any (deletes m) (flat_map (one_delete_match_up covered) ids) ≡ false
  deletions-spare covered [] c = refl
  deletions-spare covered ((id, t) ∷ ids) c = elim (Bool-cases (is_covered covered id)) [
    | inl e ↦ rw e (deletions-spare covered ids c)
    | inr e ↦ rw e (ground (arith, c, e, eq_iff id m, deletions-spare covered ids c))
  ]

  none-deletes :
      {A : Type 0} (f : A → List ProjectionDelta) (xs : List A)
      → ((x : A) → any (deletes m) (f x) ≡ false)
      → any (deletes m) (flat_map f xs) ≡ false
  none-deletes f [] h = refl
  none-deletes f (x ∷ xs) h =
      any-append (deletes m) (f x) (flat_map f xs) ∙ rw (h x, none-deletes f xs h) refl

  participants-spare :
      (t : String) (ids : List String) → any (deletes m) (one_delete_participants (t, ids)) ≡ false
  participants-spare t [] = refl
  participants-spare t (i ∷ ids) = participants-spare t ids

  pub delete_deltas-spare :
      (covered : List (Option String)) (g : Grouped)
      → is_covered covered m ≡ true
      → any (deletes m) (delete_deltas covered g) ≡ false
  unfolding delete_deltas
  delete_deltas-spare covered g c = simp (
    any-append,
    none-deletes one_delete_venue g.delete_venues (λ e. refl),
    none-deletes one_delete_draw g.delete_draws (λ e. refl),
    deletions-spare covered g.delete_match_ups c,
    none-deletes one_delete_event g.delete_events (λ e. refl),
    none-deletes one_delete_participants g.delete_participants (λ e. participants-spare e.0 e.1),
  )

  none-builds :
      {A : Type 0} (f : A → List ProjectionDelta) (xs : List A)
      → ((x : A) → any (builds m) (f x) ≡ false)
      → any (builds m) (flat_map f xs) ≡ false
  none-builds f [] h = refl
  none-builds f (x ∷ xs) h =
      any-append (builds m) (f x) (flat_map f xs) ∙ rw (h x, none-builds f xs h) refl

  participants-build_none :
      (t : String) (ids : List String) → any (builds m) (one_delete_participants (t, ids)) ≡ false
  participants-build_none t [] = refl
  participants-build_none t (i ∷ ids) = participants-build_none t ids

  match_up-build_none :
      (covered : List (Option String)) (e : String × String)
      → any (builds m) (one_delete_match_up covered e) ≡ false
  match_up-build_none covered (id, t) = ground arith

  pub delete_deltas-build_none :
      (covered : List (Option String)) (g : Grouped)
      → any (builds m) (delete_deltas covered g) ≡ false
  unfolding delete_deltas
  delete_deltas-build_none covered g = simp (
    any-append,
    none-builds one_delete_venue g.delete_venues (λ e. refl),
    none-builds one_delete_draw g.delete_draws (λ e. refl),
    none-builds (one_delete_match_up covered) g.delete_match_ups (match_up-build_none covered),
    none-builds one_delete_event g.delete_events (λ e. refl),
    none-builds one_delete_participants g.delete_participants
        (λ e. participants-build_none e.0 e.1),
  )
