-- ===== src/Projection/Build/Others.antt =====
-- The deltas of matchUps and the deletions: their tournaments, and that none is a discovery row.
use competition_factory_serv.Prelude.{
  String, ◌==◌, refl, inl, inr, Option, List, [], ◌∷◌, ◌++◌, map, All, All-append, All-flat_map,
  Bool-cases, flat_map,
}
use competition_factory_serv.Projection.Intents.{ResultMatchUp}
use competition_factory_serv.Projection.Rows.{Row, field, Records, FlatMatchUp, Toolkit}
use competition_factory_serv.Projection.Group.{Grouped}
use competition_factory_serv.Projection.Group.Named.{IsNamed}
use competition_factory_serv.Projection.Build.Matches.{
  is_covered, one_match_up, rows_of, competitor_upsert, match_up_upsert, result_row, draw_match_ups,
  one_flatten, flatten_draw_deltas, result_deltas, one_delete_venue, one_delete_draw,
  one_delete_match_up, one_delete_event, one_delete_participants, delete_deltas,
}
use competition_factory_serv.Projection.Build.Laws.{Other}

module _ (P : String → Type 0) where
  pub delete_deltas-Other :
      (covered : List (Option String)) (g : Grouped)
      → IsNamed P g
      → All (Other P) (delete_deltas covered g)
  unfolding delete_deltas
  delete_deltas-Other covered g n =
      All-append (Other P) _ _
        (All-flat_map (λ e. P e.0) (Other P) one_delete_venue g.delete_venues
          (λ e p. ((p, refl), tt)) n.delete_venues)
        (All-append (Other P) _ _
          (All-flat_map (λ e. P e.0) (Other P) one_delete_draw g.delete_draws
            (λ e p. ((p, refl), ((p, refl), ((p, refl), tt)))) n.delete_draws)
          (All-append (Other P) _ _
            (All-flat_map (λ e. P e.1) (Other P) (one_delete_match_up covered) g.delete_match_ups
              (λ e p. removed e.0 e.1 p) n.delete_match_ups)
            (All-append (Other P) _ _
              (All-flat_map (λ e. P e.1) (Other P) one_delete_event g.delete_events
                (λ e p. ((p, refl), ((p, refl), ((p, refl), ((p, refl), ((p, refl), tt))))))
                n.delete_events)
              (All-flat_map (λ e. P e.0) (Other P) one_delete_participants g.delete_participants
                (λ e p. left e.0 p e.1) n.delete_participants))))
    where
      removed : (id t : String) → P t → All (Other P) (one_delete_match_up covered (id, t))
      removed id t p = elim (Bool-cases (is_covered covered id)) [
        | inl e ↦ rw e tt
        | inr e ↦ rw e ((p, refl), tt)
      ]

      left :
          (t : String)
          → P t
          → (ids : List String) → All (Other P) (one_delete_participants (t, ids))
      left t p [] = tt
      left t p (i ∷ ids) = ((p, refl), left t p ids)

  module _ (k : Toolkit) (records : Records) where
    upserts-Other :
        (t : String)
        → P t
        → (rows others : List Row)
        → All (Other P) (
            map (match_up_upsert "flattenDraw" t) rows
            ++ map (competitor_upsert k records t) others)
    upserts-Other t p [] [] = tt
    upserts-Other t p [] (r ∷ others) = ((p, refl), upserts-Other t p [] others)
    upserts-Other t p (r ∷ rows) others = ((p, refl), upserts-Other t p rows others)

    match_ups-Other :
        (t : String)
        → P t
        → (ms : List FlatMatchUp) → All (Other P) (flat_map (one_match_up k records t) ms)
    match_ups-Other t p [] = tt
    match_ups-Other t p (m ∷ ms) =
        All-append (Other P) (one_match_up k records t m) (flat_map (one_match_up k records t) ms)
          head (match_ups-Other t p ms)
      where
        head : All (Other P) (one_match_up k records t m)
        head = elim (Bool-cases (m.collection_id == "")) [
          | inl e ↦ rw e (upserts-Other t p (rows_of k records t m).0 (rows_of k records t m).1)
          | inr e ↦ rw e tt
        ]

    pub flatten_draw_deltas-Other :
        (g : Grouped) → IsNamed P g → All (Other P) (flatten_draw_deltas k records g)
    unfolding flatten_draw_deltas
    flatten_draw_deltas-Other g n =
        All-flat_map (λ e. P e.1.0) (Other P) (one_flatten k records) g.flatten_draws
          (λ e p. match_ups-Other e.1.0 p (draw_match_ups k records e.1.0 e.1.1)) n.flatten_draws

    pub result_deltas-Other :
        (covered : List (Option String)) (results : List (String × (String × ResultMatchUp)))
        → All (λ e. P e.1.0) results
        → All (Other P) (result_deltas k records covered results).0
    unfolding result_deltas
    result_deltas-Other covered [] h = tt
    result_deltas-Other covered ((id, (t, m)) ∷ rest) (p, h) =
        elim (Bool-cases (is_covered covered m.match_up_id)) [
          | inl e ↦ rw e (result_deltas-Other covered rest h)
          | inr e ↦ rw e (
            (p, refl),
            result_deltas-Other (field (result_row k records t m) "match_up_id" ∷ covered) rest h,
          )
        ]
