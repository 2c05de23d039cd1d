-- ===== src/Projection/Build/Covered.antt =====
-- The matchUps that a batch builds, and the deletions at its end.
use competition_factory_serv.Prelude.{
  String, ◌≡◌, refl, sym, ◌∙◌, inl, inr, Bool, true, false, ◌||◌, List, [], ◌∷◌, All, All-map, any,
  any-append, includes, lookup, Option-cases, flat_map,
}
use competition_factory_serv.Projection.Intents.{ProjectionIntent}
use competition_factory_serv.Projection.Rows.{Records, Toolkit, ProjectionDelta}
use competition_factory_serv.Projection.Group.{Grouped, group}
use competition_factory_serv.Projection.Build.{
  results_of, after_discovery, deltas_of, build_projection_deltas,
}
use competition_factory_serv.Projection.Build.Facts.{one_discovery, discovery_deltas, discovery_ids}
use competition_factory_serv.Projection.Build.Matches.{
  is_covered, covered_by_flatten, delete_deltas,
}
use competition_factory_serv.Projection.Build.Laws
use competition_factory_serv.Projection.Build.Ids.{discovery_ids-IsNamed}
use competition_factory_serv.Projection.Build.Deletions.{
  builds, deletes, Elsewhere, builds-Elsewhere, deletes-Elsewhere, flatten-any, results-any,
  delete_deltas-spare, delete_deltas-build_none,
}

or_false : (b : Bool) → b || false ≡ b
or_false true = refl
or_false false = refl

module _ (m : String) where
  discovery-Elsewhere :
      (k : Toolkit) (records : Records) (us : List String)
      → All (Elsewhere m) (flat_map (one_discovery k records) us)
  discovery-Elsewhere k records [] = tt
  discovery-Elsewhere k records (u ∷ us) = elim (Option-cases (lookup records u)) [
    | inl n ↦ rw n (discovery-Elsewhere k records us)
    | inr (s, n) ↦ rw n (refl, discovery-Elsewhere k records us)
  ]

  module _ (k : Toolkit) (records : Records) (g : Grouped) where
    elsewhere-any :
        (ds : List ProjectionDelta)
        → All (Laws.Plain (λ t. includes (discovery_ids g) t ≡ true)) ds
        → (any (builds m) ds ≡ false) × (any (deletes m) ds ≡ false)
    elsewhere-any ds h =
        let e : All (Elsewhere m) ds = All-map ds (λ d p. p.2) h in
        (builds-Elsewhere m ds e, deletes-Elsewhere m ds e)

    -- What a batch builds is what is covered at its end; what it deletes is in the deletions.
    deltas_of-any :
        (any (builds m) (deltas_of k records g) ≡ is_covered (results_of k records g).1 m)
        × (any (deletes m) (deltas_of k records g)
            ≡ any (deletes m) (delete_deltas (results_of k records g).1 g))
    unfolding deltas_of after_discovery discovery_deltas
    deltas_of-any =
        let n = discovery_ids-IsNamed g in
        let discovery = discovery-Elsewhere k records (discovery_ids g) in
        let tournaments = elsewhere-any _ (Laws.tournament_deltas-Plain _ k records g n) in
        let events = elsewhere-any _ (Laws.event_deltas-Plain _ k records g n) in
        let draws = elsewhere-any _ (Laws.draw_deltas-Plain _ k records g n) in
        let seeds = elsewhere-any _ (Laws.seed_deltas-Plain _ k records g n) in
        let orders = elsewhere-any _ (Laws.order_of_play_deltas-Plain _ k records g n) in
        let profiles = elsewhere-any _ (Laws.scheduling_profile_deltas-Plain _ k g n) in
        let publishes = elsewhere-any _ (Laws.participant_publish_deltas-Plain _ k records g n) in
        let venues = elsewhere-any _ (Laws.venue_deltas-Plain _ k records g n) in
        let entries = elsewhere-any _ (Laws.entry_deltas-Plain _ k records g n) in
        let claims = elsewhere-any _ (Laws.claim_deltas-Plain _ g n) in
        let names = elsewhere-any _ (Laws.participant_name_deltas-Plain _ k g n) in
        let flattened = flatten-any m k records g in
        let results = results-any m k records (covered_by_flatten k records g) g.match_up_results in
        let deletions = delete_deltas-build_none m (results_of k records g).1 g in
        (
          simp (
            any-append,
            tournaments.0,
            builds-Elsewhere m _ discovery,
            events.0,
            draws.0,
            seeds.0,
            orders.0,
            profiles.0,
            publishes.0,
            venues.0,
            entries.0,
            claims.0,
            names.0,
            flattened.0,
            deletions,
            results.0,
            or_false,
          ),
          simp (
            any-append,
            tournaments.1,
            deletes-Elsewhere m _ discovery,
            events.1,
            draws.1,
            seeds.1,
            orders.1,
            profiles.1,
            publishes.1,
            venues.1,
            entries.1,
            claims.1,
            names.1,
            flattened.1,
            results.1,
          ),
        )

-- Whatever intents a batch has: a matchUp whose row the batch builds, by the flatten of a draw or from
-- a result, is not deleted by its id in the same batch.
pub build_projection_deltas-spare :
    (k : Toolkit) (records : Records) (intents : List ProjectionIntent) (m : String)
    → any (builds m) (build_projection_deltas k records intents) ≡ true
    → any (deletes m) (build_projection_deltas k records intents) ≡ false
unfolding build_projection_deltas
build_projection_deltas-spare k records intents m b =
    let g = group intents records in
    let both = deltas_of-any m k records g in
    both.1 ∙ delete_deltas-spare m (results_of k records g).1 g (sym both.0 ∙ b)
