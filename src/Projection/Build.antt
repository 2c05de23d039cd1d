-- ===== src/Projection/Build.antt =====
-- buildProjectionDeltas of src/modules/factory/projection/buildProjectionDeltas.ts. The cache of the
-- events' publish states holds what the state is anyway, and is left out; so is the record's own row
-- of a flatten that the package mutates, whose result is that of `apply_progression_edges`.
pub mod Draws
pub mod Facts
pub mod Matches
pub mod Laws
pub mod Others
pub mod Once
pub mod Ids
pub mod Discovered
pub mod Deletions
pub mod Covered
use competition_factory_serv.Prelude.{String, Option, List, ◌++◌}
use competition_factory_serv.Projection.Intents.{ProjectionIntent}
use competition_factory_serv.Projection.Rows.{ProjectionDelta, Records, Toolkit}
use competition_factory_serv.Projection.Group.{Grouped, group}
use competition_factory_serv.Projection.Build.Draws.{draw_deltas, seed_deltas}
use competition_factory_serv.Projection.Build.Facts.{
  tournament_deltas, discovery_deltas, event_deltas, order_of_play_deltas,
  participant_publish_deltas, scheduling_profile_deltas, entry_deltas, venue_deltas, claim_deltas,
  participant_name_deltas,
}
use competition_factory_serv.Projection.Build.Matches.{
  flatten_draw_deltas, covered_by_flatten, result_deltas, delete_deltas,
}

module _ (k : Toolkit) (records : Records) where
  abbrev pub results_of : Grouped → List ProjectionDelta × List (Option String)
  results_of g = result_deltas k records (covered_by_flatten k records g) g.match_up_results

  -- What follows the rows of the tournaments.
  unfoldable pub after_discovery : Grouped → List ProjectionDelta
  after_discovery g =
      event_deltas k records g
      ++ (draw_deltas k g records
          ++ (seed_deltas k g records
              ++ (order_of_play_deltas k records g
                  ++ (scheduling_profile_deltas k g
                      ++ (participant_publish_deltas k records g
                          ++ (venue_deltas k records g
                              ++ (flatten_draw_deltas k records g
                                  ++ ((results_of g).0
                                      ++ (entry_deltas k records g
                                          ++ (claim_deltas g
                                              ++ (participant_name_deltas k g
                                                  ++ delete_deltas (results_of g).1 g)))))))))))

  unfoldable pub deltas_of : Grouped → List ProjectionDelta
  unfolding after_discovery
  deltas_of g = tournament_deltas k records g ++ (discovery_deltas k records g ++ after_discovery g)

  unfoldable pub build_projection_deltas : List ProjectionIntent → List ProjectionDelta
  unfolding deltas_of
  build_projection_deltas intents = deltas_of (group intents records)
