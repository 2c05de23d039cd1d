-- ===== src/Projection/Tests.antt =====
-- One tournament with an event, its draw and two matchUps, of which one is built and one is deleted.
use competition_factory_serv.Prelude.{
  String, ◌==◌, ◌≡◌, refl, true, false, none, some, List, [], ◌∷◌, All, any,
}
use competition_factory_serv.Access.Calendar.Sets.{set_add, to_set}
use competition_factory_serv.Projection.Intents.{
  ProjectionIntent, flatten_draw, match_up_result, delete_match_ups, touch_tournament,
}
use competition_factory_serv.Projection.Recorders.{Item}
use competition_factory_serv.Projection.Recorders.Calls.{
  Recording, touch_items, delete_match_up_items, result_items, record_into, create_delta_buffer,
}
use competition_factory_serv.Projection.Rows.{
  Row, no_structures, Tournament, Records, Toolkit, upsert, del, tournaments, tournament_discovery,
  match_ups,
}
use competition_factory_serv.Projection.Group.{group}
use competition_factory_serv.Projection.Build.{build_projection_deltas}
use competition_factory_serv.Projection.Build.Draws.{draw_deltas, seed_deltas}
use competition_factory_serv.Projection.Build.Facts.{
  tournament_deltas, discovery_deltas, event_deltas, order_of_play_deltas,
  participant_publish_deltas, scheduling_profile_deltas, entry_deltas, venue_deltas, claim_deltas,
  participant_name_deltas,
}
use competition_factory_serv.Projection.Build.Matches.{
  flatten_draw_deltas, covered_by_flatten, result_deltas, delete_deltas,
}
use competition_factory_serv.Projection.Build.Discovered.{
  count, discovers, build_projection_deltas-discovered,
}
use competition_factory_serv.Projection.Build.Deletions.{deletes}
use competition_factory_serv.Projection.Build.Covered.{build_projection_deltas-spare}
use competition_factory_serv.Projection.Scope.{InScope, build_projection_deltas-InScope}

abbrev id_row : String → String → Row
id_row name id = (name, some id) ∷ []

abbrev toolkit : Toolkit
toolkit = record {
  team_participant = "TEAM";
  flatten_draw = λ t d.
      record {
        collection_id = "";
        event_id = "e1";
        draw_id = some d;
        structure_id = none;
        stage = none;
        round_number = none;
        body = "m1";
      }
      ∷ [];
  tournament_row = λ t. id_row "name" t.body;
  tournament_discovery_row = λ t. id_row "name" t.body;
  event_row = λ e t p b. id_row "event_id" e.event_id;
  event_publish_status = λ e. "PUBLIC";
  is_event_published = λ s. s == "PUBLIC";
  draw_row = λ d t e p. id_row "draw_id" d.draw_id;
  structure_row = λ s c. id_row "draw_id" c.draw_id;
  seed_row = λ a c. id_row "structure_id" c.structure_id;
  order_of_play_status = λ t. none;
  order_of_play_row = λ t p. id_row "tournament_id" t;
  participants_status = λ t. none;
  participant_publish_row = λ t p. id_row "tournament_id" t;
  scheduling_profile_rows = λ t p. [];
  entry_rows = λ o. [];
  venue_row = λ v. id_row "venue_id" v.venue_id;
  court_row = λ c v t p. id_row "court_id" c.court_id;
  apply_progression_edges = λ d ms. ms;
  resolve_match_up_publish_state = λ s m. record { published = true; body = "" };
  match_up_row_set = λ m c. (id_row "match_up_id" m.body ∷ [], []);
  match_up_result_row = λ m t p. id_row "match_up_id" m.match_up_id;
}

abbrev club_open : Tournament
club_open = record {
  organisation_id = some "p1";
  events =
      record {
        event_id = "e1";
        draw_definitions = record { draw_id = "d1"; structures = no_structures; body = "" } ∷ [];
        body = "";
      }
      ∷ [];
  body = "Open";
}

abbrev records : Records
records = ("t1", club_open) ∷ []

-- The draw is flattened again; of the two matchUps that were deleted, one is in it.
abbrev replacement : List ProjectionIntent
replacement = flatten_draw "t1" "d1" ∷ delete_match_ups "t1" ("m1" ∷ "m2" ∷ []) ∷ []

replacement_deltas :
    build_projection_deltas toolkit records replacement
    ≡ upsert "t1" tournaments (id_row "tournament_id" "t1") (id_row "name" "Open") "touchTournament"
      ∷ upsert "t1" tournament_discovery
          (id_row "tournament_id" "t1")
          (id_row "name" "Open")
          "discovery"
      ∷ upsert "t1" match_ups (id_row "match_up_id" "m1") (id_row "match_up_id" "m1") "flattenDraw"
      ∷ del "t1" match_ups
          (("tournament_id", some "t1") ∷ id_row "match_up_id" "m2")
          "deletedMatchUpIds"
      ∷ []
unfolding build_projection_deltas group set_add to_set draw_deltas seed_deltas tournament_deltas
    discovery_deltas event_deltas order_of_play_deltas participant_publish_deltas
    scheduling_profile_deltas entry_deltas venue_deltas claim_deltas participant_name_deltas
    flatten_draw_deltas covered_by_flatten result_deltas delete_deltas
replacement_deltas = refl

build_projection_deltas-spare_example :
    any (deletes "m1") (build_projection_deltas toolkit records replacement) ≡ false
unfolding build_projection_deltas group set_add to_set draw_deltas seed_deltas tournament_deltas
    discovery_deltas event_deltas order_of_play_deltas participant_publish_deltas
    scheduling_profile_deltas entry_deltas venue_deltas claim_deltas participant_name_deltas
    flatten_draw_deltas covered_by_flatten result_deltas delete_deltas
build_projection_deltas-spare_example =
    build_projection_deltas-spare toolkit records replacement "m1" refl

build_projection_deltas-discovered_example :
    count (discovers "t1") (build_projection_deltas toolkit records replacement) ≡ 1
unfolding build_projection_deltas group set_add to_set draw_deltas seed_deltas tournament_deltas
    discovery_deltas event_deltas order_of_play_deltas participant_publish_deltas
    scheduling_profile_deltas entry_deltas venue_deltas claim_deltas participant_name_deltas
    flatten_draw_deltas covered_by_flatten result_deltas delete_deltas
build_projection_deltas-discovered_example =
    build_projection_deltas-discovered toolkit records replacement "t1" club_open refl refl

-- The item names no tournament: the mutation has only one.
abbrev item : Item
item = record {
  tournament_id = "";
  event_id = "";
  draw_id = "";
  structure_id = "";
  venue_id = "";
  draw_definition_id = none;
  match_up_draw_ids = [];
  match_up = some (record { match_up_id = "m2"; body = "6-0" });
  venue = none;
  participants = [];
  scheduling_profile = "";
  match_up_ids = "m1" ∷ [];
  participant_ids = [];
  event_ids = [];
  detail = [];
}

abbrev recordings : List Recording
recordings =
    touch_items (item ∷ []) ∷ result_items (item ∷ []) ∷ delete_match_up_items (item ∷ []) ∷ []

recorded :
    (record_into (create_delta_buffer ("t1" ∷ [])) recordings).intents
    ≡ touch_tournament "t1"
      ∷ match_up_result "t1" (record { match_up_id = "m2"; body = "6-0" })
      ∷ delete_match_ups "t1" ("m1" ∷ [])
      ∷ []
unfolding record_into
recorded = refl

build_projection_deltas-InScope_example :
    All
      (λ d. InScope ("t1" ∷ []) recordings d.tournament_id)
      (build_projection_deltas toolkit records
        (record_into (create_delta_buffer ("t1" ∷ [])) recordings).intents)
build_projection_deltas-InScope_example =
    build_projection_deltas-InScope toolkit records ("t1" ∷ []) recordings
