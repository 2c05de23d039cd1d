-- ===== src/Projection/Build/Matches.antt =====
-- The deltas of matchUps, and the deletions, which come last. `covered` is the set of the ids of the
-- matchUps whose rows are built.
use competition_factory_serv.Prelude.{
  String, ◌==◌, Bool, Option, none, some, List, [], ◌∷◌, ◌++◌, map, if◌then◌else◌, lookup, find,
  first_some, any, is_text, flat_map,
}
use competition_factory_serv.Projection.Intents.{ResultMatchUp}
use competition_factory_serv.Projection.Rows.{
  Row, field, column, events, draws, seeds, match_ups, match_up_competitors, entries,
  tournament_venues, Draw, Event, Records, FlatMatchUp, Toolkit, ProjectionDelta, upsert, del,
}
use competition_factory_serv.Projection.Group.{Grouped, events_of}
use competition_factory_serv.Projection.Build.Draws.{provider_id_of}

abbrev pub is_covered : List (Option String) → String → Bool
is_covered covered id = any (λ c. is_text c id) covered

abbrev pub match_up_upsert : String → String → Row → ProjectionDelta
match_up_upsert topic t r = upsert t match_ups (column "match_up_id" r ∷ []) r topic

module _ (k : Toolkit) (records : Records) where
  abbrev draw_definition : String → String → Option Draw
  draw_definition t id =
      first_some (λ (e : Event). find (λ (d : Draw). d.draw_id == id) e.draw_definitions)
        (events_of (lookup records t))

  abbrev with_edges : Option Draw → List FlatMatchUp → List FlatMatchUp
  with_edges none ms = ms
  with_edges (some d) ms = k.apply_progression_edges d ms

  abbrev status_found : Option Event → Option String
  status_found none = none
  status_found (some e) = some (k.event_publish_status e)

  abbrev event_publish_status : String → String → Option String
  event_publish_status t event_id =
      if event_id == ""
      then none
      else status_found
          (find (λ (e : Event). e.event_id == event_id) (events_of (lookup records t)))

  abbrev pub rows_of : String → FlatMatchUp → List Row × List Row
  rows_of t m = k.match_up_row_set m (record {
    tournament_id = t;
    provider_id = provider_id_of records t;
    published = k.resolve_match_up_publish_state (event_publish_status t m.event_id) m;
  })

  abbrev pub competitor_upsert : String → Row → ProjectionDelta
  competitor_upsert t r =
      upsert t match_up_competitors
        (column "match_up_id" r ∷ column "side_number" r ∷ column "competitor_index" r ∷ []) r
        "flattenDraw"

  -- A rubber of a collection is projected with its team matchUp.
  abbrev pub one_match_up : String → FlatMatchUp → List ProjectionDelta
  one_match_up t m =
      if m.collection_id == ""
      then map (match_up_upsert "flattenDraw" t) (rows_of t m).0
        ++ map (competitor_upsert t) (rows_of t m).1
      else []

  abbrev pub ids_of_match_up : String → FlatMatchUp → List (Option String)
  ids_of_match_up t m =
      if m.collection_id == "" then map (λ r. field r "match_up_id") (rows_of t m).0 else []

  unfoldable pub draw_match_ups : String → String → List FlatMatchUp
  draw_match_ups t d = with_edges (draw_definition t d) (k.flatten_draw t d)

  abbrev pub one_flatten : String × (String × String) → List ProjectionDelta
  one_flatten (key, (t, d)) = flat_map (one_match_up t) (draw_match_ups t d)

  abbrev pub ids_of_flatten : String × (String × String) → List (Option String)
  ids_of_flatten (key, (t, d)) = flat_map (ids_of_match_up t) (draw_match_ups t d)

  unfoldable pub flatten_draw_deltas : Grouped → List ProjectionDelta
  unfolding draw_match_ups
  flatten_draw_deltas g = flat_map one_flatten g.flatten_draws

  unfoldable pub covered_by_flatten : Grouped → List (Option String)
  unfolding draw_match_ups
  covered_by_flatten g = flat_map ids_of_flatten g.flatten_draws

  abbrev pub result_row : String → ResultMatchUp → Row
  result_row t m = k.match_up_result_row m t (provider_id_of records t)

  -- The deltas of the results that no flatten has built, and what is covered then.
  unfoldable pub result_deltas :
      List (Option String)
      → List (String × (String × ResultMatchUp))
      → List ProjectionDelta × List (Option String)
  result_deltas covered [] = ([], covered)
  result_deltas covered ((id, (t, m)) ∷ rest) =
      let skipped = result_deltas covered rest in
      let tail = result_deltas (field (result_row t m) "match_up_id" ∷ covered) rest in
      if is_covered covered m.match_up_id
      then skipped
      else (match_up_upsert "modifyMatchUp" t (result_row t m) ∷ tail.0, tail.1)

abbrev pub one_delete_venue : String × String → List ProjectionDelta
one_delete_venue (t, v) =
    del t tournament_venues (("tournament_id", some t) ∷ ("venue_id", some v) ∷ []) "deleteVenue"
    ∷ []

abbrev by_draw : String → String → Row
by_draw t d = ("tournament_id", some t) ∷ ("draw_id", some d) ∷ []

abbrev pub one_delete_draw : String × String → List ProjectionDelta
one_delete_draw (t, d) =
    del t match_ups (by_draw t d) "deleteDraw"
    ∷ del t seeds (by_draw t d) "deleteDraw"
    ∷ del t draws (by_draw t d) "deleteDraw"
    ∷ []

abbrev pub one_delete_match_up : List (Option String) → String × String → List ProjectionDelta
one_delete_match_up covered (id, t) =
    if is_covered covered id
    then []
    else del t match_ups (("tournament_id", some t) ∷ ("match_up_id", some id) ∷ [])
        "deletedMatchUpIds"
      ∷ []

abbrev by_event : String → String → Row
by_event t e = ("tournament_id", some t) ∷ ("event_id", some e) ∷ []

abbrev pub one_delete_event : String × String → List ProjectionDelta
one_delete_event (e, t) =
    del t events (by_event t e) "deleteEvent"
    ∷ del t match_ups (by_event t e) "deleteEvent"
    ∷ del t entries (by_event t e) "deleteEvent"
    ∷ del t seeds (by_event t e) "deleteEvent"
    ∷ del t draws (by_event t e) "deleteEvent"
    ∷ []

abbrev pub participant_delete : String → String → List ProjectionDelta
participant_delete t p =
    del t entries (("tournament_id", some t) ∷ ("participant_id", some p) ∷ []) "deleteParticipants"
    ∷ []

abbrev pub one_delete_participants : String × List String → List ProjectionDelta
one_delete_participants (t, ids) = flat_map (participant_delete t) ids

unfoldable pub delete_deltas : List (Option String) → Grouped → List ProjectionDelta
delete_deltas covered g =
    flat_map one_delete_venue g.delete_venues
    ++ (flat_map one_delete_draw g.delete_draws
        ++ (flat_map (one_delete_match_up covered) g.delete_match_ups
            ++ (flat_map one_delete_event g.delete_events
                ++ flat_map one_delete_participants g.delete_participants)))
