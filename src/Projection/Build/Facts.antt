-- ===== src/Projection/Build/Facts.antt =====
-- The deltas of the facts that are projected for each tournament, venue or participant.
use competition_factory_serv.Prelude.{
  String, ◌==◌, Bool, false, Option, none, some, List, [], ◌∷◌, ◌++◌, map, if◌then◌else◌, lookup,
  flat_map,
}
use competition_factory_serv.Access.Calendar.Sets.{to_set}
use competition_factory_serv.Projection.Intents.{ResultMatchUp, Venue, Court}
use competition_factory_serv.Projection.Rows.{
  Row, field, column, tournaments, tournament_discovery, events, match_up_competitors, entries,
  venues, courts, order_of_play, scheduling_profile, participant_publish, tournament_venues, Event,
  Records, Published, Toolkit, ProjectionDelta, upsert, del, update,
}
use competition_factory_serv.Projection.Group.{Grouped}
use competition_factory_serv.Projection.Build.Draws.{provider_id_of, with_record}

abbrev by_tournament : String → Row
by_tournament t = ("tournament_id", some t) ∷ []

-- The ids of the grouped intents, in the order of the set's construction.
abbrev pub id_lists : Grouped → List (List String)
id_lists g =
    g.touched
    ∷ g.participants
    ∷ g.events
    ∷ g.order_of_play
    ∷ g.participant_publish
    ∷ map (λ (e : String × String). e.1) g.draws
    ∷ map (λ (e : String × String). e.1) g.seeds
    ∷ map (λ (e : String × String). e.1) g.delete_match_ups
    ∷ map (λ (e : String × String). e.1) g.delete_events
    ∷ map (λ (e : String × String). e.0) g.scheduling_profiles
    ∷ map (λ (e : String × (String × String)). e.1.0) g.flatten_draws
    ∷ map (λ (e : String × (String × ResultMatchUp)). e.1.0) g.match_up_results
    ∷ map (λ (e : String × (String × Venue)). e.1.0) g.venues
    ∷ map (λ (e : String × (String × (String × String))). e.1.0) g.claims
    ∷ map (λ (e : String × (String × (String × Option String))). e.1.0) g.participant_names
    ∷ map (λ (e : String × String). e.0) g.delete_venues
    ∷ map (λ (e : String × String). e.0) g.delete_draws
    ∷ map (λ (e : String × List String). e.0) g.delete_participants
    ∷ []

abbrev pub concat : List (List String) → List String
concat [] = []
concat (l ∷ ls) = l ++ concat ls

unfoldable pub discovery_ids : Grouped → List String
discovery_ids g = to_set (concat (id_lists g))

module _ (k : Toolkit) (records : Records) where
  abbrev pub one_discovery : String → List ProjectionDelta
  one_discovery t =
      with_record
        (λ r.
          upsert t tournament_discovery (by_tournament t) (k.tournament_discovery_row r) "discovery"
          ∷ [])
        (lookup records t)

  unfoldable pub discovery_deltas : Grouped → List ProjectionDelta
  unfolding discovery_ids
  discovery_deltas g = flat_map one_discovery (discovery_ids g)

  abbrev pub one_tournament : String → List ProjectionDelta
  one_tournament t =
      with_record
        (λ r. upsert t tournaments (by_tournament t) (k.tournament_row r) "touchTournament" ∷ [])
        (lookup records t)

  unfoldable pub tournament_deltas : Grouped → List ProjectionDelta
  tournament_deltas g = flat_map one_tournament g.touched

  abbrev event_row_of : String → Event → Row
  event_row_of t e =
      k.event_row e t (provider_id_of records t) (k.is_event_published (k.event_publish_status e))

  abbrev pub one_event : String → Event → List ProjectionDelta
  one_event t e =
      if e.event_id == ""
      then []
      else upsert t events (column "event_id" (event_row_of t e) ∷ []) (event_row_of t e) "events"
        ∷ []

  abbrev pub one_events : String → List ProjectionDelta
  one_events t = with_record (λ r. flat_map (one_event t) r.events) (lookup records t)

  unfoldable pub event_deltas : Grouped → List ProjectionDelta
  event_deltas g = flat_map one_events g.events

  abbrev pub is_published : Option Published → Bool
  is_published none = false
  is_published (some p) = p.published

  abbrev pub order_of_play_delta : String → Option Published → ProjectionDelta
  order_of_play_delta t none = del t order_of_play (by_tournament t) "orderOfPlay"
  order_of_play_delta t (some p) =
      if p.published
      then upsert t order_of_play (by_tournament t) (k.order_of_play_row t p) "orderOfPlay"
      else del t order_of_play (by_tournament t) "orderOfPlay"

  abbrev pub one_order_of_play : String → List ProjectionDelta
  one_order_of_play t =
      with_record (λ r. order_of_play_delta t (k.order_of_play_status r) ∷ []) (lookup records t)

  unfoldable pub order_of_play_deltas : Grouped → List ProjectionDelta
  order_of_play_deltas g = flat_map one_order_of_play g.order_of_play

  abbrev pub participant_publish_delta : String → Option Published → ProjectionDelta
  participant_publish_delta t none =
      del t participant_publish (by_tournament t) "participantPublish"
  participant_publish_delta t (some p) =
      if p.published
      then upsert t participant_publish (by_tournament t) (k.participant_publish_row t p)
          "participantPublish"
      else del t participant_publish (by_tournament t) "participantPublish"

  abbrev pub one_participant_publish : String → List ProjectionDelta
  one_participant_publish t =
      with_record (λ r. participant_publish_delta t (k.participants_status r) ∷ [])
        (lookup records t)

  unfoldable pub participant_publish_deltas : Grouped → List ProjectionDelta
  participant_publish_deltas g = flat_map one_participant_publish g.participant_publish

  abbrev pub entry_upsert : String → Row → List ProjectionDelta
  entry_upsert t r =
      upsert t entries
        (column "tournament_id" r ∷ column "event_id" r ∷ column "participant_id" r ∷ []) r
        "participants"
      ∷ []

  abbrev pub one_entries : String → List ProjectionDelta
  one_entries t =
      del t entries (by_tournament t) "participants"
      ∷ flat_map (entry_upsert t) (k.entry_rows (lookup records t))

  unfoldable pub entry_deltas : Grouped → List ProjectionDelta
  entry_deltas g = flat_map one_entries g.participants

  abbrev pub court_upsert : String → Option String → Court → List ProjectionDelta
  court_upsert t venue_id c =
      if c.court_id == ""
      then []
      else let row = k.court_row c venue_id t (provider_id_of records t) in
        upsert t courts (column "court_id" row ∷ []) row "venue" ∷ []

  abbrev pub one_venue : String × (String × Venue) → List ProjectionDelta
  one_venue (id, (t, v)) =
      let row = k.venue_row v in
      let link : Row = ("tournament_id", some t) ∷ column "venue_id" row ∷ [] in
      upsert t venues (column "venue_id" row ∷ []) row "venue"
      ∷ upsert t tournament_venues link link "venue"
      ∷ del t courts link "venue"
      ∷ flat_map (court_upsert t (field row "venue_id")) v.courts

  unfoldable pub venue_deltas : Grouped → List ProjectionDelta
  venue_deltas g = flat_map one_venue g.venues

module _ (k : Toolkit) where
  abbrev pub profile_upsert : String → Row → List ProjectionDelta
  profile_upsert t r =
      upsert t scheduling_profile
        (column "tournament_id" r
          ∷ column "schedule_date" r
          ∷ column "venue_id" r
          ∷ column "round_order" r
          ∷ [])
        r "schedulingProfile"
      ∷ []

  abbrev pub one_profile : String × String → List ProjectionDelta
  one_profile (t, profile) =
      del t scheduling_profile (by_tournament t) "schedulingProfile"
      ∷ flat_map (profile_upsert t) (k.scheduling_profile_rows t profile)

  unfoldable pub scheduling_profile_deltas : Grouped → List ProjectionDelta
  scheduling_profile_deltas g = flat_map one_profile g.scheduling_profiles

  abbrev pub one_name : String × (String × (String × Option String)) → List ProjectionDelta
  one_name (key, (t, (p, name))) =
      update t match_up_competitors
        (("tournament_id", some t) ∷ ("individual_participant_id", some p) ∷ [])
        (("participant_name", name) ∷ []) "participants"
      ∷ update t match_up_competitors
          (("tournament_id", some t)
            ∷ ("side_participant_id", some p)
            ∷ ("participant_type", some k.team_participant)
            ∷ [])
          (("participant_name", name) ∷ []) "participants"
      ∷ []

  unfoldable pub participant_name_deltas : Grouped → List ProjectionDelta
  participant_name_deltas g = flat_map one_name g.participant_names

abbrev pub one_claim : String × (String × (String × String)) → List ProjectionDelta
one_claim (key, (t, (p, person))) =
    update t match_up_competitors
      (("tournament_id", some t) ∷ ("individual_participant_id", some p) ∷ [])
      (("person_id", some person) ∷ ("link_source", some "canonical") ∷ []) "claimPerson"
    ∷ update t entries (("tournament_id", some t) ∷ ("participant_id", some p) ∷ [])
        (("person_id", some person) ∷ []) "claimPerson"
    ∷ []

unfoldable pub claim_deltas : Grouped → List ProjectionDelta
claim_deltas g = flat_map one_claim g.claims
