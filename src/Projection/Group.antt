-- ===== src/Projection/Group.antt =====
-- `group` of src/modules/factory/projection/buildProjectionDeltas.ts: the intents, each kind under its
-- key, the last one for a key taking the place of the first.
use Prim.Native.String
pub mod Named
use competition_factory_serv.Prelude.{
  String, ◌==◌, Bool, not, Option, none, some, List, [], ◌∷◌, ◌++◌, map, if◌then◌else◌, filter,
  find, lookup, insert,
}
use competition_factory_serv.Access.Calendar.Sets.{set_add}
use competition_factory_serv.Projection.Intents.{
  ResultMatchUp, Venue, ProjectionIntent, flatten_draw, republish_event, draw, seeds, delete_venue,
  delete_draw, delete_event, touch_tournament, participants, entries, events, order_of_play,
  participant_publish, match_up_result, claim_person, participant_name, scheduling_profile, venue,
  delete_match_ups, delete_participants,
}
use competition_factory_serv.Projection.Rows.{Event, Draw, Tournament, Records}

-- Each value has its tournament's id first.
pub record Grouped : Type 0 where
  pub flatten_draws : List (String × (String × String))
  pub touched : List String
  pub participants : List String
  pub events : List String
  pub draws : List (String × String)
  pub seeds : List (String × String)
  pub order_of_play : List String
  pub scheduling_profiles : List (String × String)
  pub participant_publish : List String
  pub match_up_results : List (String × (String × ResultMatchUp))
  pub venues : List (String × (String × Venue))
  pub delete_venues : List (String × String)
  pub delete_draws : List (String × String)
  pub delete_match_ups : List (String × String)
  pub delete_events : List (String × String)
  pub delete_participants : List (String × List String)
  pub claims : List (String × (String × (String × String)))
  pub participant_names : List (String × (String × (String × Option String)))

abbrev pub draw_key : String → String → String
draw_key t id = String.◌++◌ t (String.◌++◌ "::" id)

abbrev draw_ids : Option Event → List String
draw_ids none = []
draw_ids (some e) = filter (λ i. not (i == "")) (map (λ (d : Draw). d.draw_id) e.draw_definitions)

abbrev pub events_of : Option Tournament → List Event
events_of none = []
events_of (some t) = t.events

abbrev pub event_draw_ids : Records → String → String → List String
event_draw_ids records t event_id =
    draw_ids (find (λ (e : Event). e.event_id == event_id) (events_of (lookup records t)))

abbrev pub insert_draws :
    List (String × (String × String)) → String → List String → List (String × (String × String))
insert_draws m t [] = m
insert_draws m t (d ∷ ds) = insert_draws (insert m (draw_key t d) (t, d)) t ds

abbrev pub insert_all : List (String × String) → List String → String → List (String × String)
insert_all m [] t = m
insert_all m (i ∷ is) t = insert_all (insert m i t) is t

module _ (records : Records) where
  -- The body of the loop.
  unfoldable pub add_intent : Grouped → ProjectionIntent → Grouped
  add_intent g (flatten_draw t d) = record g {
    flatten_draws = insert g.flatten_draws (draw_key t d) (t, d);
    touched = set_add g.touched t;
  }
  add_intent g (republish_event t e) = record g {
    flatten_draws = insert_draws g.flatten_draws t (event_draw_ids records t e);
    touched = set_add g.touched t;
  }
  add_intent g (match_up_result t m) = record g {
    match_up_results = insert g.match_up_results m.match_up_id (t, m);
  }
  add_intent g (touch_tournament t) = record g { touched = set_add g.touched t }
  add_intent g (participants t) = record g {
    participants = set_add g.participants t;
    touched = set_add g.touched t;
  }
  add_intent g (entries t) = record g { participants = set_add g.participants t }
  add_intent g (events t) = record g { events = set_add g.events t }
  add_intent g (draw t d) = record g { draws = insert g.draws d t }
  add_intent g (seeds t s) = record g { seeds = insert g.seeds s t }
  add_intent g (order_of_play t) = record g { order_of_play = set_add g.order_of_play t }
  add_intent g (scheduling_profile t p) = record g {
    scheduling_profiles = insert g.scheduling_profiles t p;
  }
  add_intent g (participant_publish t) = record g {
    participant_publish = set_add g.participant_publish t;
  }
  add_intent g (venue t v) = record g {
    venues = insert g.venues v.venue_id (t, v);
    touched = set_add g.touched t;
  }
  add_intent g (delete_venue t v) = record g { delete_venues = g.delete_venues ++ (t, v) ∷ [] }
  add_intent g (delete_draw t d) = record g { delete_draws = g.delete_draws ++ (t, d) ∷ [] }
  add_intent g (delete_match_ups t ids) = record g {
    delete_match_ups = insert_all g.delete_match_ups ids t;
  }
  add_intent g (delete_event t e) = record g { delete_events = insert g.delete_events e t }
  add_intent g (delete_participants t ids) = record g {
    delete_participants = g.delete_participants ++ (t, ids) ∷ [];
  }
  add_intent g (claim_person t p c) = record g { claims = insert g.claims p (t, (p, c)) }
  add_intent g (participant_name t p n) = record g {
    participant_names = insert g.participant_names (draw_key t p) (t, (p, n));
  }

  unfoldable pub add_intents : Grouped → List ProjectionIntent → Grouped
  unfolding add_intent
  add_intents g [] = g
  add_intents g (i ∷ is) = add_intents (add_intent g i) is

abbrev pub no_intents : Grouped
no_intents = record {
  flatten_draws = [];
  touched = [];
  participants = [];
  events = [];
  draws = [];
  seeds = [];
  order_of_play = [];
  scheduling_profiles = [];
  participant_publish = [];
  match_up_results = [];
  venues = [];
  delete_venues = [];
  delete_draws = [];
  delete_match_ups = [];
  delete_events = [];
  delete_participants = [];
  claims = [];
  participant_names = [];
}

unfoldable pub group : List ProjectionIntent → Records → Grouped
unfolding add_intents
group intents records = add_intents records no_intents intents
