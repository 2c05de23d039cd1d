-- ===== src/Projection/Intents.antt =====
-- src/modules/factory/projection/projectionTypes.ts. Of an object that the code passes on, `body` is
-- the rest, as JSON. A text that is empty stands for an absent one, where only its truth is tested.
use competition_factory_serv.Prelude.{String, Option, List}

pub record ResultMatchUp : Type 0 where
  pub match_up_id : String
  pub body : String

pub record Court : Type 0 where
  pub court_id : String
  pub body : String

pub record Venue : Type 0 where
  pub venue_id : String
  pub courts : List Court
  pub body : String

-- The first text is the tournament's id.
pub data ProjectionIntent : Type 0 where
  flatten_draw republish_event draw seeds : String → String → ProjectionIntent
  delete_venue delete_draw delete_event : String → String → ProjectionIntent
  touch_tournament participants entries events : String → ProjectionIntent
  order_of_play participant_publish : String → ProjectionIntent
  match_up_result : String → ResultMatchUp → ProjectionIntent
  claim_person : String → String → String → ProjectionIntent
  participant_name : String → String → Option String → ProjectionIntent
  scheduling_profile : String → String → ProjectionIntent
  venue : String → Venue → ProjectionIntent
  delete_match_ups delete_participants : String → List String → ProjectionIntent

pub record DeltaBuffer : Type 0 where
  pub intents : List ProjectionIntent
  pub tournament_ids : List String

abbrev pub tournament_of : ProjectionIntent → String
tournament_of (flatten_draw t d) = t
tournament_of (republish_event t e) = t
tournament_of (draw t d) = t
tournament_of (seeds t s) = t
tournament_of (delete_venue t v) = t
tournament_of (delete_draw t d) = t
tournament_of (delete_event t e) = t
tournament_of (touch_tournament t) = t
tournament_of (participants t) = t
tournament_of (entries t) = t
tournament_of (events t) = t
tournament_of (order_of_play t) = t
tournament_of (participant_publish t) = t
tournament_of (match_up_result t m) = t
tournament_of (claim_person t p c) = t
tournament_of (participant_name t p n) = t
tournament_of (scheduling_profile t p) = t
tournament_of (venue t v) = t
tournament_of (delete_match_ups t m) = t
tournament_of (delete_participants t p) = t
