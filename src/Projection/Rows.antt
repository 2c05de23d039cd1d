-- ===== src/Projection/Rows.antt =====
-- The deltas of the read model, the tournament record as
-- src/modules/factory/projection/buildProjectionDeltas.ts reads it, and, as a parameter, what that file
-- takes from the package tods-competition-factory: the builders of rows and the publish states. The
-- flatten of a draw is a parameter of the file itself. A row's value that is null is none.
use competition_factory_serv.Prelude.{String, Bool, Option, none, some, List, lookup}
use competition_factory_serv.Projection.Intents.{ResultMatchUp, Venue, Court}

pub data Table : Type 0 where
  tournaments tournament_discovery events draws structures seeds match_ups : Table
  match_up_competitors entries venues courts order_of_play scheduling_profile : Table
  participant_publish tournament_venues : Table

pub data Op : Type 0 where
  upsert_op delete_op update_op : Op

abbrev pub Row : Type 0
Row = List (String × Option String)

pub record ProjectionDelta : Type 0 where
  pub tournament_id : String
  pub op : Op
  pub table : Table
  pub key : Row
  pub row : Option Row
  pub topic : String

abbrev joined : Option (Option String) → Option String
joined none = none
joined (some v) = v

abbrev pub field : Row → String → Option String
field r name = joined (lookup r name)

abbrev pub column : String → Row → String × Option String
column name r = (name, field r name)

pub record SeedAssignment : Type 0 where
  pub participant_id : String
  pub body : String

mutual
  pub data Structure : Type 0 where
    structure : String → List SeedAssignment → Structures → String → Structure

  pub data Structures : Type 0 where
    no_structures : Structures
    and_structure : Structure → Structures → Structures

pub record Draw : Type 0 where
  pub draw_id : String
  pub structures : Structures
  pub body : String

pub record Event : Type 0 where
  pub event_id : String
  pub draw_definitions : List Draw
  pub body : String

pub record Tournament : Type 0 where
  pub organisation_id : Option String
  pub events : List Event
  pub body : String

abbrev pub Records : Type 0
Records = List (String × Tournament)

-- A matchUp of a flatten; `round_number` is its text.
pub record FlatMatchUp : Type 0 where
  pub collection_id : String
  pub event_id : String
  pub draw_id : Option String
  pub structure_id : Option String
  pub stage : Option String
  pub round_number : Option String
  pub body : String

-- A publish state: whether it is published, and the rest.
pub record Published : Type 0 where
  pub published : Bool
  pub body : String

pub record StructureContext : Type 0 where
  pub tournament_id : String
  pub event_id : String
  pub draw_id : String
  pub provider_id : Option String
  pub parent_structure_id : Option String

pub record SeedContext : Type 0 where
  pub tournament_id : String
  pub event_id : String
  pub draw_id : String
  pub structure_id : String
  pub provider_id : Option String

pub record MatchUpRowContext : Type 0 where
  pub tournament_id : String
  pub provider_id : Option String
  pub published : Published

pub record Toolkit : Type 0 where
  pub team_participant : String
  pub flatten_draw : String → String → List FlatMatchUp
  pub tournament_row : Tournament → Row
  pub tournament_discovery_row : Tournament → Row
  pub event_row : Event → String → Option String → Bool → Row
  pub event_publish_status : Event → String
  pub is_event_published : String → Bool
  pub draw_row : Draw → String → String → Option String → Row
  pub structure_row : Structure → StructureContext → Row
  pub seed_row : SeedAssignment → SeedContext → Row
  pub order_of_play_status : Tournament → Option Published
  pub order_of_play_row : String → Published → Row
  pub participants_status : Tournament → Option Published
  pub participant_publish_row : String → Published → Row
  pub scheduling_profile_rows : String → String → List Row
  pub entry_rows : Option Tournament → List Row
  pub venue_row : Venue → Row
  pub court_row : Court → Option String → String → Option String → Row
  pub apply_progression_edges : Draw → List FlatMatchUp → List FlatMatchUp
  pub resolve_match_up_publish_state : Option String → FlatMatchUp → Published
  pub match_up_row_set : FlatMatchUp → MatchUpRowContext → List Row × List Row
  pub match_up_result_row : ResultMatchUp → String → Option String → Row

abbrev pub upsert : String → Table → Row → Row → String → ProjectionDelta
upsert t table key row topic = record {
  tournament_id = t;
  op = upsert_op;
  table = table;
  key = key;
  row = some row;
  topic = topic;
}

abbrev pub del : String → Table → Row → String → ProjectionDelta
del t table key topic = record {
  tournament_id = t;
  op = delete_op;
  table = table;
  key = key;
  row = none;
  topic = topic;
}

abbrev pub update : String → Table → Row → Row → String → ProjectionDelta
update t table key row topic = record {
  tournament_id = t;
  op = update_op;
  table = table;
  key = key;
  row = some row;
  topic = topic;
}
