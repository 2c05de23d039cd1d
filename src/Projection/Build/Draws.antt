-- ===== src/Projection/Build/Draws.antt =====
-- The deltas of draws, their structures and their seeds.
use competition_factory_serv.Prelude.{
  String, ◌==◌, Option, none, some, List, [], ◌∷◌, ◌++◌, if◌then◌else◌, lookup, first_some,
  flat_map,
}
use competition_factory_serv.Projection.Rows.{
  column, draws, structures, seeds, SeedAssignment, Structure, structure, Structures, no_structures,
  and_structure, Draw, Event, Tournament, Records, StructureContext, SeedContext, Toolkit,
  ProjectionDelta, upsert, del,
}
use competition_factory_serv.Projection.Group.{Grouped}

abbrev organisation_of : Option Tournament → Option String
organisation_of none = none
organisation_of (some t) = t.organisation_id

abbrev pub provider_id_of : Records → String → Option String
provider_id_of records t = organisation_of (lookup records t)

abbrev or_else {ℓ} : {A : Type ℓ} → Option A → Option A → Option A
or_else none b = b
or_else (some a) b = some a

-- `findNestedStructure`, of one structure and of a list.
unfoldable mutual
  pub find_here : String → Structure → Option (List SeedAssignment)
  find_here id (structure own assignments nested body) =
      let below = find_nested id nested in if own == id then some assignments else below

  pub find_nested : String → Structures → Option (List SeedAssignment)
  find_nested id no_structures = none
  find_nested id (and_structure s rest) = or_else (find_here id s) (find_nested id rest)

pub record FoundSeeds : Type 0 where
  pub event_id : String
  pub draw_id : String
  pub seed_assignments : List SeedAssignment

abbrev seeds_in : String → String → Option (List SeedAssignment) → Option FoundSeeds
seeds_in event_id draw_id none = none
seeds_in event_id draw_id (some assignments) =
    some (record { event_id = event_id; draw_id = draw_id; seed_assignments = assignments })

unfoldable pub find_structure_context : Tournament → String → Option FoundSeeds
unfolding find_nested
find_structure_context t id =
    first_some
      (λ (e : Event).
        first_some (λ (d : Draw). seeds_in e.event_id d.draw_id (find_nested id d.structures))
          e.draw_definitions)
      t.events

unfoldable pub find_draw_context : Tournament → String → Option (String × Draw)
find_draw_context t id =
    first_some
      (λ (e : Event).
        first_some (λ (d : Draw). if d.draw_id == id then some (e.event_id, d) else none)
          e.draw_definitions)
      t.events

-- What a loop pushes where the tournament's record is there.
abbrev pub with_record :
    (Tournament → List ProjectionDelta) → Option Tournament → List ProjectionDelta
with_record f none = []
with_record f (some r) = f r

module _ (k : Toolkit) where
  abbrev structure_upsert : StructureContext → Structure → ProjectionDelta
  structure_upsert c s =
      upsert c.tournament_id structures (column "structure_id" (k.structure_row s c) ∷ [])
        (k.structure_row s c) "draw"

  -- `collectStructureDeltas`: a structure without an id is passed over with what it holds.
  unfoldable mutual
    pub one_structure_deltas : StructureContext → Structure → List ProjectionDelta
    one_structure_deltas c (structure own assignments nested body) =
        let below = collect_structure_deltas (record c { parent_structure_id = some own }) nested in
        if own == "" then [] else structure_upsert c (structure own assignments nested body) ∷ below

    pub collect_structure_deltas : StructureContext → Structures → List ProjectionDelta
    collect_structure_deltas c no_structures = []
    collect_structure_deltas c (and_structure s rest) =
        one_structure_deltas c s ++ collect_structure_deltas c rest

  abbrev pub found_draw_deltas :
      Records → String → String → Option (String × Draw) → List ProjectionDelta
  found_draw_deltas records id t none = []
  found_draw_deltas records id t (some (event_id, d)) =
      upsert t draws (("draw_id", some id) ∷ [])
        (k.draw_row d t event_id (provider_id_of records t)) "draw"
      ∷ del t structures (("tournament_id", some t) ∷ ("draw_id", some id) ∷ []) "draw"
      ∷ collect_structure_deltas
          (record {
            tournament_id = t;
            event_id = event_id;
            draw_id = id;
            provider_id = provider_id_of records t;
            parent_structure_id = none;
          })
          d.structures

  abbrev pub one_draw_deltas : Records → String × String → List ProjectionDelta
  one_draw_deltas records (id, t) =
      with_record (λ r. found_draw_deltas records id t (find_draw_context r id)) (lookup records t)

  unfoldable pub draw_deltas : Grouped → Records → List ProjectionDelta
  unfolding collect_structure_deltas find_draw_context
  draw_deltas g records = flat_map (one_draw_deltas records) g.draws

  abbrev pub seed_upsert : String → SeedContext → SeedAssignment → List ProjectionDelta
  seed_upsert t c a =
      if a.participant_id == ""
      then []
      else upsert t seeds
          (column "structure_id" (k.seed_row a c) ∷ column "seed_number" (k.seed_row a c) ∷ [])
          (k.seed_row a c) "seeds"
        ∷ []

  abbrev pub found_seed_deltas :
      Records → String → String → Option FoundSeeds → List ProjectionDelta
  found_seed_deltas records id t none = []
  found_seed_deltas records id t (some f) =
      flat_map
        (seed_upsert t (record {
          tournament_id = t;
          event_id = f.event_id;
          draw_id = f.draw_id;
          structure_id = id;
          provider_id = provider_id_of records t;
        }))
        f.seed_assignments

  abbrev pub one_structure_seeds : Records → String × String → List ProjectionDelta
  one_structure_seeds records (id, t) =
      with_record
        (λ r.
          del t seeds (("tournament_id", some t) ∷ ("structure_id", some id) ∷ []) "seeds"
          ∷ found_seed_deltas records id t (find_structure_context r id))
        (lookup records t)

  unfoldable pub seed_deltas : Grouped → Records → List ProjectionDelta
  unfolding find_structure_context
  seed_deltas g records = flat_map (one_structure_seeds records) g.seeds
