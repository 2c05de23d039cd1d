-- ===== src/Projection/Build/Laws.antt =====
-- What the deltas of each kind are about: their tournaments are those of the grouped intents, and only
-- some kinds touch the discovery table or the matchUps.
use competition_factory_serv.Prelude.{
  String, ◌==◌, ◌≡◌, refl, inl, inr, Bool, true, false, Option, none, some, List, [], ◌∷◌,
  if◌then◌else◌, lookup, All, All-append, All-flat_map, Bool-cases, flat_map,
}
use competition_factory_serv.Projection.Intents.{Court}
use competition_factory_serv.Projection.Rows.{
  field, Table, tournament_discovery, match_ups, Structure, structure, Structures, no_structures,
  and_structure, Draw, Tournament, Records, Published, StructureContext, Toolkit, ProjectionDelta,
}
use competition_factory_serv.Projection.Group.{Grouped}
use competition_factory_serv.Projection.Group.Named.{IsNamed}
use competition_factory_serv.Projection.Build.Draws.{
  with_record, FoundSeeds, find_structure_context, find_draw_context, one_structure_deltas,
  collect_structure_deltas, one_draw_deltas, draw_deltas, one_structure_seeds, seed_deltas,
  found_draw_deltas, found_seed_deltas,
}
use competition_factory_serv.Projection.Build.Facts.{
  tournament_deltas, one_event, event_deltas, order_of_play_deltas, participant_publish_deltas,
  one_entries, entry_deltas, entry_upsert, court_upsert, profile_upsert, order_of_play_delta,
  participant_publish_delta, one_venue, venue_deltas, one_profile, scheduling_profile_deltas,
  one_name, participant_name_deltas, one_claim, claim_deltas,
}

abbrev pub is_discovery : Table → Bool
is_discovery tournament_discovery = true
is_discovery _ = false

abbrev pub is_match_ups : Table → Bool
is_match_ups match_ups = true
is_match_ups _ = false

module _ (P : String → Type 0) where
  abbrev pub Other : ProjectionDelta → Type 0
  Other d = P d.tournament_id × (is_discovery d.table ≡ false)

  abbrev pub Plain : ProjectionDelta → Type 0
  Plain d = P d.tournament_id × (is_discovery d.table ≡ false) × (is_match_ups d.table ≡ false)

  All-if :
      (Q : ProjectionDelta → Type 0) (b : Bool) (ds : List ProjectionDelta)
      → All Q ds
      → All Q (if b then [] else ds)
  All-if Q true ds h = tt
  All-if Q false ds h = h

  rows-Plain :
      {A : Type 0} (f : A → List ProjectionDelta) (xs : List A)
      → ((x : A) → All Plain (f x))
      → All Plain (flat_map f xs)
  rows-Plain f [] h = tt
  rows-Plain f (x ∷ xs) h = All-append Plain (f x) (flat_map f xs) (h x) (rows-Plain f xs h)

  module _ (k : Toolkit) (records : Records) where
    with_record-Plain :
        (f : Tournament → List ProjectionDelta) (o : Option Tournament)
        → ((r : Tournament) → All Plain (f r))
        → All Plain (with_record f o)
    with_record-Plain f none h = tt
    with_record-Plain f (some r) h = h r

    -- A loop over tournaments, each of whose records is looked up.
    looked_up-Plain :
        (f : String → Tournament → List ProjectionDelta) (ts : List String)
        → ((t : String) (r : Tournament) → P t → All Plain (f t r))
        → All P ts
        → All Plain (flat_map (λ t. with_record (f t) (lookup records t)) ts)
    looked_up-Plain f ts h n =
        All-flat_map P Plain (λ t. with_record (f t) (lookup records t)) ts
          (λ t p. with_record-Plain (f t) (lookup records t) (λ r. h t r p)) n

    pub tournament_deltas-Plain :
        (g : Grouped) → IsNamed P g → All Plain (tournament_deltas k records g)
    unfolding tournament_deltas
    tournament_deltas-Plain g n =
        looked_up-Plain _ g.touched (λ t r p. ((p, refl, refl), tt)) n.touched

    pub event_deltas-Plain : (g : Grouped) → IsNamed P g → All Plain (event_deltas k records g)
    unfolding event_deltas
    event_deltas-Plain g n =
        looked_up-Plain _ g.events
          (λ t r p.
            rows-Plain (one_event k records t) r.events
              (λ e. All-if Plain (e.event_id == "") _ ((p, refl, refl), tt)))
          n.events

    pub order_of_play_deltas-Plain :
        (g : Grouped) → IsNamed P g → All Plain (order_of_play_deltas k records g)
    unfolding order_of_play_deltas
    order_of_play_deltas-Plain g n =
        looked_up-Plain _ g.order_of_play (λ t r p. (state t p (k.order_of_play_status r), tt))
          n.order_of_play
      where
        state :
            (t : String) → P t → (o : Option Published) → Plain (order_of_play_delta k records t o)
        state t p none = (p, refl, refl)
        state t p (some s) = elim (Bool-cases s.published) [
          | inl e ↦ rw e (p, refl, refl)
          | inr e ↦ rw e (p, refl, refl)
        ]

    pub participant_publish_deltas-Plain :
        (g : Grouped) → IsNamed P g → All Plain (participant_publish_deltas k records g)
    unfolding participant_publish_deltas
    participant_publish_deltas-Plain g n =
        looked_up-Plain _ g.participant_publish (λ t r p. (state t p (k.participants_status r), tt))
          n.participant_publish
      where
        state :
            (t : String)
            → P t
            → (o : Option Published) → Plain (participant_publish_delta k records t o)
        state t p none = (p, refl, refl)
        state t p (some s) = elim (Bool-cases s.published) [
          | inl e ↦ rw e (p, refl, refl)
          | inr e ↦ rw e (p, refl, refl)
        ]

    pub entry_deltas-Plain : (g : Grouped) → IsNamed P g → All Plain (entry_deltas k records g)
    unfolding entry_deltas
    entry_deltas-Plain g n =
        All-flat_map P Plain (one_entries k records) g.participants
          (λ t p. (
            (p, refl, refl),
            rows-Plain (entry_upsert k records t) (k.entry_rows (lookup records t))
                (λ r. ((p, refl, refl), tt)),
          ))
          n.participants

    pub venue_deltas-Plain : (g : Grouped) → IsNamed P g → All Plain (venue_deltas k records g)
    unfolding venue_deltas
    venue_deltas-Plain g n =
        All-flat_map (λ e. P e.1.0) Plain (one_venue k records) g.venues
          (λ e p. (
            (p, refl, refl),
            (
              (p, refl, refl),
              (
                (p, refl, refl),
                rows-Plain (court_upsert k records e.1.0 (field (k.venue_row e.1.1) "venue_id"))
                    e.1.1.courts
                    (λ (c : Court). elim (Bool-cases (c.court_id == "")) [
                      | inl b ↦ rw b tt
                      | inr b ↦ rw b ((p, refl, refl), tt)
                    ]),
              ),
            ),
          ))
          n.venues

    mutual
      unfolding collect_structure_deltas one_structure_deltas

      one_structure-Plain :
          (c : StructureContext)
          → P c.tournament_id
          → (s : Structure) → All Plain (one_structure_deltas k c s)
      one_structure-Plain c p (structure own assignments nested body) =
          All-if Plain (own == "") _ (
            (p, refl, refl),
            structures-Plain (record c { parent_structure_id = some own }) p nested,
          )

      structures-Plain :
          (c : StructureContext)
          → P c.tournament_id
          → (s : Structures) → All Plain (collect_structure_deltas k c s)
      structures-Plain c p no_structures = tt
      structures-Plain c p (and_structure s rest) =
          All-append Plain _ _ (one_structure-Plain c p s) (structures-Plain c p rest)

    pub draw_deltas-Plain : (g : Grouped) → IsNamed P g → All Plain (draw_deltas k g records)
    unfolding draw_deltas
    draw_deltas-Plain g n =
        All-flat_map (λ e. P e.1) Plain (one_draw_deltas k records) g.draws (λ e p. one e.0 e.1 p)
          n.draws
      where
        found :
            (id t : String)
            → P t
            → (o : Option (String × Draw)) → All Plain (found_draw_deltas k records id t o)
        found id t p none = tt
        found id t p (some (event_id, d)) =
            ((p, refl, refl), ((p, refl, refl), structures-Plain _ p d.structures))

        one : (id t : String) → P t → All Plain (one_draw_deltas k records (id, t))
        one id t p =
            with_record-Plain (λ r. found_draw_deltas k records id t (find_draw_context r id))
              (lookup records t) (λ r. found id t p (find_draw_context r id))

    pub seed_deltas-Plain : (g : Grouped) → IsNamed P g → All Plain (seed_deltas k g records)
    unfolding seed_deltas
    seed_deltas-Plain g n =
        All-flat_map (λ e. P e.1) Plain (one_structure_seeds k records) g.seeds
          (λ e p. one e.0 e.1 p) n.seeds
      where
        found :
            (id t : String)
            → P t
            → (o : Option FoundSeeds) → All Plain (found_seed_deltas k records id t o)
        found id t p none = tt
        found id t p (some f) = rows-Plain _ f.seed_assignments (λ a.
            elim (Bool-cases (a.participant_id == "")) [
              | inl b ↦ rw b tt
              | inr b ↦ rw b ((p, refl, refl), tt)
            ])

        one : (id t : String) → P t → All Plain (one_structure_seeds k records (id, t))
        one id t p =
            with_record-Plain _ (lookup records t)
              (λ r. ((p, refl, refl), found id t p (find_structure_context r id)))

  pub scheduling_profile_deltas-Plain :
      (k : Toolkit) (g : Grouped) → IsNamed P g → All Plain (scheduling_profile_deltas k g)
  unfolding scheduling_profile_deltas
  scheduling_profile_deltas-Plain k g n =
      All-flat_map (λ e. P e.0) Plain (one_profile k) g.scheduling_profiles
        (λ e p. (
          (p, refl, refl),
          rows-Plain (profile_upsert k e.0) (k.scheduling_profile_rows e.0 e.1)
              (λ r. ((p, refl, refl), tt)),
        ))
        n.scheduling_profiles

  pub participant_name_deltas-Plain :
      (k : Toolkit) (g : Grouped) → IsNamed P g → All Plain (participant_name_deltas k g)
  unfolding participant_name_deltas
  participant_name_deltas-Plain k g n =
      All-flat_map (λ e. P e.1.0) Plain (one_name k) g.participant_names
        (λ e p. ((p, refl, refl), ((p, refl, refl), tt))) n.participant_names

  pub claim_deltas-Plain : (g : Grouped) → IsNamed P g → All Plain (claim_deltas g)
  unfolding claim_deltas
  claim_deltas-Plain g n =
      All-flat_map (λ e. P e.1.0) Plain one_claim g.claims
        (λ e p. ((p, refl, refl), ((p, refl, refl), tt))) n.claims
