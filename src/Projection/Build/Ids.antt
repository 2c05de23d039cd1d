-- ===== src/Projection/Build/Ids.antt =====
-- The ids of the discovery rows and the tournaments that grouped intents name.
use competition_factory_serv.Prelude.{
  String, ◌≡◌, refl, ◌∙◌, inl, inr, true, Option, List, [], ◌∷◌, ◌++◌, map, All, All-append,
  All-split, All-of_map, includes, Bool-cases, arith, eq_refl,
}
use competition_factory_serv.Access.Calendar.Sets.{set_add, add_all, to_set, includes-to_set}
use competition_factory_serv.Projection.Intents.{ResultMatchUp, Venue}
use competition_factory_serv.Projection.Group.{Grouped}
use competition_factory_serv.Projection.Group.Named.{IsNamed}
use competition_factory_serv.Projection.Build.Facts.{id_lists, concat, discovery_ids}

pub All-includes :
    (xs ys : List String)
    → ((t : String) → includes xs t ≡ true → includes ys t ≡ true)
    → All (λ t. includes ys t ≡ true) xs
All-includes [] ys h = tt
All-includes (x ∷ xs) ys h =
    (h x (rw (eq_refl x) refl), All-includes xs ys (λ t i. h t (ground (arith, i))))

module _ (P : String → Type 0) where
  All-concat : (ls : List (List String)) → All P (concat ls) → All (All P) ls
  All-concat [] h = tt
  All-concat (l ∷ ls) h = let both = All-split P l (concat ls) h in (both.0, All-concat ls both.1)

  All-to_map :
      {A : Type 0} (f : A → String) (xs : List A) → All (λ x. P (f x)) xs → All P (map f xs)
  All-to_map f [] h = tt
  All-to_map f (x ∷ xs) (p, h) = (p, All-to_map f xs h)

  concat-All : (ls : List (List String)) → All (All P) ls → All P (concat ls)
  concat-All [] h = tt
  concat-All (l ∷ ls) (h, hs) = All-append P l (concat ls) h (concat-All ls hs)

  add_all-All : (set xs : List String) → All P set → All P xs → All P (add_all set xs)
  unfolding add_all set_add
  add_all-All set [] h k = h
  add_all-All set (x ∷ xs) h (p, k) = elim (Bool-cases (includes set x)) [
    | inl e ↦ rw e (add_all-All set xs h k)
    | inr e ↦ rw e (add_all-All (set ++ x ∷ []) xs (All-append P set (x ∷ []) h (p, tt)) k)
  ]

  -- The ids of the discovery rows have what all named tournaments have.
  pub IsNamed-ids : (g : Grouped) → IsNamed P g → All P (discovery_ids g)
  unfolding discovery_ids to_set
  IsNamed-ids g n = add_all-All [] (concat (id_lists g)) tt (
      concat-All (id_lists g) (
        n.touched,
        (
          n.participants,
          (
            n.events,
            (
              n.order_of_play,
              (
                n.participant_publish,
                (
                  All-to_map (λ (e : String × String). e.1) g.draws n.draws,
                  (
                    All-to_map (λ (e : String × String). e.1) g.seeds n.seeds,
                    (
                      All-to_map (λ (e : String × String). e.1) g.delete_match_ups
                          n.delete_match_ups,
                      (
                        All-to_map (λ (e : String × String). e.1) g.delete_events n.delete_events,
                        (
                          All-to_map (λ (e : String × String). e.0) g.scheduling_profiles
                              n.scheduling_profiles,
                          (
                            All-to_map (λ (e : String × (String × String)). e.1.0) g.flatten_draws
                                n.flatten_draws,
                            (
                              All-to_map (λ (e : String × (String × ResultMatchUp)). e.1.0)
                                  g.match_up_results n.match_up_results,
                              (
                                All-to_map (λ (e : String × (String × Venue)). e.1.0) g.venues
                                    n.venues,
                                (
                                  All-to_map (λ (e : String × (String × (String × String))). e.1.0)
                                      g.claims n.claims,
                                  (
                                    All-to_map
                                        (λ (e : String × (String × (String × Option String))).
                                          e.1.0)
                                        g.participant_names n.participant_names,
                                    (
                                      All-to_map (λ (e : String × String). e.0) g.delete_venues
                                          n.delete_venues,
                                      (
                                        All-to_map (λ (e : String × String). e.0) g.delete_draws
                                            n.delete_draws,
                                        (
                                          All-to_map (λ (e : String × List String). e.0)
                                              g.delete_participants n.delete_participants,
                                          tt,
                                        ),
                                      ),
                                    ),
                                  ),
                                ),
                              ),
                            ),
                          ),
                        ),
                      ),
                    ),
                  ),
                ),
              ),
            ),
          ),
        ),
      ))

  lists-IsNamed : (g : Grouped) → All (All P) (id_lists g) → IsNamed P g
  lists-IsNamed g
        (
          touched,
          (
            participants,
            (
              events,
              (
                order,
                (
                  publish,
                  (
                    draws,
                    (
                      seeds,
                      (
                        match_ups,
                        (
                          del_events,
                          (
                            profiles,
                            (
                              flattens,
                              (
                                results,
                                (
                                  venues,
                                  (
                                    claims,
                                    (names, (del_venues, (del_draws, (del_participants, end)))),
                                  ),
                                ),
                              ),
                            ),
                          ),
                        ),
                      ),
                    ),
                  ),
                ),
              ),
            ),
          ),
        ) =
      record {
        flatten_draws =
            All-of_map P (λ (e : String × (String × String)). e.1.0) g.flatten_draws flattens;
        touched = touched;
        participants = participants;
        events = events;
        draws = All-of_map P (λ (e : String × String). e.1) g.draws draws;
        seeds = All-of_map P (λ (e : String × String). e.1) g.seeds seeds;
        order_of_play = order;
        scheduling_profiles =
            All-of_map P (λ (e : String × String). e.0) g.scheduling_profiles profiles;
        participant_publish = publish;
        match_up_results =
            All-of_map P (λ (e : String × (String × ResultMatchUp)). e.1.0) g.match_up_results
              results;
        venues = All-of_map P (λ (e : String × (String × Venue)). e.1.0) g.venues venues;
        delete_venues = All-of_map P (λ (e : String × String). e.0) g.delete_venues del_venues;
        delete_draws = All-of_map P (λ (e : String × String). e.0) g.delete_draws del_draws;
        delete_match_ups = All-of_map P (λ (e : String × String). e.1) g.delete_match_ups match_ups;
        delete_events = All-of_map P (λ (e : String × String). e.1) g.delete_events del_events;
        delete_participants =
            All-of_map P (λ (e : String × List String). e.0) g.delete_participants del_participants;
        claims =
            All-of_map P (λ (e : String × (String × (String × String))). e.1.0) g.claims claims;
        participant_names =
            All-of_map P (λ (e : String × (String × (String × Option String))). e.1.0)
              g.participant_names names;
      }

pub discovery_ids-IsNamed : (g : Grouped) → IsNamed (λ t. includes (discovery_ids g) t ≡ true) g
unfolding discovery_ids
discovery_ids-IsNamed g =
    lists-IsNamed (λ t. includes (discovery_ids g) t ≡ true) g
      (All-concat (λ t. includes (discovery_ids g) t ≡ true) (id_lists g)
        (All-includes (concat (id_lists g)) (discovery_ids g)
          (λ t i. includes-to_set (concat (id_lists g)) t ∙ i)))
