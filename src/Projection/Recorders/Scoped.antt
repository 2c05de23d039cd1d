-- ===== src/Projection/Recorders/Scoped.antt =====
-- The tournaments of the recorded intents.
use competition_factory_serv.Prelude.{
  String, ◌==◌, ◌≡◌, sym, subst, inl, inr, Bool, true, false, ◌||◌, Option, none, some, List, [],
  ◌∷◌, ◌++◌, map, if◌then◌else◌, All, All-append, All-of_map, includes, is_empty, flat_map,
  Bool-cases,
}
use competition_factory_serv.Access.Calendar.Sets.{to_set}
use competition_factory_serv.Projection.Intents.{
  ProjectionIntent, tournament_of, DeltaBuffer, ResultMatchUp, Venue, flatten_draw, delete_event,
  touch_tournament, entries, events, order_of_play, participant_publish,
}
use competition_factory_serv.Projection.Recorders.{
  Item, OtherId, AuditEntry, Participant, tid_of, if_named, if_both, tid, participant_items,
  once_each, add_match_ups, add_draw, position_assignments, match_up_results, touch, draws,
  scheduling_profiles, seed_structures, delete_events, person_claims, venues, delete_venues,
  delete_draws, deleted_match_ups, deleted_participants, audit_events, result_of, venue_of,
  claim_of, nonempty, is_skipped, audited_event,
}
use competition_factory_serv.Projection.Recorders.Calls.{
  Recording, add_match_up_items, add_draw_items, position_items, result_items, touch_items,
  participant_items_of, entry_items, draw_items, order_of_play_items, publish_items, profile_items,
  seed_items, event_items, delete_event_items, venue_items, delete_venue_items, delete_draw_items,
  delete_match_up_items, delete_participant_items, claim_items, audit_items, republish_item,
  intents_of, record_into, own_ids,
}

module _ (P : String → Type 0) (scope : List String) where
  abbrev pub About : ProjectionIntent → Type 0
  About i = P (tournament_of i)

  -- What is named where it counts has the property.
  abbrev pub Named : String → Type 0
  Named own = (tid_of scope own == "") ≡ false → P (tid_of scope own)

  named :
      (own : String) (ds : List ProjectionIntent)
      → Named own
      → (P (tid_of scope own) → All About ds)
      → All About (if_named (tid_of scope own) ds)
  named own ds n h = elim (Bool-cases (tid_of scope own == "")) [
    | inl e ↦ rw e tt
    | inr e ↦ rw e (h (n e))
  ]

  both :
      (own id : String) (ds : List ProjectionIntent)
      → Named own
      → (P (tid_of scope own) → All About ds)
      → All About (if_both (tid_of scope own) id ds)
  both own id ds n h = elim (Bool-cases (tid_of scope own == "")) [
    | inl e ↦ rw e tt
    | inr e ↦ elim (Bool-cases (id == "")) [ inl f ↦ rw (e, f) tt | inr f ↦ rw (e, f) (h (n e)) ]
  ]

  -- A loop over items.
  looped :
      (f : Item → List ProjectionIntent) (is : List Item)
      → ((i : Item) → Named i.tournament_id → All About (f i))
      → All (λ i. Named i.tournament_id) is
      → All About (flat_map f is)
  looped f [] h n = tt
  looped f (i ∷ is) h (n, ns) = All-append About (f i) (flat_map f is) (h i n) (looped f is h ns)

  -- Intents of one tournament.
  of_one :
      {A : Type 0} (f : A → List ProjectionIntent) (xs : List A)
      → ((x : A) → All About (f x))
      → All About (flat_map f xs)
  of_one f [] h = tt
  of_one f (x ∷ xs) h = All-append About (f x) (flat_map f xs) (h x) (of_one f xs h)

  mapped :
      (t : String) (f : String → ProjectionIntent) (xs : List String)
      → ((x : String) → About (f x))
      → All About (map f xs)
  mapped t f [] h = tt
  mapped t f (x ∷ xs) h = (h x, mapped t f xs h)

  when_kept :
      (b : Bool) (ds : List ProjectionIntent) → All About ds → All About (if b then [] else ds)
  when_kept true ds h = tt
  when_kept false ds h = h

  once_each-About :
      (intent : String → ProjectionIntent) (seen : List String) (is : List Item)
      → ((t : String) → P t → About (intent t))
      → All (λ i. Named i.tournament_id) is
      → All About (once_each scope intent seen is)
  unfolding once_each
  once_each-About intent seen [] h n = tt
  once_each-About intent seen (i ∷ is) h (n, ns) =
      All-append About _ _
        (named i.tournament_id _ n
          (λ p. when_kept (includes seen (tid scope i)) (intent (tid scope i) ∷ []) (h _ p, tt)))
        (once_each-About intent (if tid scope i == "" then seen else tid scope i ∷ seen) is h ns)

  participant_items-About :
      (seen : List String) (is : List Item)
      → All (λ i. Named i.tournament_id) is
      → All About (participant_items scope seen is)
  unfolding participant_items
  participant_items-About seen [] n = tt
  participant_items-About seen (i ∷ is) (n, ns) =
      All-append About _ _
        (named i.tournament_id _ n (λ p.
          All-append About _ _ (when_kept (includes seen (tid scope i)) _ (p, tt)) (
            of_one _ i.participants
              (λ (q : Participant). when_kept (q.participant_id == "") _ (p, tt)))))
        (participant_items-About (if tid scope i == "" then seen else tid scope i ∷ seen) is ns)

  result-About :
      (own : String) (o : Option ResultMatchUp)
      → Named own
      → All About (result_of scope (tid_of scope own) o)
  result-About own none n = tt
  result-About own (some m) n = both own m.match_up_id _ n (λ p. (p, tt))

  venue-About :
      (own : String) (o : Option Venue)
      → Named own
      → All About (venue_of scope (tid_of scope own) o)
  venue-About own none n = tt
  venue-About own (some v) n = both own v.venue_id _ n (λ p. (p, tt))

  claim-About :
      (t : String) (q : Participant) (o : Option OtherId)
      → P t
      → All About (claim_of scope t q.participant_id o)
  claim-About t q none p = tt
  claim-About t q (some o) p = when_kept (q.participant_id == "" || o.person_id == "") _ (p, tt)

  intents_of-About : (r : Recording) → All Named (own_ids r) → All About (intents_of scope r)
  intents_of-About (add_match_up_items is) n =
      looped (add_match_ups scope) is
        (λ i h. named i.tournament_id _ h (λ p.
          All-append About
            (map (λ d. flatten_draw (tid scope i) d) (to_set (nonempty i.match_up_draw_ids)))
            (touch_tournament (tid scope i) ∷ [])
            (mapped (tid scope i) (λ d. flatten_draw (tid scope i) d)
              (to_set (nonempty i.match_up_draw_ids)) (λ d. p))
            (p, tt)))
        (All-of_map Named _ is n)
  intents_of-About (add_draw_items is) n =
      looped (add_draw scope) is (λ i h. both i.tournament_id _ _ h (λ p. (p, (p, tt))))
        (All-of_map Named _ is n)
  intents_of-About (position_items is) n =
      looped (position_assignments scope) is
        (λ i h. both i.tournament_id i.draw_id _ h (λ p. (p, tt))) (All-of_map Named _ is n)
  intents_of-About (result_items is) n =
      looped (match_up_results scope) is (λ i h. result-About i.tournament_id i.match_up h)
        (All-of_map Named _ is n)
  intents_of-About (touch_items is) n =
      looped (touch scope) is (λ i h. named i.tournament_id _ h (λ p. (p, tt)))
        (All-of_map Named _ is n)
  intents_of-About (participant_items_of is) n =
      participant_items-About [] is (All-of_map Named _ is n)
  intents_of-About (entry_items is) n =
      once_each-About entries [] is (λ t p. p) (All-of_map Named _ is n)
  intents_of-About (draw_items is) n =
      looped (draws scope) is (λ i h. both i.tournament_id _ _ h (λ p. (p, tt)))
        (All-of_map Named _ is n)
  intents_of-About (order_of_play_items is) n =
      once_each-About order_of_play [] is (λ t p. p) (All-of_map Named _ is n)
  intents_of-About (publish_items is) n =
      once_each-About participant_publish [] is (λ t p. p) (All-of_map Named _ is n)
  intents_of-About (profile_items is) n =
      looped (scheduling_profiles scope) is (λ i h. named i.tournament_id _ h (λ p. (p, tt)))
        (All-of_map Named _ is n)
  intents_of-About (seed_items is) n =
      looped (seed_structures scope) is
        (λ i h. both i.tournament_id i.structure_id _ h (λ p. (p, tt))) (All-of_map Named _ is n)
  intents_of-About (event_items is) n =
      once_each-About events [] is (λ t p. p) (All-of_map Named _ is n)
  intents_of-About (delete_event_items is) n =
      looped (delete_events scope) is
        (λ i h. named i.tournament_id _ h (λ p.
          mapped (tid scope i) (λ e. delete_event (tid scope i) e) (nonempty i.event_ids) (λ e. p)))
        (All-of_map Named _ is n)
  intents_of-About (venue_items is) n =
      looped (venues scope) is (λ i h. venue-About i.tournament_id i.venue h)
        (All-of_map Named _ is n)
  intents_of-About (delete_venue_items is) n =
      looped (delete_venues scope) is (λ i h. both i.tournament_id i.venue_id _ h (λ p. (p, tt)))
        (All-of_map Named _ is n)
  intents_of-About (delete_draw_items is) n =
      looped (delete_draws scope) is (λ i h. both i.tournament_id i.draw_id _ h (λ p. (p, tt)))
        (All-of_map Named _ is n)
  intents_of-About (delete_match_up_items is) n =
      looped (deleted_match_ups scope) is
        (λ i h. named i.tournament_id _ h (λ p. when_kept (is_empty i.match_up_ids) _ (p, tt)))
        (All-of_map Named _ is n)
  intents_of-About (delete_participant_items is) n =
      looped (deleted_participants scope) is
        (λ i h. named i.tournament_id _ h (λ p. when_kept (is_empty i.participant_ids) _ (p, tt)))
        (All-of_map Named _ is n)
  intents_of-About (claim_items canonical is) n =
      looped (person_claims scope canonical) is
        (λ i h.
          named i.tournament_id _ h
            (λ p. of_one _ i.participants (λ (q : Participant). claim-About (tid scope i) q _ p)))
        (All-of_map Named _ is n)
  intents_of-About (audit_items action is) n =
      looped (audit_events scope action) is
        (λ i h. named i.tournament_id _ h (λ p. of_one _ i.detail (λ (e : AuditEntry).
          when_kept (is_skipped action e) (delete_event (tid scope i) (audited_event e) ∷ [])
            (p, tt))))
        (All-of_map Named _ is n)
  intents_of-About (republish_item own event_id) n = both own event_id _ n.0 (λ p. (p, tt))

  pub record_into-About :
      (b : DeltaBuffer) (rs : List Recording)
      → b.tournament_ids ≡ scope
      → All (λ r. All Named (own_ids r)) rs
      → All About b.intents
      → All About (record_into b rs).intents
  unfolding record_into
  record_into-About b [] s n h = h
  record_into-About b (r ∷ rs) s (n, ns) h =
      record_into-About (record b { intents = b.intents ++ intents_of b.tournament_ids r }) rs s ns
        (subst (λ t. All About (b.intents ++ intents_of t r)) (sym s)
          (All-append About b.intents (intents_of scope r) h (intents_of-About r n)))
