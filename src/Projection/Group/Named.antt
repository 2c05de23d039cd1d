-- ===== src/Projection/Group/Named.antt =====
-- The tournaments that the grouped intents name.
use competition_factory_serv.Prelude.{
  String, ◌==◌, List, [], ◌∷◌, insert, inl, inr, arith, All, All-append, Bool-cases, includes,
}
use competition_factory_serv.Access.Calendar.Sets.{set_add}
use competition_factory_serv.Projection.Intents.{
  ProjectionIntent, flatten_draw, republish_event, draw, seeds, delete_venue, delete_draw,
  delete_event, touch_tournament, participants, entries, events, order_of_play, participant_publish,
  match_up_result, claim_person, participant_name, scheduling_profile, venue, delete_match_ups,
  delete_participants, tournament_of,
}
use competition_factory_serv.Projection.Rows.{Records}
use competition_factory_serv.Projection.Group.{
  Grouped, draw_key, event_draw_ids, insert_draws, insert_all, add_intent, add_intents, no_intents,
  group,
}

module _ (P : String → Type 0) where
  -- Every tournament that is named has the property.
  pub record IsNamed (g : Grouped) : Type 0 where
    pub flatten_draws : All (λ e. P e.1.0) g.flatten_draws
    pub touched : All P g.touched
    pub participants : All P g.participants
    pub events : All P g.events
    pub draws : All (λ e. P e.1) g.draws
    pub seeds : All (λ e. P e.1) g.seeds
    pub order_of_play : All P g.order_of_play
    pub scheduling_profiles : All (λ e. P e.0) g.scheduling_profiles
    pub participant_publish : All P g.participant_publish
    pub match_up_results : All (λ e. P e.1.0) g.match_up_results
    pub venues : All (λ e. P e.1.0) g.venues
    pub delete_venues : All (λ e. P e.0) g.delete_venues
    pub delete_draws : All (λ e. P e.0) g.delete_draws
    pub delete_match_ups : All (λ e. P e.1) g.delete_match_ups
    pub delete_events : All (λ e. P e.1) g.delete_events
    pub delete_participants : All (λ e. P e.0) g.delete_participants
    pub claims : All (λ e. P e.1.0) g.claims
    pub participant_names : All (λ e. P e.1.0) g.participant_names

  All-set_add : (ts : List String) (t : String) → All P ts → P t → All P (set_add ts t)
  unfolding set_add
  All-set_add ts t h p = elim (Bool-cases (includes ts t)) [
    | inl e ↦ rw e h
    | inr e ↦ rw e (All-append P ts (t ∷ []) h (p, tt))
  ]

  All-insert :
      {V : Type 0} (Q : String × V → Type 0) (m : List (String × V)) (key : String) (v : V)
      → All Q m
      → Q (key, v)
      → All Q (insert m key v)
  All-insert Q [] key v h q = (q, tt)
  All-insert Q ((j, w) ∷ m) key v (p, h) q = elim (Bool-cases (j == key)) [
    | inl e ↦ rw e (q, h)
    | inr e ↦ rw e (p, All-insert Q m key v h q)
  ]

  All-insert_draws :
      (m : List (String × (String × String))) (t : String) (ds : List String)
      → All (λ e. P e.1.0) m
      → P t
      → All (λ e. P e.1.0) (insert_draws m t ds)
  All-insert_draws m t [] h p = h
  All-insert_draws m t (d ∷ ds) h p =
      All-insert_draws (insert m (draw_key t d) (t, d)) t ds
        (All-insert (λ e. P e.1.0) m (draw_key t d) (t, d) h p) p

  All-insert_all :
      (m : List (String × String)) (is : List String) (t : String)
      → All (λ e. P e.1) m
      → P t
      → All (λ e. P e.1) (insert_all m is t)
  All-insert_all m [] t h p = h
  All-insert_all m (i ∷ is) t h p =
      All-insert_all (insert m i t) is t (All-insert (λ e. P e.1) m i t h p) p

  add_intent-IsNamed :
      (records : Records) (g : Grouped) (i : ProjectionIntent)
      → IsNamed g
      → P (tournament_of i)
      → IsNamed (add_intent records g i)
  unfolding add_intent
  add_intent-IsNamed records g (flatten_draw t d) n p = ground (
    arith,
    All-insert (λ e. P e.1.0) g.flatten_draws (draw_key t d) (t, d) n.flatten_draws p,
    All-set_add g.touched t n.touched p,
  )
  add_intent-IsNamed records g (republish_event t e) n p = ground (
    arith,
    All-insert_draws g.flatten_draws t (event_draw_ids records t e) n.flatten_draws p,
    All-set_add g.touched t n.touched p,
  )
  add_intent-IsNamed records g (match_up_result t m) n p = ground (
    arith,
    All-insert (λ e. P e.1.0) g.match_up_results m.match_up_id (t, m) n.match_up_results p,
  )
  add_intent-IsNamed records g (touch_tournament t) n p =
      ground (arith, All-set_add g.touched t n.touched p)
  add_intent-IsNamed records g (participants t) n p =
      ground
        (arith, All-set_add g.participants t n.participants p, All-set_add g.touched t n.touched p)
  add_intent-IsNamed records g (entries t) n p =
      ground (arith, All-set_add g.participants t n.participants p)
  add_intent-IsNamed records g (events t) n p = ground (arith, All-set_add g.events t n.events p)
  add_intent-IsNamed records g (draw t d) n p =
      ground (arith, All-insert (λ e. P e.1) g.draws d t n.draws p)
  add_intent-IsNamed records g (seeds t s) n p =
      ground (arith, All-insert (λ e. P e.1) g.seeds s t n.seeds p)
  add_intent-IsNamed records g (order_of_play t) n p =
      ground (arith, All-set_add g.order_of_play t n.order_of_play p)
  add_intent-IsNamed records g (scheduling_profile t pr) n p =
      ground (arith, All-insert (λ e. P e.0) g.scheduling_profiles t pr n.scheduling_profiles p)
  add_intent-IsNamed records g (participant_publish t) n p =
      ground (arith, All-set_add g.participant_publish t n.participant_publish p)
  add_intent-IsNamed records g (venue t v) n p = ground (
    arith,
    All-insert (λ e. P e.1.0) g.venues v.venue_id (t, v) n.venues p,
    All-set_add g.touched t n.touched p,
  )
  add_intent-IsNamed records g (delete_venue t v) n p =
      ground (arith, All-append (λ e. P e.0) g.delete_venues ((t, v) ∷ []) n.delete_venues (p, tt))
  add_intent-IsNamed records g (delete_draw t d) n p =
      ground (arith, All-append (λ e. P e.0) g.delete_draws ((t, d) ∷ []) n.delete_draws (p, tt))
  add_intent-IsNamed records g (delete_match_ups t ids) n p =
      ground (arith, All-insert_all g.delete_match_ups ids t n.delete_match_ups p)
  add_intent-IsNamed records g (delete_event t e) n p =
      ground (arith, All-insert (λ e. P e.1) g.delete_events e t n.delete_events p)
  add_intent-IsNamed records g (delete_participants t ids) n p = ground (
    arith,
    All-append (λ e. P e.0) g.delete_participants ((t, ids) ∷ []) n.delete_participants (p, tt),
  )
  add_intent-IsNamed records g (claim_person t q c) n p =
      ground (arith, All-insert (λ e. P e.1.0) g.claims q (t, (q, c)) n.claims p)
  add_intent-IsNamed records g (participant_name t q m) n p = ground (
    arith,
    All-insert (λ e. P e.1.0) g.participant_names (draw_key t q) (t, (q, m)) n.participant_names p,
  )

  add_intents-IsNamed :
      (records : Records) (g : Grouped) (is : List ProjectionIntent)
      → IsNamed g
      → All (λ i. P (tournament_of i)) is
      → IsNamed (add_intents records g is)
  unfolding add_intents
  add_intents-IsNamed records g [] n h = n
  add_intents-IsNamed records g (i ∷ is) n (p, h) =
      add_intents-IsNamed records (add_intent records g i) is (add_intent-IsNamed records g i n p) h

  no_intents-IsNamed : IsNamed no_intents
  no_intents-IsNamed = omega arith

  pub group-IsNamed :
      (records : Records) (is : List ProjectionIntent)
      → All (λ i. P (tournament_of i)) is
      → IsNamed (group is records)
  unfolding group
  group-IsNamed records is h = add_intents-IsNamed records no_intents is no_intents-IsNamed h
