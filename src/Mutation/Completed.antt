-- ===== src/Mutation/Completed.antt =====
-- What a tournament record adds to a mutation's target.
use competition_factory_serv.Prelude.{
  String, ◌==◌, ◌≡◌, refl, Bool, true, false, not, ◌&&◌, ◌||◌, ◌⊎◌, inl, inr, Option, none, some,
  List, [], ◌∷◌, arith, All, Any, Bool-cases,
}
use competition_factory_serv.Mutation.Target.{
  Target, Draw, Event, Found, has_id, fill, enrich_from_draws, enrich_from_events,
  enrich_target_from_record, wants_schedule, wants_structure, or_target, enriched, ◌<|>◌,
}
use competition_factory_serv.Mutation.Located.{HoldsAny, LacksAll, search_structures}

-- The target is completed from a matchUp of the record that has the id.
pub record IsFilledFrom (target : Target) (id : String) (events : List Event) (r : Target)
    : Type 0 where
  pub event : Event
  pub draw : Draw
  pub found : Found
  pub listed : Any (λ e. e ≡ event) events
  pub drawn : Any (λ d. d ≡ draw) event.draws
  pub held : HoldsAny draw.structures found
  pub named : has_id id found.match_up ≡ true
  pub result : r ≡ fill target event draw found

abbrev DrawsFill : Target → String → Event → List Draw → Option Target → Type 0
DrawsFill target id event ds r =
    ((d : Draw) × (f : Found) × Any (λ x. x ≡ d) ds
      × HoldsAny d.structures f
      × (has_id id f.match_up ≡ true)
      × (r ≡ some (fill target event d f)))
    ⊎ ((r ≡ none) × All (λ d. LacksAll d.structures id) ds)

enrich_from_draws_lem :
    (target : Target) (event : Event) (id : String) (ds : List Draw)
    → DrawsFill target id event ds (enrich_from_draws target event id ds)
unfolding enrich_from_draws
enrich_from_draws_lem target event id [] = inr (refl, tt)
enrich_from_draws_lem target event id (d ∷ ds) = elim (search_structures d.structures id) [
  | inl (f, e, h, t) ↦ inl (d, f, inl refl, h, t, rw e refl)
  | inr (e, l) ↦ elim (enrich_from_draws_lem target event id ds) [
    | inl (d', f, a, h, t, r) ↦ inl (d', f, inr a, h, t, rw e r)
    | inr (r, ls) ↦ inr (rw e r, (l, ls))
  ]
]

enrich_from_events_lem :
    (target : Target) (id : String) (es : List Event)
    → ((r : Target) × (enrich_from_events target id es ≡ some r) × IsFilledFrom target id es r)
      ⊎ ((enrich_from_events target id es ≡ none)
          × All (λ e. All (λ d. LacksAll d.structures id) e.draws) es)
unfolding enrich_from_events
enrich_from_events_lem target id [] = inr (refl, tt)
enrich_from_events_lem target id (e ∷ es) = elim (enrich_from_draws_lem target e id e.draws) [
  | inl (d, f, a, h, t, r) ↦ inl (
    fill target e d f,
    rw r refl,
    record {
      event = e;
      draw = d;
      found = f;
      listed = inl refl;
      drawn = a;
      held = h;
      named = t;
      result = refl;
    },
  )
  | inr (r, l) ↦ elim (enrich_from_events_lem target id es) [
    | inl (x, p, w) ↦ inl (
      x,
      rw r p,
      record {
        event = w.event;
        draw = w.draw;
        found = w.found;
        listed = inr w.listed;
        drawn = w.drawn;
        held = w.held;
        named = w.named;
        result = w.result;
      },
    )
    | inr (p, ls) ↦ inr (rw r p, (l, ls))
  ]
]

enriched_cases :
    (target : Target) (events : List Event) (id : String)
    → IsFilledFrom target id events (or_target (enrich_from_events target id events) target)
      ⊎ ((or_target (enrich_from_events target id events) target ≡ target)
          × All (λ e. All (λ d. LacksAll d.structures id) e.draws) events)
enriched_cases target events id = elim (enrich_from_events_lem target id events) [
  | inl (r, e, w) ↦ inl (rw e w)
  | inr (e, l) ↦ inr (rw e refl, l)
]

wanted : (a b : Bool) → (a || b) ≡ true → (not a && not b) ≡ false
wanted a b h = ground arith

enrich-named :
    (target : Target) (events : List Event) (needed : List String) (id : String)
    → (wants_schedule needed || wants_structure needed) ≡ true
    → target.match_up_id ≡ some id
    → (id == "") ≡ false
    → enrich_target_from_record target events needed
      ≡ or_target (enrich_from_events target id events) target
unfolding enrich_target_from_record
enrich-named target events needed id w m n =
    simp (wanted (wants_schedule needed) (wants_structure needed) w, m, n)

-- Where a grant's dimensions need the record and the method names a matchUp, either the target is
-- completed from a matchUp with that id, the event, draw and structure being those that hold it,
-- or no structure of the record at any depth has such a matchUp and the target is unchanged.
pub enrich_target_from_record_cases :
    (target : Target) (events : List Event) (needed : List String) (id : String)
    → (wants_schedule needed || wants_structure needed) ≡ true
    → target.match_up_id ≡ some id
    → (id == "") ≡ false
    → IsFilledFrom target id events (enrich_target_from_record target events needed)
      ⊎ ((enrich_target_from_record target events needed ≡ target)
          × All (λ e. All (λ d. LacksAll d.structures id) e.draws) events)
enrich_target_from_record_cases target events needed id w m n =
    rw (enrich-named target events needed id w m n) (enriched_cases target events id)

abbrev pub Keeps : Option String → Option String → Type 0
Keeps a b = (v : String) → a ≡ some v → b ≡ some v

abbrev pub Extends : Target → Target → Type 0
Extends target r =
    (r.match_up_id ≡ target.match_up_id)
    × (r.venue_id ≡ target.venue_id)
    × Keeps target.event_id r.event_id
    × Keeps target.draw_id r.draw_id
    × Keeps target.structure_id r.structure_id
    × Keeps target.court_id r.court_id
    × Keeps target.scheduled_date r.scheduled_date

<|>-Keeps : (a b : Option String) → Keeps a (a <|> b)
<|>-Keeps none b v h = cc
<|>-Keeps (some a) b v h = h

Extends-self : (target : Target) → Extends target target
Extends-self target = (refl, refl, (λ v h. h), (λ v h. h), (λ v h. h), (λ v h. h), (λ v h. h))

fill-Extends :
    (target : Target) (event : Event) (draw : Draw) (found : Found)
    → Extends target (fill target event draw found)
fill-Extends target event draw found = (
  refl,
  refl,
  <|>-Keeps target.event_id event.event_id,
  <|>-Keeps target.draw_id draw.draw_id,
  <|>-Keeps target.structure_id found.structure_id,
  <|>-Keeps target.court_id found.match_up.court_id,
  <|>-Keeps target.scheduled_date found.match_up.scheduled_date,
)

or_target-Extends :
    (target : Target) (id : String) (events : List Event)
    → Extends target (or_target (enrich_from_events target id events) target)
or_target-Extends target id events = elim (enrich_from_events_lem target id events) [
  | inl (r, e, w) ↦ rw (e, w.result) (fill-Extends target w.event w.draw w.found)
  | inr (e, l) ↦ rw e (Extends-self target)
]

enriched-Extends :
    (id : Option String) (target : Target) (events : List Event)
    → Extends target (enriched id target events)
enriched-Extends none target events = Extends-self target
enriched-Extends (some id) target events = elim (Bool-cases (id == "")) [
  | inl h ↦ rw h (Extends-self target)
  | inr h ↦ rw h (or_target-Extends target id events)
]

-- Completing a target never changes what the method's parameters said, whatever the record holds,
-- and never changes its matchUp or venue.
pub enrich_target_from_record-Extends :
    (target : Target) (events : List Event) (needed : List String)
    → Extends target (enrich_target_from_record target events needed)
unfolding enrich_target_from_record
enrich_target_from_record-Extends target events needed =
    elim (Bool-cases (not (wants_schedule needed) && not (wants_structure needed))) [
      | inl h ↦ rw h (Extends-self target)
      | inr h ↦ rw h (enriched-Extends target.match_up_id target events)
    ]
