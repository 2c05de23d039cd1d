-- ===== src/Mutation/Target.antt =====
-- src/modules/factory/helpers/resolveMutationTarget.ts. An absent property is `none`, an absent
-- list is empty; `a ?? b` keeps `a` unless it is absent.
use competition_factory_serv.Prelude.{
  String, ◌==◌, ◌≡◌, refl, ◌↔◌, Bool, not, ◌&&◌, ◌||◌, Option, none, some, List, [], ◌∷◌,
  if◌then◌else◌, is_text, includes,
}

pub record Params : Type 0 where
  pub match_up_id : Option String
  pub match_up_ids : List String
  pub draw_id : Option String
  pub event_id : Option String
  pub structure_id : Option String
  pub venue_id : Option String
  pub court_id : Option String
  pub scheduled_date : Option String
  pub date : Option String

pub record Method : Type 0 where
  pub method : Option String
  pub params : Params

pub record Target : Type 0 where
  pub match_up_id : Option String
  pub draw_id : Option String
  pub event_id : Option String
  pub structure_id : Option String
  pub venue_id : Option String
  pub court_id : Option String
  pub scheduled_date : Option String

-- The court and the date are those of the matchUp's schedule.
pub record MatchUp : Type 0 where
  pub match_up_id : Option String
  pub court_id : Option String
  pub scheduled_date : Option String

mutual
  pub data Structure : Type 0 where
    structure : Option String → List MatchUp → Structures → Structure

  pub data Structures : Type 0 where
    nil : Structures
    cons : Structure → Structures → Structures

pub record Draw : Type 0 where
  pub draw_id : Option String
  pub structures : Structures

pub record Event : Type 0 where
  pub event_id : Option String
  pub draws : List Draw

infixr 30 ◌<|>◌
abbrev pub ◌<|>◌ {ℓ} : {A : Type ℓ} → Option A → Option A → Option A
none <|> b = b
some a <|> b = some a

pub <|>-eq-none {ℓ} : {A : Type ℓ} (a b : Option A) → ((a <|> b) ≡ none) ↔ ((a ≡ none) × (b ≡ none))
<|>-eq-none none b = ((λ h. (refl, h)), (λ h. h.1))
<|>-eq-none (some a) b = ((λ h. cc), (λ h. cc h.0))

abbrev head? : List String → Option String
head? [] = none
head? (x ∷ xs) = some x

unfoldable pub target_from_params : Method → Target
target_from_params m = record {
  match_up_id = m.params.match_up_id <|> head? m.params.match_up_ids;
  draw_id = m.params.draw_id;
  event_id = m.params.event_id;
  structure_id = m.params.structure_id;
  venue_id = m.params.venue_id;
  court_id = m.params.court_id;
  scheduled_date = m.params.scheduled_date <|> m.params.date;
}

-- The matchUp, and the id of the structure that holds it.
pub record Found : Type 0 where
  pub match_up : MatchUp
  pub structure_id : Option String

abbrev pub has_id : String → MatchUp → Bool
has_id id m = is_text m.match_up_id id

unfoldable pub find_match_up : Option String → List MatchUp → String → Option Found
find_match_up sid [] id = none
find_match_up sid (m ∷ ms) id =
    if has_id id m
    then some (record { match_up = m; structure_id = sid })
    else find_match_up sid ms id

unfoldable mutual
  unfolding find_match_up

  pub find_in_structure : Structure → String → Option Found
  find_in_structure (structure sid ms children) id =
      find_match_up sid ms id <|> find_in_structures children id

  pub find_in_structures : Structures → String → Option Found
  find_in_structures nil id = none
  find_in_structures (cons s ss) id = find_in_structure s id <|> find_in_structures ss id

abbrev pub fill : Target → Event → Draw → Found → Target
fill target event draw found = record target {
  event_id = target.event_id <|> event.event_id;
  draw_id = target.draw_id <|> draw.draw_id;
  structure_id = target.structure_id <|> found.structure_id;
  court_id = target.court_id <|> found.match_up.court_id;
  scheduled_date = target.scheduled_date <|> found.match_up.scheduled_date;
}

abbrev pub filled : Target → Event → Draw → Option Found → Option Target
filled target event draw none = none
filled target event draw (some found) = some (fill target event draw found)

-- The inner loops of `enrichTargetFromRecord`; `none` is a loop that ran to its end.
unfoldable pub enrich_from_draws : Target → Event → String → List Draw → Option Target
enrich_from_draws target event id [] = none
enrich_from_draws target event id (d ∷ ds) =
    filled target event d (find_in_structures d.structures id)
    <|> enrich_from_draws target event id ds

unfoldable pub enrich_from_events : Target → String → List Event → Option Target
unfolding enrich_from_draws
enrich_from_events target id [] = none
enrich_from_events target id (e ∷ es) =
    enrich_from_draws target e id e.draws <|> enrich_from_events target id es

abbrev pub or_target : Option Target → Target → Target
or_target none target = target
or_target (some t) target = t

abbrev pub wants_schedule : List String → Bool
wants_schedule needed = includes needed "courtId" || includes needed "scheduledDate"

abbrev pub wants_structure : List String → Bool
wants_structure needed = includes needed "structureId" || includes needed "eventId"

abbrev pub enriched : Option String → Target → List Event → Target
enriched none target events = target
enriched (some id) target events =
    if id == "" then target else or_target (enrich_from_events target id events) target

unfoldable pub enrich_target_from_record : Target → List Event → List String → Target
unfolding enrich_from_events
enrich_target_from_record target events needed =
    if not (wants_schedule needed) && not (wants_structure needed)
    then target
    else enriched target.match_up_id target events
