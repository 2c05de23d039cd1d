-- ===== src/Projection/Recorders.antt =====
-- src/modules/factory/projection/deltaBuffer.ts. A notice's item is one record of the properties that
-- any of the recorders reads; a list that is absent is empty. What is no array of items is none here.
pub mod Calls
pub mod Scoped
use competition_factory_serv.Prelude.{
  String, ◌==◌, Bool, true, false, not, ◌&&◌, ◌||◌, Option, none, some, List, [], ◌∷◌, ◌++◌, map,
  if◌then◌else◌, is_empty, filter, find, includes, is_text, truthy, flat_map,
}
use competition_factory_serv.Access.Calendar.Sets.{to_set}
use competition_factory_serv.Projection.Intents.{
  ResultMatchUp, Venue, ProjectionIntent, flatten_draw, republish_event, draw, seeds, delete_venue,
  delete_draw, delete_event, touch_tournament, participants, entries, events, order_of_play,
  participant_publish, match_up_result, claim_person, participant_name, scheduling_profile, venue,
  delete_match_ups, delete_participants, DeltaBuffer,
}

pub record OtherId : Type 0 where
  pub organisation_id : String
  pub person_id : String

pub record Participant : Type 0 where
  pub participant_id : String
  pub participant_name : Option String
  pub person_other_ids : List OtherId

-- An entry of an audit trail. Its event is `payload.eventId`, else `payload.event.eventId`.
pub record AuditEntry : Type 0 where
  pub action : String
  pub kind : String
  pub event_id : Option String
  pub inner_event_id : Option String

pub record Item : Type 0 where
  pub tournament_id : String
  pub event_id : String
  pub draw_id : String
  pub structure_id : String
  pub venue_id : String
  pub draw_definition_id : Option String
  pub match_up_draw_ids : List String
  pub match_up : Option ResultMatchUp
  pub venue : Option Venue
  pub participants : List Participant
  pub scheduling_profile : String
  pub match_up_ids : List String
  pub participant_ids : List String
  pub event_ids : List String
  pub detail : List AuditEntry

abbrev pub sole : List String → String
sole (t ∷ []) = t
sole ts = ""

-- The tournament of an item: its own, else the mutation's only one, else none.
abbrev pub tid_of : List String → String → String
tid_of scope own = if not (own == "") then own else sole scope

abbrev pub nonempty : List String → List String
nonempty ids = filter (λ i. not (i == "")) ids

abbrev or_text : Option String → String → String
or_text none d = d
or_text (some s) d = s

-- `if (tournamentId) push(…)`
abbrev pub if_named : String → List ProjectionIntent → List ProjectionIntent
if_named t intents = if t == "" then [] else intents

-- `if (tournamentId && id) push(…)`
abbrev pub if_both : String → String → List ProjectionIntent → List ProjectionIntent
if_both t id intents = if t == "" || id == "" then [] else intents

abbrev pub audited_event : AuditEntry → String
audited_event e = or_text e.event_id (or_text e.inner_event_id "")

abbrev pub is_skipped : String → AuditEntry → Bool
is_skipped action e = (not (e.action == action) && not (e.kind == action)) || audited_event e == ""

module _ (scope : List String) where
  abbrev pub tid : Item → String
  tid i = tid_of scope i.tournament_id

  abbrev pub add_match_ups : Item → List ProjectionIntent
  add_match_ups i = if_named (tid i) (
      map (λ d. flatten_draw (tid i) d) (to_set (nonempty i.match_up_draw_ids))
      ++ touch_tournament (tid i) ∷ [])

  abbrev pub add_draw : Item → List ProjectionIntent
  add_draw i =
      if_both (tid i) (or_text i.draw_definition_id "")
        (flatten_draw (tid i) (or_text i.draw_definition_id "") ∷ touch_tournament (tid i) ∷ [])

  abbrev pub position_assignments : Item → List ProjectionIntent
  position_assignments i = if_both (tid i) i.draw_id (flatten_draw (tid i) i.draw_id ∷ [])

  abbrev pub result_of : String → Option ResultMatchUp → List ProjectionIntent
  result_of t none = []
  result_of t (some m) = if_both t m.match_up_id (match_up_result t m ∷ [])

  abbrev pub match_up_results : Item → List ProjectionIntent
  match_up_results i = result_of (tid i) i.match_up

  abbrev pub touch : Item → List ProjectionIntent
  touch i = if_named (tid i) (touch_tournament (tid i) ∷ [])

  abbrev name_intents : String → List Participant → List ProjectionIntent
  name_intents t ps =
      flat_map
        (λ (p : Participant).
          if p.participant_id == ""
          then []
          else participant_name t p.participant_id p.participant_name ∷ [])
        ps

  abbrev if_new : List String → String → ProjectionIntent → List ProjectionIntent
  if_new seen t intent = if includes seen t then [] else intent ∷ []

  -- The loop of `recordParticipants`; `seen` holds the tournaments that have their intent.
  unfoldable pub participant_items : List String → List Item → List ProjectionIntent
  participant_items seen [] = []
  participant_items seen (i ∷ is) =
      let rest = participant_items (if tid i == "" then seen else tid i ∷ seen) is in
      if_named (tid i)
        (if_new seen (tid i) (participants (tid i)) ++ name_intents (tid i) i.participants)
      ++ rest

  -- The loop of the recorders that push one intent for each tournament.
  unfoldable pub once_each :
      (String → ProjectionIntent) → List String → List Item → List ProjectionIntent
  once_each intent seen [] = []
  once_each intent seen (i ∷ is) =
      let rest = once_each intent (if tid i == "" then seen else tid i ∷ seen) is in
      if_named (tid i) (if_new seen (tid i) (intent (tid i))) ++ rest

  abbrev pub draws : Item → List ProjectionIntent
  draws i =
      if_both (tid i) (or_text i.draw_definition_id i.draw_id)
        (draw (tid i) (or_text i.draw_definition_id i.draw_id) ∷ [])

  abbrev pub scheduling_profiles : Item → List ProjectionIntent
  scheduling_profiles i = if_named (tid i) (scheduling_profile (tid i) i.scheduling_profile ∷ [])

  abbrev pub seed_structures : Item → List ProjectionIntent
  seed_structures i = if_both (tid i) i.structure_id (seeds (tid i) i.structure_id ∷ [])

  abbrev pub delete_events : Item → List ProjectionIntent
  delete_events i = if_named (tid i) (map (λ e. delete_event (tid i) e) (nonempty i.event_ids))

  abbrev pub claim_of : String → String → Option OtherId → List ProjectionIntent
  claim_of t participant none = []
  claim_of t participant (some o) =
      if participant == "" || o.person_id == ""
      then []
      else claim_person t participant o.person_id ∷ []

  abbrev pub person_claims : String → Item → List ProjectionIntent
  person_claims canonical i = if_named (tid i) (
      flat_map
        (λ (p : Participant).
          claim_of (tid i) p.participant_id
            (find (λ (o : OtherId). o.organisation_id == canonical) p.person_other_ids))
        i.participants)

  abbrev pub republish : String → String → List ProjectionIntent
  republish own event_id =
      if_both (tid_of scope own) event_id (republish_event (tid_of scope own) event_id ∷ [])

  abbrev pub venue_of : String → Option Venue → List ProjectionIntent
  venue_of t none = []
  venue_of t (some v) = if_both t v.venue_id (venue t v ∷ [])

  abbrev pub venues : Item → List ProjectionIntent
  venues i = venue_of (tid i) i.venue

  abbrev pub delete_venues : Item → List ProjectionIntent
  delete_venues i = if_both (tid i) i.venue_id (delete_venue (tid i) i.venue_id ∷ [])

  abbrev pub delete_draws : Item → List ProjectionIntent
  delete_draws i = if_both (tid i) i.draw_id (delete_draw (tid i) i.draw_id ∷ [])

  abbrev if_some : List String → List ProjectionIntent → List ProjectionIntent
  if_some ids intents = if is_empty ids then [] else intents

  abbrev pub deleted_match_ups : Item → List ProjectionIntent
  deleted_match_ups i =
      if_named (tid i) (if_some i.match_up_ids (delete_match_ups (tid i) i.match_up_ids ∷ []))

  abbrev pub deleted_participants : Item → List ProjectionIntent
  deleted_participants i =
      if_named (tid i)
        (if_some i.participant_ids (delete_participants (tid i) i.participant_ids ∷ []))

  abbrev pub audit_events : String → Item → List ProjectionIntent
  audit_events action i = if_named (tid i) (
      flat_map
        (λ (e : AuditEntry).
          if is_skipped action e then [] else delete_event (tid i) (audited_event e) ∷ [])
        i.detail)
