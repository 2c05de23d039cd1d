-- ===== src/Projection/Recorders/Calls.antt =====
-- The calls of the recorders in one mutation.
use competition_factory_serv.Prelude.{
  String, Option, none, some, List, [], ◌∷◌, ◌++◌, map, flat_map,
}
use competition_factory_serv.Projection.Intents.{
  ProjectionIntent, entries, events, order_of_play, participant_publish, DeltaBuffer,
}
use competition_factory_serv.Projection.Recorders.{
  Item, add_match_ups, add_draw, position_assignments, match_up_results, touch, participant_items,
  once_each, draws, scheduling_profiles, seed_structures, delete_events, person_claims, republish,
  venues, delete_venues, delete_draws, deleted_match_ups, deleted_participants, audit_events,
}

-- A call of one of the recorders. `entry_items` is `recordEntries`, and so on.
pub data Recording : Type 0 where
  add_match_up_items add_draw_items position_items result_items touch_items : List Item → Recording
  participant_items_of entry_items draw_items order_of_play_items publish_items :
      List Item → Recording
  profile_items seed_items event_items delete_event_items : List Item → Recording
  venue_items delete_venue_items delete_draw_items : List Item → Recording
  delete_match_up_items delete_participant_items : List Item → Recording
  claim_items audit_items : String → List Item → Recording
  republish_item : String → String → Recording

abbrev item_ids : List Item → List String
item_ids is = map (λ (i : Item). i.tournament_id) is

-- The tournaments that a call's items name.
abbrev pub own_ids : Recording → List String
own_ids (add_match_up_items is) = item_ids is
own_ids (add_draw_items is) = item_ids is
own_ids (position_items is) = item_ids is
own_ids (result_items is) = item_ids is
own_ids (touch_items is) = item_ids is
own_ids (participant_items_of is) = item_ids is
own_ids (entry_items is) = item_ids is
own_ids (draw_items is) = item_ids is
own_ids (order_of_play_items is) = item_ids is
own_ids (publish_items is) = item_ids is
own_ids (profile_items is) = item_ids is
own_ids (seed_items is) = item_ids is
own_ids (event_items is) = item_ids is
own_ids (delete_event_items is) = item_ids is
own_ids (venue_items is) = item_ids is
own_ids (delete_venue_items is) = item_ids is
own_ids (delete_draw_items is) = item_ids is
own_ids (delete_match_up_items is) = item_ids is
own_ids (delete_participant_items is) = item_ids is
own_ids (claim_items canonical is) = item_ids is
own_ids (audit_items action is) = item_ids is
own_ids (republish_item own event_id) = own ∷ []

abbrev pub intents_of : List String → Recording → List ProjectionIntent
intents_of s (add_match_up_items is) = flat_map (add_match_ups s) is
intents_of s (add_draw_items is) = flat_map (add_draw s) is
intents_of s (position_items is) = flat_map (position_assignments s) is
intents_of s (result_items is) = flat_map (match_up_results s) is
intents_of s (touch_items is) = flat_map (touch s) is
intents_of s (participant_items_of is) = participant_items s [] is
intents_of s (entry_items is) = once_each s entries [] is
intents_of s (draw_items is) = flat_map (draws s) is
intents_of s (order_of_play_items is) = once_each s order_of_play [] is
intents_of s (publish_items is) = once_each s participant_publish [] is
intents_of s (profile_items is) = flat_map (scheduling_profiles s) is
intents_of s (seed_items is) = flat_map (seed_structures s) is
intents_of s (event_items is) = once_each s events [] is
intents_of s (delete_event_items is) = flat_map (delete_events s) is
intents_of s (venue_items is) = flat_map (venues s) is
intents_of s (delete_venue_items is) = flat_map (delete_venues s) is
intents_of s (delete_draw_items is) = flat_map (delete_draws s) is
intents_of s (delete_match_up_items is) = flat_map (deleted_match_ups s) is
intents_of s (delete_participant_items is) = flat_map (deleted_participants s) is
intents_of s (claim_items canonical is) = flat_map (person_claims s canonical) is
intents_of s (audit_items action is) = flat_map (audit_events s action) is
intents_of s (republish_item own event_id) = republish s own event_id

unfoldable pub record_into : DeltaBuffer → List Recording → DeltaBuffer
unfolding participant_items once_each
record_into b [] = b
record_into b (r ∷ rs) =
    record_into (record b { intents = b.intents ++ intents_of b.tournament_ids r }) rs

-- Without a buffer every recorder does nothing.
unfoldable pub record_all : Option DeltaBuffer → List Recording → Option DeltaBuffer
unfolding record_into
record_all none rs = none
record_all (some b) rs = some (record_into b rs)

abbrev pub create_delta_buffer : List String → DeltaBuffer
create_delta_buffer tournament_ids = record { intents = []; tournament_ids = tournament_ids }
