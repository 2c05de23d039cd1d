-- ===== src/Queue/Documents.antt =====
-- `documentRequestTournamentIds` of src/modules/factory/projection/participantDocumentRequests.ts.
pub mod Requested
use competition_factory_serv.Prelude.{
  String, ◌==◌, ◌≡◌, refl, sym, ap, subst, ◌∙◌, ◌↔◌, ◌⊎◌, inl, inr, Bool, true, false, not, ◌&&◌,
  ◌||◌, Option, none, some, List, [], ◌∷◌, arith, if◌then◌else◌, ◌++◌, any, Any, includes,
  includes-concat, eq_iff, eq_refl, Bool-cases, some-injective,
}
use competition_factory_serv.Access.Calendar.Sets.{set_add, includes-set_add}

pub record Intent : Type 0 where
  pub kind : String
  pub tournament_id : Option String

abbrev pub participant_intents : List String
participant_intents = "participants" ∷ "deleteParticipants" ∷ "claimPerson" ∷ []

abbrev policy_methods : List String
policy_methods = "attachPolicies" ∷ "removePolicy" ∷ []

-- The tournament that an intent makes stale.
abbrev pub stale_of : Intent → Option String
stale_of i = if includes participant_intents i.kind then i.tournament_id else none

abbrev pub add_stale : List String → Option String → List String
add_stale ids none = ids
add_stale ids (some id) = if id == "" then ids else set_add ids id

unfoldable pub add_intents : List String → List Intent → List String
add_intents ids [] = ids
add_intents ids (i ∷ is) = add_intents (add_stale ids (stale_of i)) is

unfoldable pub add_tournaments : List String → List String → List String
add_tournaments ids [] = ids
add_tournaments ids (t ∷ ts) = add_tournaments (set_add ids t) ts

abbrev name_or_empty : Option String → String
name_or_empty none = ""
name_or_empty (some name) = name

abbrev pub is_policy : Option String → Bool
is_policy name = includes policy_methods (name_or_empty name)

unfoldable pub document_request_tournament_ids :
    List Intent → List (Option String) → List String → List String
unfolding add_intents add_tournaments
document_request_tournament_ids intents names tournament_ids =
    if any is_policy names
    then add_tournaments (add_intents [] intents) tournament_ids
    else add_intents [] intents
