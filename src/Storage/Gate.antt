-- ===== src/Storage/Gate.antt =====
-- modules/factory/factory.service.ts: saveTournamentRecords and gateWholesaleSave. `attach` is what
-- attachProviderPrivacyOnCreate makes of a record, by a package, and `accepts` is whether validateL2
-- and the draw integrity gate let a payload through. The lock, the receipt of a durable save, the
-- expected instants of writing and the snapshot of the projection are left out.
use competition_factory_serv.Prelude.{
  String, ◌==◌, Bool, true, not, Option, none, some, List, [], ◌∷◌, ◌++◌, map, if◌then◌else◌,
  filter, lookup, truthy,
}
use competition_factory_serv.Access.Context.{UserContext, Tournament}
use competition_factory_serv.Access.Tournament.{
  created_by_user_id, get_created_by_user_id, can_mutate_tournament,
}
use competition_factory_serv.Access.Provider.{User, check_user, check_provider}
use competition_factory_serv.Storage.{
  text, StoredExtension, TournamentRecord, access_view, StoredRow, Store, Services,
}
use competition_factory_serv.Storage.Save.{SaveFaults, SaveRun, save_tournament_records}

-- The records of a payload under their keys, with the faults that their saves meet.
abbrev pub Payload : Type 0
Payload = List (String × TournamentRecord × SaveFaults)

-- The answer of `fetchTournamentUpdatedAt`, as far as the gate reads it.
pub data Fetched : Type 0 where
  missing unreadable : Fetched
  found : TournamentRecord → Fetched

abbrev fetched : Option StoredRow → Fetched
fetched none = missing
fetched (some row) = found row.document

unfoldable pub fetch_tournament_updated_at : Bool → String → Store → Fetched
fetch_tournament_updated_at fails key s =
    if key == "" then missing else if fails then unreadable else fetched (lookup s.tournaments key)

abbrev pub creator_value : Option String → List StoredExtension
creator_value none = []
creator_value (some id) =
    if id == "" then [] else record { name = created_by_user_id; value = text id } ∷ []

unfoldable pub set_created_by : TournamentRecord → Option String → TournamentRecord
set_created_by r user_id = record r {
  extensions =
      filter (λ e. not (e.name == created_by_user_id)) r.extensions ++ creator_value user_id;
}

-- `storedRecord`: the provider is left out where it is empty.
unfoldable pub stored_view : String → TournamentRecord → Tournament
unfolding access_view
stored_view key old = record {
  tournament_id = some key;
  organisation_id = if truthy old.organisation_id then old.organisation_id else none;
  extensions = (access_view old).extensions;
}

-- What a caller brings: `roles` are the assigned roles by tournament, `legacy_id` is `user?.userId`,
-- `unreadable_keys` says where a stored record cannot be read.
pub record Caller : Type 0 where
  pub user : Option User
  pub legacy_id : Option String
  pub user_context : Option UserContext
  pub roles : List (String × String)
  pub unreadable_keys : String → Bool

abbrev pub saver : Option UserContext → Option String → Option String
saver none legacy_id = legacy_id
saver (some ctx) legacy_id = some ctx.user_id

pub data WholesaleSave : Type 0 where
  denied : String → WholesaleSave
  rejected : WholesaleSave
  ran : SaveRun → WholesaleSave

module _ (upper : String → String) (scoping : Bool) (svc : Services) where
  abbrev pub gate_found :
      UserContext
      → List (String × String)
      → String
      → Fetched
      → TournamentRecord
      → Option TournamentRecord
  gate_found ctx roles key missing r = some (set_created_by r (some ctx.user_id))
  gate_found ctx roles key unreadable r = none
  gate_found ctx roles key (found old) r =
      if can_mutate_tournament upper scoping (stored_view key old) (some ctx) roles []
      then some (set_created_by r (get_created_by_user_id (stored_view key old)))
      else none

  abbrev pub gate_cons :
      String → SaveFaults → Option TournamentRecord → Option Payload → Option Payload
  gate_cons key f none rest = none
  gate_cons key f (some r) none = none
  gate_cons key f (some r) (some rest) = some ((key, r, f) ∷ rest)

  -- `none` is the gate's error, whose text names the tournament too; a payload that passes has its
  -- creators replaced.
  unfoldable pub gate_wholesale_save : Caller → UserContext → Payload → Store → Option Payload
  unfolding fetch_tournament_updated_at set_created_by stored_view
  gate_wholesale_save c ctx [] s = some []
  gate_wholesale_save c ctx ((key, r, f) ∷ rest) s =
      gate_cons key f
        (gate_found ctx c.roles key (fetch_tournament_updated_at (c.unreadable_keys key) key s) r)
        (gate_wholesale_save c ctx rest s)

  module _ (attach : Store → TournamentRecord → TournamentRecord) (accepts : Payload → Bool) where
    abbrev pub attached : Store → Payload → Payload
    attached s [] = []
    attached s ((key, r, f) ∷ rest) = (key, attach s r, f) ∷ attached s rest

    abbrev pub validated_save : Payload → Option String → Store → WholesaleSave × Store
    validated_save payload user_id s =
        if not (accepts payload)
        then (rejected, s)
        else let (run, s') = save_tournament_records svc payload none user_id s in (ran run, s')

    abbrev pub gated_save : Option Payload → Option String → Store → WholesaleSave × Store
    gated_save none user_id s = (denied "User not allowed to modify tournament", s)
    gated_save (some payload) user_id s = validated_save (attached s payload) user_id s

    abbrev pub gate_if_context : Caller → Option UserContext → Payload → Store → Option Payload
    gate_if_context c none payload s = some payload
    gate_if_context c (some ctx) payload s = gate_wholesale_save c ctx payload s

    unfoldable pub wholesale_save : Caller → Payload → Store → WholesaleSave × Store
    unfolding check_user check_provider gate_wholesale_save
    wholesale_save c payload s =
        if not (check_user c.user c.user_context)
        then (denied "Invalid user", s)
        else if not (check_provider (map (λ e. access_view e.1) payload) c.user c.user_context true)
        then (denied "User not allowed", s)
        else gated_save (gate_if_context c c.user_context payload s)
            (saver c.user_context c.legacy_id) s
