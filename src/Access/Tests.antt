-- ===== src/Access/Tests.antt =====
-- Concrete sessions and tournaments at which the access theorems apply.
use competition_factory_serv.Prelude.{
  String, ◌==◌, ◌≡◌, refl, ◌↔◌, ◌⊎◌, ◌≢◌, true, false, none, some, List, [], ◌∷◌, All, filter, keys,
  if◌then◌else◌, truthy,
}
use competition_factory_serv.Access.Context.{UserContext, Extension, Tournament}
use competition_factory_serv.Access.Tournament.{
  can_view_tournament, can_mutate_tournament, can_delete_tournament, get_created_by_user_id,
  set_created_by_user_id, is_provisioner_created,
}
use competition_factory_serv.Access.Provider.{session_provider_id, check_provider}
use competition_factory_serv.Access.Calendar.{
  Entry, CalendarQuery, scope_calendar_for_user, build_calendar_scope, matching_rows, where_clauses,
  visibility, ownership, split_roles,
}
use competition_factory_serv.Access.Calendar.Sets.{to_set}
use competition_factory_serv.Access.Calendar.Parity.{
  IsRow, is_requested, matching_rows-scope_calendar_for_user,
}
use competition_factory_serv.Access.Creator.{others, get-set_created_by_user_id}
use competition_factory_serv.Access.Laws.{IsDirectorAt, no_association_no_access}
use competition_factory_serv.Access.Assigned.{IsAssignedAs, scorer_mutates_iff, observer_deletes}
use competition_factory_serv.Access.Session.{IsSuperAdmin, IsAllowed, check_provider_iff}

-- The runtime's upper case, on the spellings used here.
abbrev upper : String → String
upper s = if s == "scorer" then "SCORER" else if s == "observer" then "OBSERVER" else s

abbrev session : List (String × String) → UserContext
session roles = record {
  user_id = "u1";
  email = "u1@example.org";
  is_super_admin = false;
  global_roles = [];
  provider_roles = roles;
  provider_ids = keys roles;
  provisioner_provider_ids = none;
  acting_provider_id = none;
  provider_selection_pending = false;
  contact_email = none;
  email_verified_at = none;
}

abbrev directing : UserContext
directing = session (("club", "DIRECTOR") ∷ [])

abbrev stranger : UserContext
stranger = session []

abbrev by : String → Extension
by id = record { name = "createdByUserId"; value = some id }

abbrev cup : String → Tournament
cup creator = record {
  tournament_id = some "t1";
  organisation_id = some "club";
  extensions = record { name = "other"; value = some "x" } ∷ by creator ∷ [];
}

director_IsDirectorAt : IsDirectorAt directing "club" "DIRECTOR"
director_IsDirectorAt = record {
  provider = refl;
  not_super = refl;
  not_inherited = refl;
  listed = refl;
  real = refl;
  not_admin = refl;
}

assigned_as :
    (role kind : String)
    → upper role ≡ kind
    → IsAssignedAs upper (cup "u2") directing (("t1", role) ∷ []) kind
unfolding get_created_by_user_id
assigned_as role kind e = record {
  p = "club";
  role = "DIRECTOR";
  id = "t1";
  assigned_role = role;
  director = director_IsDirectorAt;
  provided = refl;
  not_own = refl;
  identified = refl;
  named = refl;
  assigned = refl;
  spelled = e;
}

abbrev club : String
club = "club"

club_named : club ≢ ""
club_named e = cc

no_association_no_access_example :
    (can_view_tournament true (cup "u2") (some stranger) ("t1" ∷ []) ≡ false)
    × (can_mutate_tournament upper true
          (cup "u2")
          (some stranger)
          (("t1", "scorer") ∷ [])
          ("setMatchUpStatus" ∷ [])
        ≡ false)
    × (can_delete_tournament (cup "u2") (some stranger) ("t1" ∷ []) ≡ false)
no_association_no_access_example =
    no_association_no_access upper (cup "u2") stranger (("t1", "scorer") ∷ [])
      ("setMatchUpStatus" ∷ []) ("t1" ∷ []) "club" refl club_named refl refl refl

abbrev batch : List String
batch = "setMatchUpStatus" ∷ "deleteDraw" ∷ []

scorer_mutates_iff_example :
    (can_view_tournament true (cup "u2") (some directing) ("t1" ∷ []) ≡ true)
    × ((can_mutate_tournament upper true (cup "u2") (some directing) (("t1", "scorer") ∷ []) batch
          ≡ true)
        ↔ ((batch ≢ []) × All (λ m. m ≡ "setMatchUpStatus") batch))
scorer_mutates_iff_example =
    scorer_mutates_iff upper (cup "u2") directing (("t1", "scorer") ∷ []) batch
      (assigned_as "scorer" "SCORER" refl)

observer_deletes_example :
    (can_view_tournament true (cup "u2") (some directing) ("t1" ∷ []) ≡ true)
    × (can_mutate_tournament upper true
          (cup "u2")
          (some directing)
          (("t1", "observer") ∷ [])
          ("setMatchUpStatus" ∷ [])
        ≡ false)
    × (can_delete_tournament (cup "u2") (some directing) ("t1" ∷ []) ≡ true)
observer_deletes_example =
    observer_deletes upper (cup "u2") directing (("t1", "observer") ∷ []) ("setMatchUpStatus" ∷ [])
      (assigned_as "observer" "OBSERVER" refl)

provisioned_creator : get_created_by_user_id (cup "provisioner:p9") ≡ some "provisioner:p9"
unfolding get_created_by_user_id
provisioned_creator = refl

own_deletes : can_delete_tournament (cup "u1") (some directing) [] ≡ true
unfolding can_delete_tournament get_created_by_user_id
own_deletes = refl

own_mutates :
    can_mutate_tournament upper true (cup "u1") (some directing) [] ("addEvent" ∷ []) ≡ true
unfolding can_mutate_tournament can_view_tournament get_created_by_user_id
own_mutates = refl

abbrev recreated : Tournament
recreated = record {
  tournament_id = some "t1";
  organisation_id = some "club";
  extensions = record { name = "other"; value = some "x" } ∷ by "u1" ∷ [];
}

recreates : set_created_by_user_id (some (cup "forged")) (some "u1") ≡ some recreated
unfolding set_created_by_user_id
recreates = refl

get-set_created_by_user_id_example :
    (get_created_by_user_id recreated ≡ some "u1")
    × (others recreated.extensions ≡ others (cup "forged").extensions)
    × (recreated.tournament_id ≡ (cup "forged").tournament_id)
    × (recreated.organisation_id ≡ (cup "forged").organisation_id)
get-set_created_by_user_id_example =
    get-set_created_by_user_id (cup "forged") recreated (some "u1") recreates

check_provider_iff_example : (check_provider (cup "u2" ∷ []) none (some directing) true ≡ true) ↔ (
    IsSuperAdmin none (some directing)
    ⊎ All (λ t. IsAllowed none (some directing) true t.organisation_id) (cup "u2" ∷ []))
check_provider_iff_example = check_provider_iff (cup "u2" ∷ []) none (some directing) true

stamps : session_provider_id (some directing) ≡ some "club"
unfolding session_provider_id
stamps = refl

abbrev row : String → String → Entry
row id creator = record {
  tournament_id = some id;
  provider_id = some "club";
  created_by_user_id = some creator;
  published = true;
}

abbrev rows : List Entry
rows = row "t1" "u1" ∷ row "t2" "u2" ∷ row "t3" "provisioner:p9" ∷ []

abbrev query : CalendarQuery
query = record {
  provider_ids = "club" ∷ [];
  scope = build_calendar_scope true (some directing) [];
  published_only = false;
  limit = 50;
  offset = 0;
}

row-IsRow : (id creator : String) → truthy (some id) ≡ true → IsRow (row id creator)
row-IsRow id creator h = record { has_tournament = h; has_provider = refl }

matching_rows-scope_calendar_for_user_example :
    matching_rows query rows
    ≡ filter (is_requested query) (scope_calendar_for_user true rows (some directing) [])
matching_rows-scope_calendar_for_user_example =
    matching_rows-scope_calendar_for_user true (some directing) [] query rows refl (refl, tt)
      (
        row-IsRow "t1" "u1" refl,
        (row-IsRow "t2" "u2" refl, (row-IsRow "t3" "provisioner:p9" refl, tt)),
      )

-- The director sees what the director created and what a provisioner created.
matching_rows_test : matching_rows query rows ≡ row "t1" "u1" ∷ row "t3" "provisioner:p9" ∷ []
unfolding matching_rows where_clauses visibility ownership build_calendar_scope split_roles to_set
    is_provisioner_created
matching_rows_test = refl
