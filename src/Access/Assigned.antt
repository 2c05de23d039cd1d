-- ===== src/Access/Assigned.antt =====
-- What an assignment row lets its user do: the role classification of checkTournamentAccess.ts.
use competition_factory_serv.Prelude.{
  String, ◌==◌, eq_iff, ◌≡◌, refl, ◌∙◌, ◌↔◌, ◌≢◌, true, false, some, List, [], ◌∷◌, arith, All, all,
  includes, lookup, keys,
}
use competition_factory_serv.Access.Context.{UserContext, Tournament}
use competition_factory_serv.Access.Tournament.{
  get_created_by_user_id, is_own, scorer, can_view_tournament, classify_assignment_role,
  class_allows, scorer_allowed_methods, can_mutate_tournament, can_delete_tournament,
}
use competition_factory_serv.Access.Laws.{IsDirectorAt}

includes-keys :
    (m : List (String × String)) (k v : String) → lookup m k ≡ some v → includes (keys m) k ≡ true
includes-keys [] k v h = cc
includes-keys ((j, w) ∷ m) k v h = ground (arith, includes-keys m k v)

all-scoring :
    (methods : List String)
    → all (λ m. includes scorer_allowed_methods m) methods ≡ true
    → All (λ m. m ≡ "setMatchUpStatus") methods
all-scoring [] h = tt
all-scoring (m ∷ methods) h =
    (ground (arith, eq_iff "setMatchUpStatus" m), all-scoring methods (ground arith))

scoring-all :
    (methods : List String)
    → All (λ m. m ≡ "setMatchUpStatus") methods
    → all (λ m. includes scorer_allowed_methods m) methods ≡ true
scoring-all [] h = refl
scoring-all (m ∷ methods) (h, hs) = rw (h, scoring-all methods hs)

class_allows-scorer_iff :
    (methods : List String)
    → (class_allows scorer methods ≡ true)
      ↔ ((methods ≢ []) × All (λ m. m ≡ "setMatchUpStatus") methods)
class_allows-scorer_iff [] = ((λ h. cc), (λ h. absurd (h.0 refl)))
class_allows-scorer_iff (m ∷ methods) =
    ((λ h. ((λ e. cc), all-scoring (m ∷ methods) h)), (λ h. scoring-all (m ∷ methods) h.1))

-- Reaching the tournament as a director with an assignment row, and in no other way.
pub record IsAssignedAs (upper : String → String) (t : Tournament) (ctx : UserContext)
    (roles : List (String × String)) (kind : String) : Type 0 where
  pub p : String
  pub role : String
  pub id : String
  pub assigned_role : String
  pub director : IsDirectorAt ctx p role
  pub provided : t.organisation_id ≡ some p
  pub not_own : is_own (get_created_by_user_id t) ctx.user_id ≡ false
  pub identified : t.tournament_id ≡ some id
  pub named : (id == "") ≡ false
  pub assigned : lookup roles id ≡ some assigned_role
  pub spelled : upper assigned_role ≡ kind

can_view-assigned :
    (upper : String → String) (t : Tournament) (ctx : UserContext) (roles : List (String × String))
    (kind : String)
    → IsAssignedAs upper t ctx roles kind
    → can_view_tournament true t (some ctx) (keys roles) ≡ true
unfolding can_view_tournament
can_view-assigned upper t ctx roles kind a =
    let d = a.director in
    simp (
      a.provided,
      d.not_super,
      d.not_inherited,
      d.listed,
      d.provider,
      d.real,
      d.not_admin,
      a.not_own,
      a.identified,
      a.named,
      includes-keys roles a.id a.assigned_role a.assigned,
    )

can_mutate-assigned :
    (upper : String → String) (t : Tournament) (ctx : UserContext) (roles : List (String × String))
    (kind : String) (methods : List String) (a : IsAssignedAs upper t ctx roles kind)
    → can_mutate_tournament upper true t (some ctx) roles methods
      ≡ class_allows (classify_assignment_role upper (some a.assigned_role)) methods
unfolding can_mutate_tournament
can_mutate-assigned upper t ctx roles kind methods a =
    let d = a.director in
    simp (
      can_view-assigned upper t ctx roles kind a,
      a.provided,
      d.not_super,
      d.not_inherited,
      d.listed,
      d.provider,
      d.not_admin,
      a.not_own,
      a.identified,
      a.named,
      a.assigned,
    )

module _ (upper : String → String) (t : Tournament) (ctx : UserContext)
    (roles : List (String × String)) (methods : List String) where
  -- A director whose only way to the tournament is a SCORER assignment may see it, and may change
  -- it exactly when methods are named and all of them are `setMatchUpStatus`.
  pub scorer_mutates_iff :
      IsAssignedAs upper t ctx roles "SCORER"
      → (can_view_tournament true t (some ctx) (keys roles) ≡ true)
        × ((can_mutate_tournament upper true t (some ctx) roles methods ≡ true)
            ↔ ((methods ≢ []) × All (λ m. m ≡ "setMatchUpStatus") methods))
  unfolding classify_assignment_role
  scorer_mutates_iff a = (
    can_view-assigned upper t ctx roles "SCORER" a,
    rw (can_mutate-assigned upper t ctx roles "SCORER" methods a, a.spelled)
        (class_allows-scorer_iff methods),
  )

  -- One whose only way is an OBSERVER assignment may see the tournament and change nothing, and yet
  -- may delete it where the deleting caller passes the assigned tournaments.
  pub observer_deletes :
      IsAssignedAs upper t ctx roles "OBSERVER"
      → (can_view_tournament true t (some ctx) (keys roles) ≡ true)
        × (can_mutate_tournament upper true t (some ctx) roles methods ≡ false)
        × (can_delete_tournament t (some ctx) (keys roles) ≡ true)
  unfolding classify_assignment_role can_delete_tournament
  observer_deletes a = (
    can_view-assigned upper t ctx roles "OBSERVER" a,
    can_mutate-assigned upper t ctx roles "OBSERVER" methods a ∙ simp a.spelled,
    let d = a.director in
        simp (
          a.provided,
          d.not_super,
          d.not_inherited,
          d.listed,
          d.provider,
          d.real,
          d.not_admin,
          a.not_own,
          a.identified,
          a.named,
          includes-keys roles a.id a.assigned_role a.assigned,
        ),
  )
