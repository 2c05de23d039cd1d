-- ===== src/Access/Laws.antt =====
-- What the access decisions of checkTournamentAccess.ts promise one another.
use competition_factory_serv.Prelude.{
  String, ◌==◌, eq_iff, starts_with, ◌≡◌, refl, ◌≢◌, Bool, true, false, Option, none, some, List,
  [], arith, lookup, keys,
}
use competition_factory_serv.Access.Context.{UserContext, Tournament, inherits, provider_admin}
use competition_factory_serv.Access.Tournament.{
  is_provisioner_created, get_created_by_user_id, is_assigned, can_view_tournament, full,
  classify_assignment_role, role_of, can_mutate_tournament, can_delete_tournament,
}

-- Whoever may change a tournament may see it.
pub can_view_of_can_mutate :
    (upper : String → String) (scoping : Bool) (t : Tournament) (ctx : Option UserContext)
    (roles : List (String × String)) (methods : List String)
    → can_mutate_tournament upper scoping t ctx roles methods ≡ true
    → can_view_tournament scoping t ctx (keys roles) ≡ true
unfolding can_mutate_tournament
can_view_of_can_mutate upper scoping t ctx roles methods h = ground arith

-- Whoever may delete a tournament may see it, whether access scoping is on or off.
pub can_view_of_can_delete :
    (scoping : Bool) (t : Tournament) (ctx : Option UserContext) (assigned : List String)
    → can_delete_tournament t ctx assigned ≡ true
    → can_view_tournament scoping t ctx assigned ≡ true
unfolding can_view_tournament can_delete_tournament
can_view_of_can_delete false t ctx assigned h = refl
can_view_of_can_delete true t none assigned h = cc
can_view_of_can_delete true t (some ctx) assigned h = ground arith

-- A caller who is no super-admin and has neither a role at the tournament's provider nor that
-- provider through a provisioner can, with scoping on, neither see, change nor delete it.
pub no_association_no_access :
    (upper : String → String) (t : Tournament) (ctx : UserContext) (roles : List (String × String))
    (methods assigned : List String) (p : String)
    → t.organisation_id ≡ some p
    → p ≢ ""
    → ctx.is_super_admin ≡ false
    → inherits ctx.provisioner_provider_ids p ≡ false
    → lookup ctx.provider_roles p ≡ none
    → (can_view_tournament true t (some ctx) assigned ≡ false)
      × (can_mutate_tournament upper true t (some ctx) roles methods ≡ false)
      × (can_delete_tournament t (some ctx) assigned ≡ false)
unfolding can_view_tournament can_mutate_tournament can_delete_tournament
no_association_no_access upper t ctx roles methods assigned p o n s i l = (
  simp (o, s, i, l) (ground (arith, eq_iff p "")),
  simp (o, s, i, l) (ground (arith, eq_iff p "")),
  simp (o, s, i, l) (ground (arith, eq_iff p "")),
)

-- A role at the provider other than the admin's, and no access but through it.
pub record IsDirectorAt (ctx : UserContext) (p role : String) : Type 0 where
  pub provider : (p == "") ≡ false
  pub not_super : ctx.is_super_admin ≡ false
  pub not_inherited : inherits ctx.provisioner_provider_ids p ≡ false
  pub listed : lookup ctx.provider_roles p ≡ some role
  pub real : (role == "") ≡ false
  pub not_admin : (role == provider_admin) ≡ false

role_of-nil : (id : Option String) → role_of id [] ≡ none
role_of-nil none = refl
role_of-nil (some id) = ground arith

-- A director who did not create the tournament may see and change what a provisioner created at
-- the director's provider, and may not delete it, where nothing is assigned.
pub director_runs_provisioner_created :
    (upper : String → String) (t : Tournament) (ctx : UserContext) (methods : List String)
    (p role creator : String)
    → upper "" ≡ ""
    → IsDirectorAt ctx p role
    → t.organisation_id ≡ some p
    → get_created_by_user_id t ≡ some creator
    → starts_with creator "provisioner:" ≡ true
    → (creator == ctx.user_id) ≡ false
    → (can_view_tournament true t (some ctx) [] ≡ true)
      × (can_mutate_tournament upper true t (some ctx) [] methods ≡ true)
      × (can_delete_tournament t (some ctx) [] ≡ false)
unfolding can_view_tournament can_mutate_tournament can_delete_tournament is_provisioner_created
    classify_assignment_role
director_runs_provisioner_created upper t ctx methods p role creator up d o c st own =
    (viewed, changed, kept)
  where
    unassigned : is_assigned t.tournament_id [] ≡ false
    unassigned = ground arith

    plain : classify_assignment_role upper (role_of t.tournament_id []) ≡ full
    plain = rw (role_of-nil t.tournament_id) (simp up)

    viewed : can_view_tournament true t (some ctx) [] ≡ true
    viewed =
        simp
          (
            o, d.not_super, d.not_inherited, d.listed, d.provider, d.real, d.not_admin, c, own, st,
            unassigned,
          )
          (ground arith)

    changed : can_mutate_tournament upper true t (some ctx) [] methods ≡ true
    changed =
        simp
          (
            o, d.not_super, d.not_inherited, d.listed, d.provider, d.real, d.not_admin, c, own,
            plain,
          )
          (ground (arith, st, unassigned))

    kept : can_delete_tournament t (some ctx) [] ≡ false
    kept =
        simp
          (
            o, d.not_super, d.not_inherited, d.listed, d.provider, d.real, d.not_admin, c, own,
            unassigned,
          )
          (ground arith)
