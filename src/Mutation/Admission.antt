-- ===== src/Mutation/Admission.antt =====
-- What a mutation that passes the gate is known to satisfy, and which ones pass.
use competition_factory_serv.Prelude.{
  String, ◌==◌, ◌≡◌, refl, sym, ◌∙◌, subst, ◌↔◌, ◌⊎◌, inl, inr, true, false, Option, none, some,
  some-injective, List, [], ◌∷◌, arith, All, Bool-cases,
}
use competition_factory_serv.Access.Context.{UserContext, Tournament}
use competition_factory_serv.Access.Tournament.{can_mutate_tournament}
use competition_factory_serv.Access.Provider.{acting_provider_allows}
use competition_factory_serv.Mutation.Target.{Method}
use competition_factory_serv.Mutation.Services.{
  Services, Read, read_threw, unreadable, read_value, cleared, and_then-cleared, authorization_view,
  get_assigned_roles,
}
use competition_factory_serv.Mutation.Scope.{check_grant_scope}
use competition_factory_serv.Mutation.Gate.{acts_for, round, tournament_denial, gate_loop, gate}
use competition_factory_serv.Mutation.Permitted.{IsNamed, AllAllowed, denied_by_none, permitted_iff}

module _ (s : Services) where
  acts_of_super :
      (ctx : UserContext) (org : Option String)
      → ctx.is_super_admin ≡ true
      → acts_for s ctx org ≡ true
  acts_of_super ctx none h = h
  acts_of_super ctx (some p) h = simp h

  acting_of_acts :
      (ctx : UserContext) (org : Option String)
      → acts_for s ctx org ≡ true
      → (ctx.is_super_admin ≡ true)
        ⊎ ((p : String) × (org ≡ some p)
            × ((p == "") ≡ false)
            × (acting_provider_allows (some ctx) p ≡ true))
  acting_of_acts ctx none h = inl h
  acting_of_acts ctx (some p) h = elim (Bool-cases ctx.is_super_admin) [
    | inl e ↦ inl e
    | inr e ↦ inr (p, refl, ground arith, ground arith)
  ]

  -- What the gate promises of one tournament that it can read.
  module _ (ctx : UserContext) (requested : List String) (methods : List Method) where
    pub record Admits (t : Tournament) (tid : String) : Type 0 where
      pub acting :
          (ctx.is_super_admin ≡ true)
          ⊎ ((p : String) × (t.organisation_id ≡ some p)
              × ((p == "") ≡ false)
              × (acting_provider_allows (some ctx) p ≡ true))
      pub mutates :
          can_mutate_tournament s.upper s.scoping t
            (some ctx)
            (get_assigned_roles s ctx.user_id)
            requested
          ≡ true
      pub in_scope : check_grant_scope s tid t ctx methods ≡ cleared
      pub permitted :
          (ctx.is_super_admin ≡ true)
          ⊎ ((requested ≡ [])
              ⊎ ((p : String) × (t.organisation_id ≡ some p) × AllAllowed s p requested))

    -- The view of the tournament is read without a throw, and admitted if there is one.
    abbrev pub Clears : Read Tournament → String → Type 0
    Clears read_threw tid = ⊥
    Clears unreadable tid = Unit {0}
    Clears (read_value t) tid = Admits t tid

    module _ (named : All IsNamed requested) where
      tournament_denial-Admits :
          (t : Tournament) (tid : String)
          → tournament_denial s ctx requested methods (get_assigned_roles s ctx.user_id) t tid
            ≡ cleared
          → Admits t tid
      unfolding tournament_denial
      tournament_denial-Admits t tid h =
          let (a, b, c, d) =
            denied_by_none s (acts_for s ctx t.organisation_id)
              (can_mutate_tournament s.upper s.scoping t (some ctx)
                (get_assigned_roles s ctx.user_id) requested)
              (check_grant_scope s tid t ctx methods) _ h in
          record {
            acting = acting_of_acts ctx t.organisation_id a;
            mutates = b;
            in_scope = c;
            permitted = elim (acting_of_acts ctx t.organisation_id a) [
              | inl e ↦ inl e
              | inr (p, o, n, _) ↦
                  elim ((permitted_iff s ctx.is_super_admin p requested named n).0 (rw o at d)) [
                    | inl e ↦ inl e
                    | inr (inl e) ↦ inr (inl e)
                    | inr (inr k) ↦ inr (inr (p, o, k))
                  ]
            ];
          }

      Admits-tournament_denial :
          (t : Tournament) (tid : String)
          → Admits t tid
          → tournament_denial s ctx requested methods (get_assigned_roles s ctx.user_id) t tid
            ≡ cleared
      unfolding tournament_denial
      Admits-tournament_denial t tid h = elim h.acting [
        | inl e ↦ simp (acts_of_super ctx t.organisation_id e, h.mutates, h.in_scope, e)
        | inr (p, o, n, a) ↦
            let acts : acts_for s ctx t.organisation_id ≡ true = simp o (ground (arith, n, a)) in
            let allowed : (ctx.is_super_admin ≡ true)
                ⊎ ((requested ≡ []) ⊎ AllAllowed s p requested) =
              elim h.permitted [
                | inl e ↦ inl e
                | inr (inl e) ↦ inr (inl e)
                | inr (inr (q, oq, k)) ↦ inr (
                    inr (subst (λ x. AllAllowed s x requested) (some-injective q p (sym oq ∙ o)) k))
              ] in
            simp (acts, h.mutates, h.in_scope)
              (simp o ((permitted_iff s ctx.is_super_admin p requested named n).1 allowed))
      ]

      round_iff :
          (o : Read Tournament) (tid : String)
          → (round s ctx requested methods (get_assigned_roles s ctx.user_id) o tid ≡ cleared)
            ↔ Clears o tid
      round_iff read_threw tid = ((λ h. cc), (λ h. absurd h))
      round_iff unreadable tid = ((λ _. tt), (λ _. refl))
      round_iff (read_value t) tid =
          (tournament_denial-Admits t tid, Admits-tournament_denial t tid)

      gate_loop_iff :
          (tids : List String)
          → (gate_loop s ctx requested methods (get_assigned_roles s ctx.user_id) tids ≡ cleared)
            ↔ All (λ tid. Clears (authorization_view (s.fetch_updated_at tid)) tid) tids
      unfolding gate_loop
      gate_loop_iff [] = ((λ _. tt), (λ _. refl))
      gate_loop_iff (tid ∷ tids) =
          let both =
            and_then-cleared
              (round s ctx requested methods (get_assigned_roles s ctx.user_id)
                (authorization_view (s.fetch_updated_at tid)) tid)
              (gate_loop s ctx requested methods (get_assigned_roles s ctx.user_id) tids) in
          let here = round_iff (authorization_view (s.fetch_updated_at tid)) tid in
          let rest = gate_loop_iff tids in
          (
            (λ h. (here.0 (both.0 h).0, rest.0 (both.0 h).1)),
            (λ h. both.1 (here.1 h.0, rest.1 h.1)),
          )

-- For a caller with a user context, and requested methods none of which has an empty name, the gate
-- clears a mutation exactly when no read of a named tournament throws and the gate admits the mutation
-- at every one that can be read: the caller is a super-admin or the session acts for the tournament's
-- provider (there is one), the caller may change the tournament with the requested methods, the
-- granted scope clears them, and the caller is a super-admin, or no method is requested, or the
-- provider's configuration is read and its permissions allow every requested method.
pub gate_iff :
    (s : Services) (ctx : UserContext) (tids requested : List String) (methods : List Method)
    → All IsNamed requested
    → (gate s (some ctx) tids requested methods ≡ cleared)
      ↔ All
          (λ tid. Clears s ctx requested methods (authorization_view (s.fetch_updated_at tid)) tid)
          tids
unfolding gate
gate_iff s ctx tids requested methods named = gate_loop_iff s ctx requested methods named tids
