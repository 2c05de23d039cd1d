-- ===== src/Mutation/Coverage.antt =====
-- When the granted scopes of a caller let a batch of methods through.
use competition_factory_serv.Prelude.{
  String, ◌==◌, ◌≡◌, refl, sym, subst, ◌↔◌, ◌⊎◌, inl, inr, true, false, Option, none, some,
  some-injective, List, [], ◌∷◌, arith, truthy, All, Bool-cases,
}
use competition_factory_serv.Access.Context.{UserContext, Tournament}
use competition_factory_serv.Mutation.Target.{Method}
use competition_factory_serv.Mutation.Services.{Services, Grant, cleared}
use competition_factory_serv.Mutation.Scope.{check_grants, check_scope_at, check_grant_scope}
use competition_factory_serv.Mutation.Served.{IsCovered, check_live_iff}

module _ (s : Services) where
  -- What the caller's grants on the tournament say of a batch: they cannot be read, or there are none,
  -- or each method is covered.
  abbrev pub IsHeld : String → Option (List (Grant s.Scope)) → List Method → Type 0
  IsHeld record_id held methods =
      (held ≡ none)
      ⊎ ((held ≡ some [])
          ⊎ ((grants : List (Grant s.Scope)) × (held ≡ some grants)
              × All (IsCovered s record_id grants) methods))

  check_grants_iff :
      (record_id : String) (held : Option (List (Grant s.Scope))) (m : Method) (ms : List Method)
      → (check_grants s record_id held (m ∷ ms) ≡ cleared) ↔ IsHeld record_id held (m ∷ ms)
  check_grants_iff record_id none m ms = ((λ _. inl refl), (λ _. refl))
  check_grants_iff record_id (some []) m ms = ((λ _. inr (inl refl)), (λ _. refl))
  check_grants_iff record_id (some (g ∷ gs)) m ms =
      let live = check_live_iff s record_id (g ∷ gs) m ms in
      (
        (λ h. inr (inr (g ∷ gs, refl, live.0 h))),
        elim [
          | inl e ↦ cc
          | inr (inl e) ↦ cc
          | inr (inr (grants, e, all)) ↦ live.1 (
              subst (λ x. All (IsCovered s record_id x) (m ∷ ms)) (sym (some-injective _ grants e))
                all)
        ],
      )

  -- The caller or the call is one that grants do not narrow.
  abbrev pub IsExempt : Tournament → UserContext → List Method → Type 0
  IsExempt t ctx methods =
      (ctx.is_super_admin ≡ true)
      ⊎ ((methods ≡ []) ⊎ ((truthy t.tournament_id ≡ false) ⊎ ((ctx.user_id == "") ≡ true)))

  check_scope_at_iff :
      (record_id : String) (o : Option String) (ctx : UserContext) (m : Method) (ms : List Method)
      → (check_scope_at s record_id o ctx (m ∷ ms) ≡ cleared) ↔ (
          (truthy o ≡ false)
          ⊎ (((ctx.user_id == "") ≡ true)
              ⊎ ((tid : String) × (o ≡ some tid)
                  × IsHeld record_id (s.grants_for_subject ctx.user_id tid) (m ∷ ms))))
  check_scope_at_iff record_id none ctx m ms = ((λ _. inl refl), (λ _. refl))
  check_scope_at_iff record_id (some tid) ctx m ms =
      let grants = check_grants_iff record_id (s.grants_for_subject ctx.user_id tid) m ms in
      elim (Bool-cases (tid == "")) [
        | inl a ↦ rw a ((λ _. inl refl), (λ _. refl))
        | inr a ↦ elim (Bool-cases (ctx.user_id == "")) [
          | inl b ↦ rw (a, b) ((λ _. inr (inl refl)), (λ _. refl))
          | inr b ↦
              rw (a, b)
                (
                  (λ h. inr (inr (tid, refl, grants.0 h))),
                  elim [
                    | inl e ↦ cc
                    | inr (inl e) ↦ cc
                    | inr (inr (u, e, held)) ↦ grants.1 (
                        subst (λ x. IsHeld record_id (s.grants_for_subject ctx.user_id x) (m ∷ ms))
                          (sym (some-injective tid u e)) held)
                  ],
                )
        ]
      ]

  -- The grant scope clears a batch of methods exactly when grants do not narrow the call (the caller
  -- is a super-admin, the batch is empty, or the tournament or the user has no id), or the caller's
  -- grants on the tournament cannot be read, or there are none, or each method is covered: a grant
  -- that is inside its window, and whose capability covers the method, has the method's target in its
  -- scope. The target is read off the method's parameters, and completed from the record, which must
  -- be read without a throw, where the scope of such a grant looks at any field.
  pub check_grant_scope_iff :
      (record_id : String) (t : Tournament) (ctx : UserContext) (methods : List Method)
      → (check_grant_scope s record_id t ctx methods ≡ cleared) ↔ (
          IsExempt t ctx methods
          ⊎ ((tid : String) × (t.tournament_id ≡ some tid)
              × IsHeld record_id (s.grants_for_subject ctx.user_id tid) methods))
  unfolding check_grant_scope
  check_grant_scope_iff record_id t ctx [] = ((λ _. inl (inr (inl refl))), (λ _. ground arith))
  check_grant_scope_iff record_id t ctx (m ∷ ms) =
      let at = check_scope_at_iff record_id t.tournament_id ctx m ms in
      elim (Bool-cases ctx.is_super_admin) [
        | inl e ↦ ((λ _. inl (inl e)), (λ _. simp e refl))
        | inr e ↦ (
          (λ h. elim (at.0 (simp e at h)) [
            | inl a ↦ inl (inr (inr (inl a)))
            | inr (inl b) ↦ inl (inr (inr (inr b)))
            | inr (inr held) ↦ inr held
          ]),
          (λ h. simp e (
              at.1 (elim h [
                | inl (inl a) ↦ cc
                | inl (inr (inl a)) ↦ cc
                | inl (inr (inr (inl a))) ↦ inl a
                | inl (inr (inr (inr b))) ↦ inr (inl b)
                | inr held ↦ inr (inr held)
              ]))),
        )
      ]
