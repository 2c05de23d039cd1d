-- ===== src/Access/Session.antt =====
-- Which tournaments a session may read and write through the provider gate.
use competition_factory_serv.Prelude.{
  String, ◌==◌, eq_iff, eq_refl, ◌≡◌, refl, sym, subst, ◌↔◌, ◌⊎◌, inl, inr, Bool, true, false,
  Option, none, some, some-injective, List, [], ◌∷◌, arith, All, includes, Bool-cases, Option-cases,
}
use competition_factory_serv.Access.Context.{UserContext, Tournament}
use competition_factory_serv.Access.Provider.{
  User, acting_provider_allows, session_provider_id, ctx_super, user_super, known_providers, passes,
  check_records, check_provider,
}
use competition_factory_serv.Access.Associated.{IsAssociated, ActsFor, IsAssociated-iff, acts_iff}

abbrev pub IsSuperContext : Option UserContext → Type 0
IsSuperContext none = ⊥
IsSuperContext (some ctx) = ctx.is_super_admin ≡ true

abbrev pub IsSuperUser : Option User → Type 0
IsSuperUser none = ⊥
IsSuperUser (some user) = includes user.roles "superadmin" ≡ true

-- By the context or by the legacy user.
abbrev pub IsSuperAdmin : Option User → Option UserContext → Type 0
IsSuperAdmin user ctx = IsSuperContext ctx ⊎ IsSuperUser user

-- A record that the gate lets through: without a provider for a read only, else of a provider that
-- the caller is associated with and the session acts for.
abbrev pub IsAllowed : Option User → Option UserContext → Bool → Option String → Type 0
IsAllowed user ctx write org =
    (((org ≡ none) ⊎ (org ≡ some "")) × (write ≡ false))
    ⊎ ((p : String) × (org ≡ some p)
        × ((p == "") ≡ false)
        × IsAssociated user ctx p
        × ActsFor ctx p)

passed_unscoped :
    (p : String) (user : Option User) (ctx : Option UserContext) (ids : List String) (write : Bool)
    → (p == "") ≡ true
    → IsAllowed user ctx write (some p)
    → passes (some p) ctx ids write ≡ true
passed_unscoped p user ctx ids write e (inl h) = ground (arith, h.1)
passed_unscoped p user ctx ids write e (inr (q, o, n, i, a)) = cc (some-injective p q o)

passed_scoped :
    (p : String) (user : Option User) (ctx : Option UserContext) (write : Bool)
    → ctx_super ctx ≡ false
    → (p == "") ≡ false
    → IsAllowed user ctx write (some p)
    → passes (some p) ctx (known_providers user ctx) write ≡ true
passed_scoped p user ctx write s e (inl (inl o, w)) = cc
passed_scoped p user ctx write s e (inl (inr o, w)) = cc (some-injective p "" o, eq_refl "")
passed_scoped p user ctx write s e (inr (q, o, n, i, a)) =
    let same : q ≡ p = sym (some-injective p q o) in
    let member = (IsAssociated-iff user ctx p).1 (subst (λ x. IsAssociated user ctx x) same i) in
    let acts = (acts_iff ctx p s).1 (subst (λ x. ActsFor ctx x) same a) in rw (e, member, acts) refl

passes_iff :
    (org : Option String) (user : Option User) (ctx : Option UserContext) (write : Bool)
    → ctx_super ctx ≡ false
    → (passes org ctx (known_providers user ctx) write ≡ true) ↔ IsAllowed user ctx write org
passes_iff none user ctx write s = ((λ h. inl (inl refl, ground arith)), (λ h. ground arith))
passes_iff (some p) user ctx write s = elim (Bool-cases (p == "")) [
  | inl e ↦ (
    (λ h. inl (inr (rw ((eq_iff p "").0 e)), ground arith)),
    (λ h. passed_unscoped p user ctx (known_providers user ctx) write e h),
  )
  | inr e ↦ (
    (λ h.
        let member : includes (known_providers user ctx) p ≡ true = ground arith in
        let acts : acting_provider_allows ctx p ≡ true = ground arith in
        inr (p, refl, e, (IsAssociated-iff user ctx p).0 member, (acts_iff ctx p s).0 acts)),
    (λ h. passed_scoped p user ctx write s e h),
  )
]

check_records_iff :
    (records : List Tournament) (user : Option User) (ctx : Option UserContext) (write : Bool)
    → ctx_super ctx ≡ false
    → (check_records records ctx (known_providers user ctx) write ≡ true)
      ↔ All (λ t. IsAllowed user ctx write t.organisation_id) records
unfolding check_records
check_records_iff [] user ctx write s = ((λ h. tt), (λ h. refl))
check_records_iff (t ∷ ts) user ctx write s =
    let here = passes_iff t.organisation_id user ctx write s in
    let later = check_records_iff ts user ctx write s in
    ((λ h. (here.0 (ground arith), later.0 (ground arith))), (λ h. rw (here.1 h.0) (later.1 h.1)))

IsSuperContext-iff : (ctx : Option UserContext) → (ctx_super ctx ≡ true) ↔ IsSuperContext ctx
IsSuperContext-iff none = ((λ h. cc), (λ h. absurd h))
IsSuperContext-iff (some ctx) = ((λ h. h), (λ h. h))

IsSuperUser-iff : (user : Option User) → (user_super user ≡ true) ↔ IsSuperUser user
IsSuperUser-iff none = ((λ h. cc), (λ h. absurd h))
IsSuperUser-iff (some user) = ((λ h. h), (λ h. h))

-- The provider gate lets a batch of records through exactly when the user context or the legacy user
-- is a super-admin, or each record is allowed: one without a provider only to a read; any other only
-- if the caller is associated with its provider (by the context's providers, by the legacy user's
-- where there is no context or it has none, or by the context's provisioner) and the session owes no
-- choice of a provider and has chosen none or this one.
pub check_provider_iff :
    (records : List Tournament) (user : Option User) (ctx : Option UserContext) (write : Bool)
    → (check_provider records user ctx write ≡ true)
      ↔ (IsSuperAdmin user ctx ⊎ All (λ t. IsAllowed user ctx write t.organisation_id) records)
unfolding check_provider
check_provider_iff records user ctx write =
    let context = IsSuperContext-iff ctx in
    let legacy = IsSuperUser-iff user in
    elim (Bool-cases (ctx_super ctx)) [
      | inl a ↦ rw a ((λ h. inl (inl (context.0 a))), (λ h. refl))
      | inr a ↦ elim (Bool-cases (user_super user)) [
        | inl b ↦ rw (a, b) ((λ h. inl (inr (legacy.0 b))), (λ h. refl))
        | inr b ↦
            let each = check_records_iff records user ctx write a in
            rw (a, b)
              (
                (λ h. inr (each.0 h)),
                elim [
                  | inl (inl k) ↦ cc (context.1 k, a)
                  | inl (inr k) ↦ cc (legacy.1 k, b)
                  | inr k ↦ each.1 k
                ],
              )
      ]
    ]

-- What a session stamps it may write: the provider that it acts for passes its own provider scope.
pub acting_provider_allows-session :
    (ctx : Option UserContext) (p : String)
    → session_provider_id ctx ≡ some p
    → acting_provider_allows ctx p ≡ true
unfolding session_provider_id acting_provider_allows
acting_provider_allows-session none p h = refl
acting_provider_allows-session (some ctx) p h = elim (Option-cases ctx.acting_provider_id) [
  | inl e ↦ ground (arith, e)
  | inr (a, e) ↦ ground (arith, e, eq_iff a p, eq_refl p)
]
