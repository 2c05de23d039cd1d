-- ===== src/Access/Associated.antt =====
-- Which providers a caller is associated with, and which one the session acts for.
use competition_factory_serv.Prelude.{
  String, ◌==◌, ◌||◌, ◌++◌, not, is_empty, if◌then◌else◌, eq_iff, ◌≡◌, refl, ap, ◌↔◌, ◌⊎◌, inl, inr,
  Bool, true, false, Option, none, some, some-injective, List, [], ◌∷◌, arith, includes, Bool-cases,
}
use competition_factory_serv.Access.Context.{UserContext}
use competition_factory_serv.Access.Calendar.{inherited}
use competition_factory_serv.Access.Provider.{
  User, acting_provider_allows, ctx_super, user_ids, acting_is, known_providers,
}

-- Membership by the legacy user object, and by the provisioner of the session.
abbrev pub IsLegacyMember : Option User → String → Type 0
IsLegacyMember none p = ⊥
IsLegacyMember (some user) p = includes user.provider_ids p ≡ true

abbrev pub IsProvisioned : Option (List String) → String → Type 0
IsProvisioned none p = ⊥
IsProvisioned (some ids) p = includes ids p ≡ true

-- The caller is associated with the provider. The legacy user's providers count where there is no user
-- context, and where the context has none of its own.
abbrev pub IsAssociated : Option User → Option UserContext → String → Type 0
IsAssociated user none p = IsLegacyMember user p
IsAssociated user (some ctx) p =
    ((includes ctx.provider_ids p ≡ true) ⊎ ((ctx.provider_ids ≡ []) × IsLegacyMember user p))
    ⊎ IsProvisioned ctx.provisioner_provider_ids p

-- The session has chosen no provider, or this one, and owes no choice.
abbrev pub ActsFor : Option UserContext → String → Type 0
ActsFor none p = Unit {0}
ActsFor (some ctx) p =
    (ctx.provider_selection_pending ≡ false)
    × ((ctx.acting_provider_id ≡ none)
        ⊎ ((ctx.acting_provider_id ≡ some "") ⊎ (ctx.acting_provider_id ≡ some p)))

legacy_iff :
    (user : Option User) (p : String) → (includes (user_ids user) p ≡ true) ↔ IsLegacyMember user p
legacy_iff none p = ((λ h. cc), (λ h. absurd h))
legacy_iff (some user) p = ((λ h. h), (λ h. h))

IsProvisioned-iff :
    (ids : Option (List String)) (p : String)
    → (includes (inherited ids) p ≡ true) ↔ IsProvisioned ids p
IsProvisioned-iff none p = ((λ h. cc), (λ h. absurd h))
IsProvisioned-iff (some ids) p = ((λ h. h), (λ h. h))

includes-append :
    (xs ys : List String) (p : String) → includes (xs ++ ys) p ≡ (includes xs p || includes ys p)
includes-append [] ys p = refl
includes-append (x ∷ xs) ys p = ground (arith, includes-append xs ys p)

or_iff : (a b : Bool) (P Q : Type 0) → (a ≡ true) ↔ P → (b ≡ true) ↔ Q → ((a || b) ≡ true) ↔ (P ⊎ Q)
or_iff true b P Q h k = ((λ _. inl (h.0 refl)), (λ _. refl))
or_iff false b P Q h k = ((λ e. inr (k.0 e)), elim [ inl e ↦ cc (h.1 e) | inr e ↦ k.1 e ])

-- The providers of the context itself, else the legacy user's.
direct_iff :
    (ids : List String) (user : Option User) (p : String)
    → (includes (if not (is_empty ids) then ids else user_ids user) p ≡ true)
      ↔ ((includes ids p ≡ true) ⊎ ((ids ≡ []) × IsLegacyMember user p))
direct_iff [] user p = (
  (λ h. inr (refl, (legacy_iff user p).0 h)),
  elim [ inl e ↦ cc | inr (e, k) ↦ (legacy_iff user p).1 k ],
)
direct_iff (x ∷ xs) user p = ((λ h. inl h), elim [ inl e ↦ e | inr (e, k) ↦ cc ])

pub IsAssociated-iff :
    (user : Option User) (ctx : Option UserContext) (p : String)
    → (includes (known_providers user ctx) p ≡ true) ↔ IsAssociated user ctx p
IsAssociated-iff user none p = legacy_iff user p
IsAssociated-iff user (some ctx) p =
    let direct : List String =
      if not (is_empty ctx.provider_ids) then ctx.provider_ids else user_ids user in
    rw (includes-append direct (inherited ctx.provisioner_provider_ids) p) (
      or_iff (includes direct p) (includes (inherited ctx.provisioner_provider_ids) p) _ _
        (direct_iff ctx.provider_ids user p) (IsProvisioned-iff ctx.provisioner_provider_ids p))

acting_is_iff :
    (o : Option String) (p : String)
    → (acting_is o p ≡ true) ↔ ((o ≡ none) ⊎ ((o ≡ some "") ⊎ (o ≡ some p)))
acting_is_iff none p = ((λ _. inl refl), (λ _. refl))
acting_is_iff (some id) p = elim (Bool-cases (id == "")) [
  | inl e ↦ ((λ _. inr (inl (ap some ((eq_iff id "").0 e)))), (λ _. rw e refl))
  | inr e ↦ (
    (λ h. inr (inr (ap some ((eq_iff id p).0 (rw e at h))))),
    elim [
      | inl k ↦ cc
      | inr (inl k) ↦ cc ((eq_iff id "").1 (some-injective id "" k), e)
      | inr (inr k) ↦ rw e ((eq_iff id p).1 (some-injective id p k))
    ],
  )
]

pub acts_iff :
    (ctx : Option UserContext) (p : String)
    → ctx_super ctx ≡ false
    → (acting_provider_allows ctx p ≡ true) ↔ ActsFor ctx p
unfolding acting_provider_allows
acts_iff none p h = ((λ _. tt), (λ _. refl))
acts_iff (some ctx) p h =
    let acting = acting_is_iff ctx.acting_provider_id p in
    elim (Bool-cases ctx.provider_selection_pending) [
      | inl e ↦ simp (h, e) ((λ k. cc), (λ k. cc k.0))
      | inr e ↦ simp (h, e) ((λ k. (refl, acting.0 k)), (λ k. acting.1 k.1))
    ]
