-- ===== src/Mutation/Permitted.antt =====
-- When a provider's permissions allow the requested methods, and a denial is none.
use competition_factory_serv.Prelude.{
  String, ◌==◌, ◌≡◌, refl, sym, subst, ◌↔◌, ◌⊎◌, inl, inr, Bool, true, false, not, ◌||◌, Option,
  none, some, some-injective, List, [], ◌∷◌, if◌then◌else◌, is_empty, find, all, All, Bool-cases,
}
use competition_factory_serv.Mutation.Services.{Services, Check, cleared, check_threw, denied}
use competition_factory_serv.Mutation.Scope.{Denial}
use competition_factory_serv.Mutation.Gate.{
  blocked, blocked_at, permissions_of, permission_denial, denial_message,
  check_provider_permission_gate, not_authorized,
}

abbrev pub IsNamed : String → Type 0
IsNamed m = (m == "") ≡ false

module _ (s : Services) where
  -- The provider's configuration is read without a throw, and its permissions allow every method.
  abbrev pub AllAllowed : String → List String → Type 0
  AllAllowed p requested =
      (config : s.Config × s.Config) × (s.provider_config p ≡ some config)
      × (all (λ m. s.is_mutation_allowed m (permissions_of s config)) requested ≡ true)

  blocked-find_iff :
      (p : String → Bool) (xs : List String)
      → All IsNamed xs
      → (blocked s (find (λ x. not (p x)) xs) ≡ cleared) ↔ (all p xs ≡ true)
  blocked-find_iff p [] n = ((λ _. refl), (λ _. refl))
  blocked-find_iff p (x ∷ xs) (n, ns) = elim (Bool-cases (p x)) [
    | inl h ↦ rw h (blocked-find_iff p xs ns)
    | inr h ↦ rw (h, n) ((λ e. cc), (λ e. cc))
  ]

  blocked_at_iff :
      (o : Option (s.Config × s.Config)) (requested : List String)
      → All IsNamed requested
      → (blocked_at s o requested ≡ cleared) ↔ (
          (config : s.Config × s.Config) × (o ≡ some config)
          × (all (λ m. s.is_mutation_allowed m (permissions_of s config)) requested ≡ true))
  blocked_at_iff none requested named = ((λ h. cc), (λ h. cc h.1))
  blocked_at_iff (some config) requested named =
      let find =
        blocked-find_iff (λ m. s.is_mutation_allowed m (permissions_of s config)) requested named in
      (
        (λ h. (config, refl, find.0 h)),
        (λ (other, e, h). find.1 (
            subst (λ c. all (λ m. s.is_mutation_allowed m (permissions_of s c)) requested ≡ true)
              (sym (some-injective config other e)) h)),
      )

  pub denied_by_none :
      (acts changes : Bool) (scope : Check Denial) (rest : Check String)
      → (if not acts
          then denied not_authorized
          else if not changes
          then denied not_authorized
          else denial_message s scope rest)
        ≡ cleared
      → (acts ≡ true) × (changes ≡ true) × (scope ≡ cleared) × (rest ≡ cleared)
  denied_by_none false changes scope rest h = cc
  denied_by_none true false scope rest h = cc
  denied_by_none true true cleared rest h = (refl, refl, refl, h)
  denied_by_none true true check_threw rest h = cc
  denied_by_none true true (denied d) rest h = cc

  permission_denial-cleared : (o : Check String) → (permission_denial s o ≡ cleared) ↔ (o ≡ cleared)
  permission_denial-cleared cleared = ((λ _. refl), (λ _. refl))
  permission_denial-cleared check_threw = ((λ h. cc), (λ h. cc))
  permission_denial-cleared (denied m) = ((λ h. cc), (λ h. cc))

  -- Who asks for nothing, and a super-admin, need no permission of the provider.
  pub permitted_iff :
      (super : Bool) (p : String) (requested : List String)
      → All IsNamed requested
      → (p == "") ≡ false
      → ((if super || is_empty requested
            then cleared
            else permission_denial s (check_provider_permission_gate s (some p) requested))
          ≡ cleared)
        ↔ ((super ≡ true) ⊎ ((requested ≡ []) ⊎ AllAllowed p requested))
  unfolding check_provider_permission_gate
  permitted_iff true p requested named n = ((λ _. inl refl), (λ _. refl))
  permitted_iff false p [] named n = ((λ _. inr (inl refl)), (λ _. refl))
  permitted_iff false p (m ∷ ms) named n =
      let at = blocked_at_iff (s.provider_config p) (m ∷ ms) named in
      let message = permission_denial-cleared (blocked_at s (s.provider_config p) (m ∷ ms)) in
      rw n (
        (λ h. inr (inr (at.0 (message.0 h)))),
        elim [ inl e ↦ cc | inr (inl e) ↦ cc | inr (inr h) ↦ message.1 (at.1 h) ],
      )
