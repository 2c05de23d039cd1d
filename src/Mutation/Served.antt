-- ===== src/Mutation/Served.antt =====
-- When the live grants of a caller cover one method of a batch, and all of them.
use competition_factory_serv.Prelude.{
  String, ◌≡◌, refl, sym, ap, subst, ◌↔◌, ◌⊎◌, inl, inr, Bool, true, false, ◌&&◌, ◌||◌, Option,
  none, some, some-injective, List, [], ◌∷◌, ◌++◌, arith, if◌then◌else◌, any, Any, All, Bool-cases,
  List-cases,
}
use competition_factory_serv.Mutation.Target.{
  Method, Target, Event, target_from_params, enrich_target_from_record,
}
use competition_factory_serv.Mutation.Services.{
  Services, Grant, Read, read_threw, unreadable, read_value, cleared, and_then-cleared,
}
use competition_factory_serv.Mutation.Scope.{
  name_of, flat_fields, completed, target_of, applicable_grants, covered_at, scope_denial,
  check_methods, live_grants, check_live,
}

of_three_or :
    (w c i r : Bool) (P : Type 0)
    → (r ≡ true → P)
    → ((w && (c && i)) || r) ≡ true
    → (((w ≡ true) × (c ≡ true)) × (i ≡ true)) ⊎ P
of_three_or true true true r P f h = inl ((refl, refl), refl)
of_three_or true true false r P f h = inr (f h)
of_three_or true false i r P f h = inr (f h)
of_three_or false c i r P f h = inr (f h)

to_three_or :
    (w c i r : Bool) (P : Type 0)
    → (P → r ≡ true)
    → (((w ≡ true) × (c ≡ true)) × (i ≡ true)) ⊎ P
    → ((w && (c && i)) || r) ≡ true
to_three_or w c i r P f (inl ((a, b), d)) = rw (a, b, d) refl
to_three_or w c i r P f (inr k) = let e = f k in ground (arith, e)

module _ (s : Services) where
  -- The grant is inside its window and names the method.
  abbrev pub Serves : Method → Grant s.Scope → Type 0
  Serves m g =
      (s.is_within_window g ≡ true) × (s.grant_covers_method g.capability (name_of m) ≡ true)

  -- The fields of the target that the scopes of the serving grants look at.
  abbrev pub needed : List (Grant s.Scope) → Method → List String
  needed [] m = []
  needed (g ∷ gs) m =
      if s.is_within_window g && s.grant_covers_method g.capability (name_of m)
      then s.required_target_fields g.scope ++ needed gs m
      else needed gs m

  -- The events that a read of the record gives; a read that throws gives nothing.
  abbrev pub IsReadAs : Read (List Event) → List Event → Type 0
  IsReadAs read_threw events = ⊥
  IsReadAs unreadable events = events ≡ []
  IsReadAs (read_value found) events = events ≡ found

  -- The method's own parameters where no field is needed, else completed from the record.
  abbrev pub IsTarget : String → List String → Method → Target → Type 0
  IsTarget record_id [] m t = t ≡ target_from_params m
  IsTarget record_id (f ∷ fs) m t =
      (events : List Event) × IsReadAs (s.fetch_record record_id) events
      × (t ≡ enrich_target_from_record (target_from_params m) events (f ∷ fs))

  -- A serving grant has the target of the method in its scope.
  abbrev pub IsCovered : String → List (Grant s.Scope) → Method → Type 0
  IsCovered record_id grants m =
      (t : Target) × IsTarget record_id (needed grants m) m t
      × Any (λ g. Serves m g × (s.is_target_in_scope g.scope t ≡ true)) grants

  flat_fields-needed :
      (grants : List (Grant s.Scope)) (m : Method)
      → flat_fields s (applicable_grants s (live_grants s grants) m) ≡ needed grants m
  flat_fields-needed [] m = refl
  flat_fields-needed (g ∷ gs) m = elim (Bool-cases (s.is_within_window g)) [
    | inr w ↦ simp w (flat_fields-needed gs m)
    | inl w ↦ elim (Bool-cases (s.grant_covers_method g.capability (name_of m))) [
      | inl c ↦
          simp (w, c) (ap (λ fs. s.required_target_fields g.scope ++ fs) (flat_fields-needed gs m))
      | inr c ↦ simp (w, c) (flat_fields-needed gs m)
    ]
  ]

  any-cons :
      (g : Grant s.Scope) (gs : List (Grant s.Scope)) (m : Method) (t : Target)
      → any (λ a. s.is_target_in_scope a.scope t) (applicable_grants s (live_grants s (g ∷ gs)) m)
        ≡ ((s.is_within_window g
              && (s.grant_covers_method g.capability (name_of m) && s.is_target_in_scope g.scope t))
            || any (λ a. s.is_target_in_scope a.scope t) (applicable_grants s (live_grants s gs) m))
  any-cons g gs m t = elim (Bool-cases (s.is_within_window g)) [
    | inr w ↦ simp w refl
    | inl w ↦ elim (Bool-cases (s.grant_covers_method g.capability (name_of m))) [
      | inl c ↦ simp (w, c) refl
      | inr c ↦ simp (w, c) refl
    ]
  ]

  any_iff :
      (grants : List (Grant s.Scope)) (m : Method) (t : Target)
      → (any (λ g. s.is_target_in_scope g.scope t) (applicable_grants s (live_grants s grants) m)
          ≡ true)
        ↔ Any (λ g. Serves m g × (s.is_target_in_scope g.scope t ≡ true)) grants
  any_iff [] m t = ((λ h. cc), (λ h. absurd h))
  any_iff (g ∷ gs) m t = rw (any-cons g gs m t) (
    of_three_or (s.is_within_window g) (s.grant_covers_method g.capability (name_of m))
        (s.is_target_in_scope g.scope t) _ _ (any_iff gs m t).0,
    to_three_or (s.is_within_window g) (s.grant_covers_method g.capability (name_of m))
        (s.is_target_in_scope g.scope t) _ _ (any_iff gs m t).1,
  )

  completed_iff :
      (record_id : String) (f : String) (fs : List String) (m : Method) (t : Target)
      → (completed s (target_from_params m) (s.fetch_record record_id) (f ∷ fs) ≡ some t)
        ↔ IsTarget record_id (f ∷ fs) m t
  completed_iff record_id f fs m t = go (s.fetch_record record_id)
    where
      go :
          (r : Read (List Event))
          → (completed s (target_from_params m) r (f ∷ fs) ≡ some t) ↔ (
              (events : List Event) × IsReadAs r events
              × (t ≡ enrich_target_from_record (target_from_params m) events (f ∷ fs)))
      go read_threw = ((λ h. cc), (λ h. absurd h.1))
      go unreadable =
          ((λ h. ([], refl, sym (some-injective _ t h))), (λ (events, e, h). rw (h, e) refl))
      go (read_value found) =
          ((λ h. (found, refl, sym (some-injective _ t h))), (λ (events, e, h). rw (h, e) refl))

  target_of_iff :
      (record_id : String) (applicable : List (Grant s.Scope)) (fields : List String) (m : Method)
      (t : Target)
      → flat_fields s applicable ≡ fields
      → (target_of s record_id applicable m ≡ some t) ↔ IsTarget record_id fields m t
  unfolding target_of
  target_of_iff record_id applicable [] m t e =
      rw e ((λ h. sym (some-injective _ t h)), (λ h. rw h refl))
  target_of_iff record_id applicable (f ∷ fs) m t e = rw e (completed_iff record_id f fs m t)

  scope_denial_iff :
      (record_id : String) (app : List (Grant s.Scope)) (m : Method)
      → (scope_denial s record_id app m ≡ cleared) ↔ (
          (t : Target) × (target_of s record_id app m ≡ some t)
          × (any (λ g. s.is_target_in_scope g.scope t) app ≡ true))
  scope_denial_iff record_id [] m = ((λ h. cc), (λ h. cc h.2))
  scope_denial_iff record_id (g ∷ gs) m = go (target_of s record_id (g ∷ gs) m)
    where
      go :
          (o : Option Target)
          → (covered_at s o g gs m ≡ cleared) ↔ (
              (t : Target) × (o ≡ some t)
              × (any (λ a. s.is_target_in_scope a.scope t) (g ∷ gs) ≡ true))
      go none = ((λ h. cc), (λ h. cc h.1))
      go (some t) = elim (Bool-cases (any (λ a. s.is_target_in_scope a.scope t) (g ∷ gs))) [
        | inl h ↦ ((λ _. (t, refl, h)), (λ _. rw h refl))
        | inr h ↦ (
          (λ e. cc (rw h at e)),
          (λ (u, e, k).
              let k' : any (λ a. s.is_target_in_scope a.scope t) (g ∷ gs) ≡ true =
                subst (λ x. any (λ a. s.is_target_in_scope a.scope x) (g ∷ gs) ≡ true)
                  (sym (some-injective t u e)) k in
              cc),
        )
      ]

  IsCovered-iff :
      (record_id : String) (grants : List (Grant s.Scope)) (m : Method)
      → (scope_denial s record_id (applicable_grants s (live_grants s grants) m) m ≡ cleared)
        ↔ IsCovered record_id grants m
  IsCovered-iff record_id grants m =
      let app : List (Grant s.Scope) = applicable_grants s (live_grants s grants) m in
      let denial = scope_denial_iff record_id app m in
      let target : (t : Target) → _ =
        λ t. target_of_iff record_id app (needed grants m) m t (flat_fields-needed grants m) in
      (
        (λ h. let (t, e, k) = denial.0 h in (t, (target t).0 e, (any_iff grants m t).0 k)),
        (λ (t, e, k). denial.1 (t, (target t).1 e, (any_iff grants m t).1 k)),
      )

  check_methods_iff :
      (record_id : String) (grants : List (Grant s.Scope)) (methods : List Method)
      → (check_methods s record_id (live_grants s grants) methods ≡ cleared)
        ↔ All (IsCovered record_id grants) methods
  unfolding check_methods
  check_methods_iff record_id grants [] = ((λ _. tt), (λ _. refl))
  check_methods_iff record_id grants (m ∷ ms) =
      let first = IsCovered-iff record_id grants m in
      let rest = check_methods_iff record_id grants ms in
      let both =
        and_then-cleared (scope_denial s record_id (applicable_grants s (live_grants s grants) m) m)
          (check_methods s record_id (live_grants s grants) ms) in
      ((λ h. (first.0 (both.0 h).0, rest.0 (both.0 h).1)), (λ h. both.1 (first.1 h.0, rest.1 h.1)))

  -- Where no grant is live no method is covered.
  pub check_live_iff :
      (record_id : String) (grants : List (Grant s.Scope)) (m : Method) (ms : List Method)
      → (check_live s record_id grants (live_grants s grants) (m ∷ ms) ≡ cleared)
        ↔ All (IsCovered record_id grants) (m ∷ ms)
  check_live_iff record_id grants m ms = elim (List-cases (live_grants s grants)) [
    | inl e ↦ (
      (λ h. cc (rw e at h)),
      (λ h. let (t, _, k) = h.0 in absurd (ground (arith, rw e at ((any_iff grants m t).1 k)))),
    )
    | inr (g, gs, e) ↦
        let same : check_live s record_id grants (live_grants s grants) (m ∷ ms)
            ≡ check_methods s record_id (live_grants s grants) (m ∷ ms) =
          rw e refl in
        rw same (check_methods_iff record_id grants (m ∷ ms))
  ]
