-- ===== src/Grants/Service/Owned.antt =====
-- Who may change the grants at a provider.
use competition_factory_serv.Prelude.{
  ℕ, String, ◌==◌, ◌≡◌, refl, ◌∙◌, inl, inr, true, false, Option, none, some, List, [], ◌∷◌, ◌++◌,
  arith, filter, Bool-cases, Option-cases, All, eq_iff,
}
use competition_factory_serv.Access.Context.{UserContext}
use competition_factory_serv.Grants.Service.{
  Host, CreateGrantParams, TournamentGrantRow, Table, Request, create_grant, revoke_grant,
  is_provider_admin_for, find_by_id, delete_row, resolve_provider_id, invalid, new_row,
  create_for_user, create_if_valid, create, revoke, handle_all,
}

abbrev pub caller_of : Request → Option UserContext
caller_of (create_grant p grantor now id) = grantor
caller_of (revoke_grant id grantor) = grantor

-- The grants at a provider.
abbrev pub grants_at : String → Table → Table
grants_at provider table = filter (λ row. row.provider_id == provider) table

grants_at-append :
    (provider : String) (table : Table) (row : TournamentGrantRow)
    → (row.provider_id == provider) ≡ false
    → grants_at provider (table ++ row ∷ []) ≡ grants_at provider table
grants_at-append provider [] row h = rw h refl
grants_at-append provider (r ∷ rs) row h = ground (arith, grants_at-append provider rs row h)

grants_at-delete_row :
    (provider id : String) (table : Table) (row : TournamentGrantRow)
    → find_by_id id table ≡ some row
    → (row.provider_id == provider) ≡ false
    → grants_at provider (delete_row id table) ≡ grants_at provider table
unfolding delete_row
grants_at-delete_row provider id [] row f h = refl
grants_at-delete_row provider id (r ∷ rs) row f h = elim (Bool-cases (r.grant_id == id)) [
  | inl e ↦ ground (arith, f, h, e)
  | inr e ↦ ground (arith, f, h, e, grants_at-delete_row provider id rs row)
]

differs :
    (c : Option UserContext) (p q : String)
    → is_provider_admin_for c p ≡ false
    → is_provider_admin_for c q ≡ true
    → (q == p) ≡ false
differs c p q outsider admin = elim (Bool-cases (q == p)) [
  | inr e ↦ e
  | inl e ↦ absurd (cc (outsider, admin, (eq_iff q p).0 e))
]

module _ (h : Host) where
  create-keeps_others :
      (provider : String) (p : CreateGrantParams) (grantor : Option UserContext) (now : ℕ)
      (id : String) (table : Table)
      → is_provider_admin_for grantor provider ≡ false
      → grants_at provider (create h p grantor now id table).1 ≡ grants_at provider table
  unfolding create
  create-keeps_others provider p grantor now id table o =
      elim (Bool-cases (p.tournament_id == "")) [
        | inl a ↦ rw a refl
        | inr a ↦ elim (Bool-cases (p.user_email == "")) [
          | inl b ↦ rw (a, b) refl
          | inr b ↦ elim (Bool-cases (resolve_provider_id h p.tournament_id == "")) [
            | inl c ↦ rw (a, b, c) refl
            | inr c ↦
                elim (Bool-cases
                  (is_provider_admin_for grantor (resolve_provider_id h p.tournament_id))) [
                    | inr d ↦ rw (a, b, c, d) refl
                    | inl d ↦ rw (a, b, c, d) (valid d (invalid h p now))
                  ]
          ]
        ]
      ]
    where
      for_user :
          is_provider_admin_for grantor (resolve_provider_id h p.tournament_id) ≡ true
          → (u : Option (Option String))
          → grants_at provider (create_for_user h p grantor id table u).1 ≡ grants_at provider table
      for_user d none = refl
      for_user d (some none) = refl
      for_user d (some (some g)) = elim (Bool-cases (g == "")) [
        | inl e ↦ rw e refl
        | inr e ↦ elim (Bool-cases (h.is_associated g (resolve_provider_id h p.tournament_id))) [
          | inr f ↦ rw (e, f) refl
          | inl f ↦
              rw (e, f)
                (grants_at-append provider table (new_row h p grantor g id)
                  (differs grantor provider _ o d))
        ]
      ]

      valid :
          is_provider_admin_for grantor (resolve_provider_id h p.tournament_id) ≡ true
          → (v : Option String)
          → grants_at provider (create_if_valid h p grantor id table v).1 ≡ grants_at provider table
      valid d none = for_user d (h.user p.user_email)
      valid d (some m) = refl

  revoke-keeps_others :
      (provider id : String) (grantor : Option UserContext) (table : Table)
      → is_provider_admin_for grantor provider ≡ false
      → grants_at provider (revoke h id grantor table).1 ≡ grants_at provider table
  unfolding revoke
  revoke-keeps_others provider id grantor table o = elim (Bool-cases (h.rules.is_uuid id)) [
    | inr u ↦ rw u refl
    | inl u ↦ elim (Option-cases (find_by_id id table)) [
      | inl f ↦ rw (u, f) refl
      | inr (row, f) ↦ elim (Bool-cases (is_provider_admin_for grantor row.provider_id)) [
        | inr a ↦ rw (u, f, a) refl
        | inl a ↦
            rw (u, f, a)
              (grants_at-delete_row provider id table row f
                (differs grantor provider row.provider_id o a))
      ]
    ]
  ]

  -- Whatever grants are created and revoked, by callers none of whom administers a provider, the
  -- grants at that provider are afterwards the same, in the same order.
  pub handle_all-keeps_others :
      (provider : String) (qs : List Request) (table : Table)
      → All (λ q. is_provider_admin_for (caller_of q) provider ≡ false) qs
      → grants_at provider (handle_all h table qs) ≡ grants_at provider table
  unfolding handle_all
  handle_all-keeps_others provider [] table o = refl
  handle_all-keeps_others provider (create_grant p grantor now id ∷ qs) table (o, os) =
      handle_all-keeps_others provider qs _ os
      ∙ create-keeps_others provider p grantor now id table o
  handle_all-keeps_others provider (revoke_grant id grantor ∷ qs) table (o, os) =
      handle_all-keeps_others provider qs _ os ∙ revoke-keeps_others provider id grantor table o
