-- ===== src/Grants/Service/Created.antt =====
-- When a grant is created.
use competition_factory_serv.Prelude.{
  ℕ, String, ◌==◌, ◌≡◌, ◌⊎◌, true, false, Option, some, [], ◌∷◌, ◌++◌,
}
use competition_factory_serv.Access.Context.{UserContext}
use competition_factory_serv.Grants.Validation.{to_instant}
use competition_factory_serv.Grants.Validation.Sound.{IsCapability, IsScope, IsLiveWindow}
use competition_factory_serv.Grants.Service.{
  Host, CreateGrantParams, Table, Answer, refused, granted, revoked, is_provider_admin_for,
  resolve_provider_id, new_row,
}

-- An error, and the table as it was.
abbrev pub IsRefusal : Table → Answer × Table → Type 0
IsRefusal table (refused message, after) = after ≡ table
IsRefusal table (granted id, after) = ⊥
IsRefusal table (revoked done, after) = ⊥

module _ (h : Host) where
  -- The caller administers the provider that owns the tournament.
  abbrev pub MayAsk : CreateGrantParams → Option UserContext → Type 0
  MayAsk p grantor =
      ((p.tournament_id == "") ≡ false)
      × ((p.user_email == "") ≡ false)
      × ((resolve_provider_id h p.tournament_id == "") ≡ false)
      × (is_provider_admin_for grantor (resolve_provider_id h p.tournament_id) ≡ true)

  -- What the grant says can be honoured.
  abbrev pub IsInOrder : CreateGrantParams → ℕ → Type 0
  IsInOrder p now =
      IsCapability h.rules p.capability
      × (IsScope h.rules p.scope
          × IsLiveWindow h.rules (to_instant h.rules p.not_before) (to_instant h.rules p.not_after)
              now)

  -- The email is that of a user with an id who belongs to the provider.
  abbrev pub IsGrantee : CreateGrantParams → String → Type 0
  IsGrantee p grantee =
      (h.user p.user_email ≡ some (some grantee))
      × ((grantee == "") ≡ false)
      × (h.is_associated grantee (resolve_provider_id h p.tournament_id) ≡ true)

  abbrev pub MayGrant : CreateGrantParams → Option UserContext → ℕ → String → Type 0
  MayGrant p grantor now grantee = MayAsk p grantor × IsInOrder p now × IsGrantee p grantee

  abbrev pub IsOutcome :
      CreateGrantParams → Option UserContext → ℕ → String → Table → Answer × Table → Type 0
  IsOutcome p grantor now id table a =
      ((grantee : String) × MayGrant p grantor now grantee
        × (a ≡ (granted id, table ++ new_row h p grantor grantee id ∷ [])))
      ⊎ (((grantee : String) → ¬ MayGrant p grantor now grantee) × IsRefusal table a)
