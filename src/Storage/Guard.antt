-- ===== src/Storage/Guard.antt =====
-- A wholesale save of FactoryService.saveTournamentRecords, from its gate to the tables.
use competition_factory_serv.Prelude.{
  String, ◌==◌, ◌≡◌, refl, sym, ◌∙◌, subst, ◌⊎◌, inl, inr, Bool, true, false, Option, none, some,
  [], ◌∷◌, arith, lookup, All, Bool-cases, Option-cases, some-injective,
}
use competition_factory_serv.Access.Context.{UserContext}
use competition_factory_serv.Access.Tournament.{get_created_by_user_id, can_mutate_tournament}
use competition_factory_serv.Storage.{StoredExtension, TournamentRecord, StoredRow, Store, Services}
use competition_factory_serv.Storage.Save.{SaveFaults}
use competition_factory_serv.Storage.Gate.{
  Payload, Fetched, missing, unreadable, found, fetch_tournament_updated_at, set_created_by,
  stored_view, Caller, gate_found, gate_cons, gate_wholesale_save,
}
use competition_factory_serv.Storage.Creators.{
  creator_extension_of, written, set_created_by-written,
}

-- Each record stands under its own id.
abbrev pub IsKeyed : Payload → Type 0
IsKeyed = All (λ e. (e.1.tournament_id ≡ some e.0) × ((e.0 == "") ≡ false))

gate_cons-some :
    (upper : String → String) (scoping : Bool) (svc : Services) (key : String) (f : SaveFaults)
    (o : Option TournamentRecord) (rest : Option Payload) (out : Payload)
    → gate_cons upper scoping svc key f o rest ≡ some out
    → (r : TournamentRecord) × (tail : Payload) × (o ≡ some r)
      × (rest ≡ some tail)
      × (out ≡ (key, r, f) ∷ tail)
gate_cons-some upper scoping svc key f none rest out h = absurd (ground (arith, h))
gate_cons-some upper scoping svc key f (some r) none out h = absurd (ground (arith, h))
gate_cons-some upper scoping svc key f (some r) (some rest) out h =
    (r, rest, refl, refl, sym (some-injective _ out h))

-- What the answers of the read say of the table.
fetch-missing :
    (fails : Bool) (key : String) (s : Store)
    → (key == "") ≡ false
    → fetch_tournament_updated_at fails key s ≡ missing
    → lookup s.tournaments key ≡ none
unfolding fetch_tournament_updated_at
fetch-missing fails key s e h = elim (Option-cases (lookup s.tournaments key)) [
  | inl l ↦ l
  | inr (row, l) ↦ absurd (ground (arith, e, l, h))
]

fetch-found :
    (fails : Bool) (key : String) (s : Store) (old : TournamentRecord)
    → fetch_tournament_updated_at fails key s ≡ found old
    → (row : StoredRow) × (lookup s.tournaments key ≡ some row) × (row.document ≡ old)
unfolding fetch_tournament_updated_at
fetch-found fails key s old h = elim (Option-cases (lookup s.tournaments key)) [
  | inl l ↦ absurd (ground (arith, l, h))
  | inr (row, l) ↦ (row, l, ground (arith, l, h))
]

set_created_by-tournament_id :
    (r : TournamentRecord) (user_id : Option String)
    → (set_created_by r user_id).tournament_id ≡ r.tournament_id
unfolding set_created_by
set_created_by-tournament_id r user_id = refl

module _ (upper : String → String) (scoping : Bool) (svc : Services) (c : Caller)
    (ctx : UserContext) (s : Store) where
  -- What the gate has found in `s` for `key`, and the creator that it has written.
  abbrev pub Allowed : String → Option StoredExtension → Type 0
  Allowed key e =
      ((lookup s.tournaments key ≡ none) × (e ≡ written (some ctx.user_id)))
      ⊎ ((old : StoredRow) × (lookup s.tournaments key ≡ some old)
          × (can_mutate_tournament upper scoping (stored_view key old.document) (some ctx) c.roles
                []
              ≡ true)
          × (e ≡ written (get_created_by_user_id (stored_view key old.document))))

  abbrev pub IsGood : String → TournamentRecord → Type 0
  IsGood key r = (r.tournament_id ≡ some key) × Allowed key (creator_extension_of r)

  gate_found-IsGood :
      (key : String) (at : Fetched) (r r' : TournamentRecord)
      → r.tournament_id ≡ some key
      → (key == "") ≡ false
      → fetch_tournament_updated_at (c.unreadable_keys key) key s ≡ at
      → gate_found upper scoping svc ctx c.roles key at r ≡ some r'
      → IsGood key r'
  gate_found-IsGood key missing r r' own e f g = subst (IsGood key) (some-injective _ r' g) (
    set_created_by-tournament_id r (some ctx.user_id) ∙ own,
    inl (
      fetch-missing (c.unreadable_keys key) key s e f,
      set_created_by-written r (some ctx.user_id),
    ),
  )
  gate_found-IsGood key unreadable r r' own e f g = absurd (ground (arith, g))
  gate_found-IsGood key (found old) r r' own e f g =
      let (row, l, same) = fetch-found (c.unreadable_keys key) key s old f in
      let by : Option String = get_created_by_user_id (stored_view key old) in
      elim (Bool-cases
        (can_mutate_tournament upper scoping (stored_view key old) (some ctx) c.roles [])) [
          | inr m ↦ absurd (ground (arith, m, g))
          | inl m ↦
              let is_set : set_created_by r by ≡ r' = some-injective _ r' (ground (arith, m, g)) in
              subst (IsGood key) is_set (
                set_created_by-tournament_id r by ∙ own,
                inr (row, l, rw same m, rw same (set_created_by-written r by)),
              )
        ]

  pub gate_wholesale_save-IsGood :
      (payload out : Payload)
      → IsKeyed payload
      → gate_wholesale_save upper scoping svc c ctx payload s ≡ some out
      → All (λ e. IsGood e.0 e.1) out
  unfolding gate_wholesale_save
  gate_wholesale_save-IsGood [] out k h =
      subst (All (λ e. IsGood e.0 e.1)) (some-injective _ out h) tt
  gate_wholesale_save-IsGood ((key, r, f) ∷ rest) out ((own, e), keyed) h =
      let (r', tail, one, more, all) =
        gate_cons-some upper scoping svc key f
          (gate_found upper scoping svc ctx c.roles key
            (fetch_tournament_updated_at (c.unreadable_keys key) key s) r)
          (gate_wholesale_save upper scoping svc c ctx rest s) out h in
      subst (All (λ e. IsGood e.0 e.1)) (sym all) (
        gate_found-IsGood key (fetch_tournament_updated_at (c.unreadable_keys key) key s) r r' own e
            refl one,
        gate_wholesale_save-IsGood rest tail keyed more,
      )
