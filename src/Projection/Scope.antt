-- ===== src/Projection/Scope.antt =====
-- From the notices of a mutation to the tournaments that its deltas are about.
use competition_factory_serv.Prelude.{
  String, ◌==◌, ◌≡◌, refl, ◌⊎◌, inl, inr, true, false, List, [], ◌∷◌, All, any, includes,
  Bool-cases, eq_refl, arith,
}
use competition_factory_serv.Projection.Recorders.{sole}
use competition_factory_serv.Projection.Recorders.Calls.{
  Recording, own_ids, record_into, create_delta_buffer,
}
use competition_factory_serv.Projection.Recorders.Scoped.{Named, record_into-About}
use competition_factory_serv.Projection.Rows.{Records, Toolkit}
use competition_factory_serv.Projection.Group.{group}
use competition_factory_serv.Projection.Group.Named.{group-IsNamed}
use competition_factory_serv.Projection.Build.{build_projection_deltas}
use competition_factory_serv.Projection.Build.Discovered.{deltas_of-Named}
use competition_factory_serv.Projection.Build.Ids.{IsNamed-ids}

-- A tournament with an id that a call's items name, or the mutation's only one.
abbrev pub InScope : List String → List Recording → String → Type 0
InScope scope rs t =
    ((t == "") ≡ false) × ((any (λ r. includes (own_ids r) t) rs ≡ true) ⊎ (sole scope ≡ t))

module _ (scope : List String) (all : List Recording) where
  tid-InScope :
      (own : String)
      → any (λ r. includes (own_ids r) own) all ≡ true
      → Named (InScope scope all) scope own
  tid-InScope own named nonempty = elim (Bool-cases (own == "")) [
    | inl e ↦ rw e ((rw e at nonempty), inr refl)
    | inr e ↦ rw e ((rw e at nonempty), inl named)
  ]

  ids-InScope :
      (ids : List String)
      → ((t : String) → includes ids t ≡ true → any (λ r. includes (own_ids r) t) all ≡ true)
      → All (Named (InScope scope all) scope) ids
  ids-InScope [] h = tt
  ids-InScope (i ∷ is) h =
      (tid-InScope i (h i (rw (eq_refl i) refl)), ids-InScope is (λ t e. h t (ground (arith, e))))

  recordings-InScope :
      (rs : List Recording)
      → ((t : String)
          → any (λ r. includes (own_ids r) t) rs ≡ true
          → any (λ r. includes (own_ids r) t) all ≡ true)
      → All (λ r. All (Named (InScope scope all) scope) (own_ids r)) rs
  recordings-InScope [] h = tt
  recordings-InScope (r ∷ rs) h = (
    ids-InScope (own_ids r) (λ t e. h t (ground (arith, e))),
    recordings-InScope rs (λ t e. h t (ground (arith, e))),
  )

-- A mutation of some tournaments makes a buffer, and its notices are recorded in any order. Then every
-- delta that is built of them is of a tournament with an id, which an item of the notices names or
-- which is the mutation's only tournament.
pub build_projection_deltas-InScope :
    (k : Toolkit) (records : Records) (scope : List String) (rs : List Recording)
    → All
        (λ d. InScope scope rs d.tournament_id)
        (build_projection_deltas k records (record_into (create_delta_buffer scope) rs).intents)
unfolding build_projection_deltas
build_projection_deltas-InScope k records scope rs =
    let about =
      record_into-About (InScope scope rs) scope (create_delta_buffer scope) rs refl
        (recordings-InScope scope rs rs (λ t e. e)) tt in
    let g = group (record_into (create_delta_buffer scope) rs).intents records in
    let named = group-IsNamed (InScope scope rs) records _ about in
    deltas_of-Named (InScope scope rs) k records g named (IsNamed-ids (InScope scope rs) g named)
