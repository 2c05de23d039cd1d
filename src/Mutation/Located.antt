-- ===== src/Mutation/Located.antt =====
-- Where a matchUp is found in a structure and the structures inside it.
use competition_factory_serv.Prelude.{
  String, ◌≡◌, refl, true, false, ◌⊎◌, inl, inr, Option, none, some, List, [], ◌∷◌, All, Any,
  Bool-cases,
}
use competition_factory_serv.Mutation.Target.{
  MatchUp, Structure, structure, Structures, nil, cons, Found, has_id, find_match_up,
  find_in_structure, find_in_structures, ◌<|>◌,
}

-- The matchUp stands in the structure, or in one of its descendants, whose id is recorded.
abbrev mutual
  pub Holds : Structure → Found → Type 0
  Holds (structure sid ms children) f =
      ((f.structure_id ≡ sid) × Any (λ m. m ≡ f.match_up) ms) ⊎ HoldsAny children f

  pub HoldsAny : Structures → Found → Type 0
  HoldsAny nil f = ⊥
  HoldsAny (cons s ss) f = Holds s f ⊎ HoldsAny ss f

abbrev mutual
  pub Lacks : Structure → String → Type 0
  Lacks (structure sid ms children) id = All (λ m. has_id id m ≡ false) ms × LacksAll children id

  pub LacksAll : Structures → String → Type 0
  LacksAll nil id = Unit {0}
  LacksAll (cons s ss) id = Lacks s id × LacksAll ss id

abbrev pub IsSearch : Option Found → (Found → Type 0) → String → Type 0 → Type 0
IsSearch r P id Q =
    ((f : Found) × (r ≡ some f) × P f × (has_id id f.match_up ≡ true)) ⊎ ((r ≡ none) × Q)

find_match_up_lem :
    (sid : Option String) (ms : List MatchUp) (id : String)
    → IsSearch
        (find_match_up sid ms id)
        (λ f. (f.structure_id ≡ sid) × Any (λ m. m ≡ f.match_up) ms)
        id
        (All (λ m. has_id id m ≡ false) ms)
unfolding find_match_up
find_match_up_lem sid [] id = inr (refl, tt)
find_match_up_lem sid (m ∷ ms) id = elim (Bool-cases (has_id id m)) [
  | inl h ↦ inl (record { match_up = m; structure_id = sid }, rw h, (refl, inl refl), h)
  | inr h ↦ elim (find_match_up_lem sid ms id) [
    | inl (f, e, (s, a), t) ↦ inl (f, rw h e, (s, inr a), t)
    | inr (e, l) ↦ inr (rw h e, (h, l))
  ]
]

<|>-IsSearch :
    (a b : Option Found) (P Q R : Found → Type 0) (id : String) (L M N : Type 0)
    → ((f : Found) → P f → R f)
    → ((f : Found) → Q f → R f)
    → (L → M → N)
    → IsSearch a P id L
    → IsSearch b Q id M
    → IsSearch (a <|> b) R id N
<|>-IsSearch a b P Q R id L M N p q n (inl (f, e, h, t)) s = inl (f, rw e, p f h, t)
<|>-IsSearch a b P Q R id L M N p q n (inr (e, l)) (inl (f, d, h, t)) = inl (f, rw e d, q f h, t)
<|>-IsSearch a b P Q R id L M N p q n (inr (e, l)) (inr (d, m)) = inr (rw e d, n l m)

mutual
  unfolding find_in_structure find_in_structures

  pub search_structure :
      (s : Structure) (id : String) → IsSearch (find_in_structure s id) (Holds s) id (Lacks s id)
  search_structure (structure sid ms children) id =
      <|>-IsSearch (find_match_up sid ms id) (find_in_structures children id) _ _ _ id _ _ _
        (λ f h. inl h) (λ f h. inr h) (λ l m. (l, m)) (find_match_up_lem sid ms id)
        (search_structures children id)

  pub search_structures :
      (ss : Structures) (id : String)
      → IsSearch (find_in_structures ss id) (HoldsAny ss) id (LacksAll ss id)
  search_structures nil id = inr (refl, tt)
  search_structures (cons s ss) id =
      <|>-IsSearch (find_in_structure s id) (find_in_structures ss id) _ _ _ id _ _ _ (λ f h. inl h)
        (λ f h. inr h) (λ l m. (l, m)) (search_structure s id) (search_structures ss id)
