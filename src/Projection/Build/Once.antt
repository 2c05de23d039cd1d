-- ===== src/Projection/Build/Once.antt =====
-- A set holds each of its texts once.
use competition_factory_serv.Prelude.{
  ℕ, ◌+◌, ◌≤◌, String, ◌==◌, ◌≡◌, refl, subst, ◌∙◌, inl, inr, Bool, true, false, List, [], ◌∷◌,
  ◌++◌, if◌then◌else◌, includes, Bool-cases, arith, eq_iff,
}
use competition_factory_serv.Access.Calendar.Sets.{set_add, add_all, to_set, includes-to_set}

abbrev pub one_if : Bool → ℕ
one_if b = if b then 1 else 0

unfoldable pub occurrences : String → List String → ℕ
occurrences t [] = 0
occurrences t (x ∷ xs) = one_if (x == t) + occurrences t xs

occurrences-includes :
    (t : String) (xs : List String)
    → (includes xs t ≡ false → occurrences t xs ≡ 0) × (includes xs t ≡ true → 1 ≤ occurrences t xs)
unfolding occurrences
occurrences-includes t [] = ((λ h. refl), (λ h. cc))
occurrences-includes t (x ∷ xs) =
    let ih = occurrences-includes t xs in
    elim (Bool-cases (x == t)) [
      | inl e ↦ ((λ h. ground (arith, e, h)), (λ h. rw e (omega arith)))
      | inr e ↦ (
        (λ h. rw e (let z = ih.0 (ground (arith, e, h)) in omega (arith, z))),
        (λ h. rw e (let z = ih.1 (ground (arith, e, h)) in omega (arith, z))),
      )
    ]

occurrences-append :
    (t : String) (xs : List String) (x : String)
    → occurrences t (xs ++ x ∷ []) ≡ occurrences t xs + one_if (x == t)
unfolding occurrences
occurrences-append t [] x = omega arith
occurrences-append t (y ∷ xs) x = omega (arith, occurrences-append t xs x)

set_add-once :
    (t : String) (xs : List String) (x : String)
    → occurrences t xs ≤ 1
    → occurrences t (set_add xs x) ≤ 1
unfolding set_add
set_add-once t xs x h = elim (Bool-cases (includes xs x)) [
  | inl e ↦ rw e h
  | inr e ↦ elim (Bool-cases (x == t)) [
    | inr f ↦ rw e (let a = occurrences-append t xs x in ground (arith, a, f, h))
    | inl f ↦ rw e (
        let a = occurrences-append t xs x in
        let z =
          (occurrences-includes t xs).0 (subst (λ y. includes xs y ≡ false) ((eq_iff x t).0 f) e) in
        ground (arith, a, f, z))
  ]
]

add_all-once :
    (t : String) (set xs : List String) → occurrences t set ≤ 1 → occurrences t (add_all set xs) ≤ 1
unfolding add_all
add_all-once t set [] h = h
add_all-once t set (x ∷ xs) h = add_all-once t (set_add set x) xs (set_add-once t set x h)

pub to_set-once :
    (t : String) (xs : List String) → includes xs t ≡ true → occurrences t (to_set xs) ≡ 1
unfolding to_set occurrences
to_set-once t xs h =
    let most = add_all-once t [] xs (omega arith) in
    let least = (occurrences-includes t (to_set xs)).1 (includes-to_set xs t ∙ h) in
    omega (arith, most, least)
