-- ===== src/Grants/Validation/Sound.antt =====
-- What the write-time validation of a grant accepts.
use competition_factory_serv.Prelude.{
  ℕ, ◌<◌, String, ◌==◌, ◌≡◌, refl, ◌⊎◌, inl, inr, Bool, true, false, Option, none, some, List, [],
  ◌∷◌, arith, leb, any, includes, Bool-cases, All,
}
use competition_factory_serv.Grants.Validation.{
  Allowed, not_array, ids, Entries, ScopeValue, no_scope, not_object, entries, DateValue, Rules,
  Instant, open_end, nan, at, is_bad_id, entry_problem, entries_problem, validate_capability,
  validate_scope, to_instant, window_problem, validate_window, first_problem,
}

abbrev pub is_clear : Option String → Bool
is_clear none = true
is_clear (some m) = false

pub is_clear→none : (v : Option String) → is_clear v ≡ true → v ≡ none
is_clear→none none h = refl
is_clear→none (some m) h = absurd (cc)

-- A verdict that is exact for `P`: no problem where it holds, some problem where it does not.
abbrev pub Exact : Type 0 → Option String → Type 0
Exact P v = (P × (is_clear v ≡ true)) ⊎ ((¬ P) × (is_clear v ≡ false))

pub first_problem-Exact :
    {P Q : Type 0} (v w : Option String) → Exact P v → Exact Q w → Exact (P × Q) (first_problem v w)
first_problem-Exact none w (inl (p, e)) (inl (q, f)) = inl ((p, q), f)
first_problem-Exact none w (inl (p, e)) (inr (n, f)) = inr ((λ h. n h.1), f)
first_problem-Exact none w (inr (n, e)) d = inr ((λ h. n h.0), absurd (cc))
first_problem-Exact (some m) w (inl (p, e)) d = inl (absurd (cc), absurd (cc))
first_problem-Exact (some m) w (inr (n, e)) d = inr ((λ h. n h.0), refl)

module _ (r : Rules) where
  -- The full grant, or a permission key that is not blank.
  abbrev pub IsCapability : Option String → Type 0
  IsCapability none = ⊥
  IsCapability (some c) =
      ((c == r.full_grant) ≡ true)
      ⊎ ((r.is_blank c ≡ false) × (includes r.permission_keys c ≡ true))

  abbrev pub IsId : Option String → Type 0
  IsId none = ⊥
  IsId (some s) = r.is_blank s ≡ false

  -- A list of ids that constrains something.
  abbrev pub IsRestriction : Allowed → Type 0
  IsRestriction not_array = ⊥
  IsRestriction (ids []) = ⊥
  IsRestriction (ids (v ∷ vs)) = All IsId (v ∷ vs)

  abbrev pub IsScope : ScopeValue → Type 0
  IsScope no_scope = Unit {0}
  IsScope not_object = ⊥
  IsScope (entries e) = (r.is_evaluable e ≡ true) × All (λ x. IsRestriction x.1) e

  abbrev pub IsInstant : Instant → Type 0
  IsInstant nan = ⊥
  IsInstant open_end = Unit {0}
  IsInstant (at ms) = Unit {0}

  abbrev pub Precedes : Instant → Instant → Type 0
  Precedes (at b) (at a) = b < a
  Precedes open_end a = Unit {0}
  Precedes nan a = Unit {0}
  Precedes (at b) open_end = Unit {0}
  Precedes (at b) nan = Unit {0}

  -- Both ends can be read, the end is after the start, and the end is still to come.
  abbrev pub IsLiveWindow : Instant → Instant → ℕ → Type 0
  IsLiveWindow b a now = IsInstant b × IsInstant a × Precedes b a × Precedes (at now) a

  pub validate_capability-Exact :
      (c : Option String) → Exact (IsCapability c) (validate_capability r c)
  unfolding validate_capability
  validate_capability-Exact none = inr ((λ h. h), refl)
  validate_capability-Exact (some c) = elim (Bool-cases (c == r.full_grant)) [
    | inl e ↦ inl (inl e, rw e refl)
    | inr e ↦ elim (Bool-cases (r.is_blank c)) [
      | inl b ↦ inr ((λ h. elim h [ inl f ↦ cc | inr f ↦ cc (f.0, b) ]), rw (e, b) refl)
      | inr b ↦ elim (Bool-cases (includes r.permission_keys c)) [
        | inl k ↦ inl (inr (b, k), rw (e, b, k) refl)
        | inr k ↦ inr ((λ h. elim h [ inl f ↦ cc | inr f ↦ cc (f.1, k) ]), rw (e, b, k) refl)
      ]
    ]
  ]

  bad_ids-cases :
      (vs : List (Option String))
      → (All IsId vs × (any (is_bad_id r) vs ≡ false))
        ⊎ ((¬ (All IsId vs)) × (any (is_bad_id r) vs ≡ true))
  bad_ids-cases [] = inl (tt, refl)
  bad_ids-cases (none ∷ vs) = inr ((λ h. h.0), refl)
  bad_ids-cases (some s ∷ vs) = elim (Bool-cases (r.is_blank s)) [
    | inl b ↦ inr ((λ h. cc (h.0, b)), rw b refl)
    | inr b ↦ elim (bad_ids-cases vs) [
      | inl (h, e) ↦ inl ((b, h), rw b e)
      | inr (h, e) ↦ inr ((λ a. h a.1), rw b e)
    ]
  ]

  entry_problem-Exact :
      (key : String) (a : Allowed) → Exact (IsRestriction a) (entry_problem r key a)
  entry_problem-Exact key not_array = inr ((λ h. h), refl)
  entry_problem-Exact key (ids []) = inr ((λ h. h), refl)
  entry_problem-Exact key (ids (v ∷ vs)) = elim (bad_ids-cases (v ∷ vs)) [
    | inl (h, e) ↦ inl (h, rw e refl)
    | inr (h, e) ↦ inr (h, rw e refl)
  ]

  entries_problem-Exact :
      (e : Entries) → Exact (All (λ x. IsRestriction x.1) e) (entries_problem r e)
  unfolding entries_problem
  entries_problem-Exact [] = inl (tt, refl)
  entries_problem-Exact ((key, a) ∷ rest) =
      first_problem-Exact (entry_problem r key a) (entries_problem r rest)
        (entry_problem-Exact key a) (entries_problem-Exact rest)

  pub validate_scope-Exact : (s : ScopeValue) → Exact (IsScope s) (validate_scope r s)
  unfolding validate_scope
  validate_scope-Exact no_scope = inl (tt, refl)
  validate_scope-Exact not_object = inr ((λ h. h), refl)
  validate_scope-Exact (entries e) = elim (Bool-cases (r.is_evaluable e)) [
    | inr b ↦ inr ((λ h. cc (h.0, b)), rw b refl)
    | inl b ↦ elim (entries_problem-Exact e) [
      | inl (h, f) ↦ inl ((b, h), rw b f)
      | inr (h, f) ↦ inr ((λ k. h k.1), rw b f)
    ]
  ]

  window_problem-Exact :
      (b a : Instant) (now : ℕ) → Exact (IsLiveWindow b a now) (window_problem r b a now)
  window_problem-Exact nan a now = inr ((λ h. h.0), refl)
  window_problem-Exact open_end nan now = inr ((λ h. h.1), refl)
  window_problem-Exact open_end open_end now = inl ((tt, tt, tt, tt), refl)
  window_problem-Exact open_end (at a) now = elim (Bool-cases (leb a now)) [
    | inl e ↦ inr ((λ h. ground (arith, h, e)), rw e refl)
    | inr e ↦ inl ((tt, tt, tt, ground (arith, e)), rw e refl)
  ]
  window_problem-Exact (at b) nan now = inr ((λ h. h.1), refl)
  window_problem-Exact (at b) open_end now = inl ((tt, tt, tt, tt), refl)
  window_problem-Exact (at b) (at a) now = elim (Bool-cases (leb a b)) [
    | inl f ↦ inr ((λ h. ground (arith, h, f)), rw f refl)
    | inr f ↦ elim (Bool-cases (leb a now)) [
      | inl e ↦ inr ((λ h. ground (arith, h, e)), rw (f, e) refl)
      | inr e ↦ inl ((tt, tt, ground (arith, f), ground (arith, e)), rw (f, e) refl)
    ]
  ]

  pub validate_window-Exact :
      (b a : DateValue) (now : ℕ)
      → Exact (IsLiveWindow (to_instant r b) (to_instant r a) now) (validate_window r b a now)
  unfolding validate_window
  validate_window-Exact b a now = window_problem-Exact (to_instant r b) (to_instant r a) now
