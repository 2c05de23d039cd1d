-- ===== src/Mutation/Window/Soonest.antt =====
-- The instant that a window denial names.
use Prim.Native.Nat.{min, max}
use native.Mathlib.Decide.{dec_le}
use competition_factory_serv.Prelude.{
  ℕ, ◌≤◌, ◌<◌, String, ◌≡◌, refl, subst, ◌∙◌, Bool, true, ◌⊎◌, inl, inr, Option, none, some,
  some-injective, List, [], ◌∷◌, arith, ltb, leb, All, All-map, Any, Any-map, Any-common,
  Bool-cases, List-cases, ltb→lt, lt→ltb, leb→le, le→leb,
}
use competition_factory_serv.Mutation.Window.{
  Windowed, instant, keep_if, instants_where, upcoming_starts, past_expiries, min_of, max_of,
  starts_at, ended_at, generic, window_denial_reason,
}

min_of-least : (m : ℕ) (xs : List ℕ) → (min_of m xs ≤ m) × All (λ x. min_of m xs ≤ x) xs
unfolding min_of
min_of-least m [] = (omega arith, tt)
min_of-least m (x ∷ xs) =
    let (below, rest) = min_of-least (min m x) xs in
    (omega (arith, below), (omega (arith, below), rest))

max_of-greatest : (m : ℕ) (xs : List ℕ) → (m ≤ max_of m xs) × All (λ x. x ≤ max_of m xs) xs
unfolding max_of
max_of-greatest m [] = (omega arith, tt)
max_of-greatest m (x ∷ xs) =
    let (below, rest) = max_of-greatest (max m x) xs in
    (omega (arith, below), (omega (arith, below), rest))

min-cases : (m x : ℕ) → (min m x ≡ m) ⊎ (min m x ≡ x)
min-cases m x = elim (dec_le m x) [ yes h ↦ inl (omega arith) | no h ↦ inr (omega arith) ]

max-cases : (m x : ℕ) → (max m x ≡ m) ⊎ (max m x ≡ x)
max-cases m x = elim (dec_le m x) [ yes h ↦ inr (omega arith) | no h ↦ inl (omega arith) ]

min_of-Any : (m : ℕ) (xs : List ℕ) → Any (λ x. min_of m xs ≡ x) (m ∷ xs)
unfolding min_of
min_of-Any m [] = inl refl
min_of-Any m (x ∷ xs) = elim (min_of-Any (min m x) xs) [
  | inl e ↦ elim (min-cases m x) [ inl f ↦ inl (e ∙ f) | inr f ↦ inr (inl (e ∙ f)) ]
  | inr a ↦ inr (inr a)
]

max_of-Any : (m : ℕ) (xs : List ℕ) → Any (λ x. max_of m xs ≡ x) (m ∷ xs)
unfolding max_of
max_of-Any m [] = inl refl
max_of-Any m (x ∷ xs) = elim (max_of-Any (max m x) xs) [
  | inl e ↦ elim (max-cases m x) [ inl f ↦ inl (e ∙ f) | inr f ↦ inr (inl (e ∙ f)) ]
  | inr a ↦ inr (inr a)
]

keep_if-All :
    (P : ℕ → Type 0) (p : ℕ → Bool) (o : Option ℕ) (rest : List ℕ)
    → All P (keep_if p o rest)
    → ((ms : ℕ) → o ≡ some ms → p ms ≡ true → P ms) × All P rest
keep_if-All P p none rest h = ((λ ms e q. cc), h)
keep_if-All P p (some n) rest h = elim (Bool-cases (p n)) [
  | inl t ↦
      let k : P n × All P rest = rw t at h in ((λ ms e q. subst P (some-injective n ms e) k.0), k.1)
  | inr t ↦ ((λ ms e q. cc), rw t at h)
]

keep_if-Any :
    (p : ℕ → Bool) (o : Option ℕ) (rest : List ℕ) (s : ℕ)
    → Any (λ x. s ≡ x) (keep_if p o rest)
    → ((o ≡ some s) × (p s ≡ true)) ⊎ Any (λ x. s ≡ x) rest
keep_if-Any p none rest s h = inr h
keep_if-Any p (some n) rest s h = elim (Bool-cases (p n)) [
  | inl t ↦
      let k : (s ≡ n) ⊎ Any (λ x. s ≡ x) rest = rw t at h in
      elim k [ inl e ↦ inl (cc, cc) | inr a ↦ inr a ]
  | inr t ↦ inr (rw t at h)
]

module _ (get : Windowed → Option ℕ) (p : ℕ → Bool) where
  -- What holds of every kept instant holds of every instant that passes the test.
  instants_where-All :
      (P : ℕ → Type 0) (gs : List Windowed)
      → All P (instants_where get p gs)
      → All (λ g. (ms : ℕ) → get g ≡ some ms → p ms ≡ true → P ms) gs
  unfolding instants_where
  instants_where-All P [] h = tt
  instants_where-All P (g ∷ gs) h =
      let (here, later) = keep_if-All P p (get g) (instants_where get p gs) h in
      (here, instants_where-All P gs later)

  instants_where-Any :
      (s : ℕ) (gs : List Windowed)
      → Any (λ x. s ≡ x) (instants_where get p gs)
      → Any (λ g. (get g ≡ some s) × (p s ≡ true)) gs
  unfolding instants_where
  instants_where-Any s [] h = h
  instants_where-Any s (g ∷ gs) h = elim (keep_if-Any p (get g) (instants_where get p gs) s h) [
    | inl here ↦ inl here
    | inr later ↦ inr (instants_where-Any s gs later)
  ]

module _ (parse : String → Option ℕ) (now : ℕ) (gs : List Windowed) where
  -- The soonest start that is still to come.
  abbrev pub IsSoonestStart : ℕ → Type 0
  IsSoonestStart s =
      (now < s)
      × Any (λ g. instant parse g.not_before ≡ some s) gs
      × All (λ g. (ms : ℕ) → instant parse g.not_before ≡ some ms → now < ms → s ≤ ms) gs

  -- The latest expiry that has passed.
  abbrev pub IsLatestExpiry : ℕ → Type 0
  IsLatestExpiry s =
      (s ≤ now)
      × Any (λ g. instant parse g.not_after ≡ some s) gs
      × All (λ g. (ms : ℕ) → instant parse g.not_after ≡ some ms → ms ≤ now → ms ≤ s) gs

  abbrev pub NoUpcomingStart : Type 0
  NoUpcomingStart = All (λ g. (ms : ℕ) → instant parse g.not_before ≡ some ms → ms ≤ now) gs

  abbrev pub NoPastExpiry : Type 0
  NoPastExpiry = All (λ g. (ms : ℕ) → instant parse g.not_after ≡ some ms → now < ms) gs

  none_upcoming : upcoming_starts parse now gs ≡ [] → NoUpcomingStart
  none_upcoming e =
      All-map gs
        (λ g h ms i. elim (Bool-cases (ltb now ms)) [
          | inl t ↦ absurd (h ms i t)
          | inr t ↦ ground arith
        ])
        (instants_where-All (λ g. instant parse g.not_before) (λ ms. ltb now ms) (λ _. ⊥) gs
          (rw e tt))

  none_past : past_expiries parse now gs ≡ [] → NoPastExpiry
  none_past e =
      All-map gs
        (λ g h ms i. elim (Bool-cases (leb ms now)) [
          | inl t ↦ absurd (h ms i t)
          | inr t ↦ ground arith
        ])
        (instants_where-All (λ g. instant parse g.not_after) (λ ms. leb ms now) (λ _. ⊥) gs
          (rw e tt))

  soonest :
      (s : ℕ) (ss : List ℕ) → upcoming_starts parse now gs ≡ s ∷ ss → IsSoonestStart (min_of s ss)
  soonest s ss e = (
    ltb→lt now (min_of s ss) (Any-common _ gs picked),
    Any-map gs (λ g h. h.0) picked,
    All-map gs (λ g h ms i t. h ms i (lt→ltb now ms t))
        (instants_where-All (λ g. instant parse g.not_before) (λ ms. ltb now ms)
          (λ x. min_of s ss ≤ x) gs (rw e (min_of-least s ss))),
  )
    where
      picked :
          Any
            (λ g.
              (instant parse g.not_before ≡ some (min_of s ss)) × (ltb now (min_of s ss) ≡ true))
            gs
      picked =
          instants_where-Any (λ g. instant parse g.not_before) (λ ms. ltb now ms) (min_of s ss) gs
            (rw e (min_of-Any s ss))

  latest :
      (s : ℕ) (ss : List ℕ) → past_expiries parse now gs ≡ s ∷ ss → IsLatestExpiry (max_of s ss)
  latest s ss e = (
    leb→le (max_of s ss) now (Any-common _ gs picked),
    Any-map gs (λ g h. h.0) picked,
    All-map gs (λ g h ms i t. h ms i (le→leb ms now t))
        (instants_where-All (λ g. instant parse g.not_after) (λ ms. leb ms now)
          (λ x. x ≤ max_of s ss) gs (rw e (max_of-greatest s ss))),
  )
    where
      picked :
          Any
            (λ g. (instant parse g.not_after ≡ some (max_of s ss)) × (leb (max_of s ss) now ≡ true))
            gs
      picked =
          instants_where-Any (λ g. instant parse g.not_after) (λ ms. leb ms now) (max_of s ss) gs
            (rw e (max_of-Any s ss))

-- The window denial names the soonest start that is still to come, where a grant has one; where
-- none has, the latest expiry that has passed; and where no grant has that either, no instant.
pub window_denial_reason_cases :
    (parse : String → Option ℕ) (iso : ℕ → String) (gs : List Windowed) (now : ℕ)
    → ((s : ℕ) × IsSoonestStart parse now gs s
        × (window_denial_reason parse iso gs now ≡ starts_at (iso s)))
      ⊎ (NoUpcomingStart parse now gs
          × (((e : ℕ) × IsLatestExpiry parse now gs e
                × (window_denial_reason parse iso gs now ≡ ended_at (iso e)))
              ⊎ (NoPastExpiry parse now gs × (window_denial_reason parse iso gs now ≡ generic))))
unfolding window_denial_reason
window_denial_reason_cases parse iso gs now = elim (List-cases (upcoming_starts parse now gs)) [
  | inr (s, ss, e) ↦ inl (min_of s ss, soonest parse now gs s ss e, rw e)
  | inl e ↦ inr (
    none_upcoming parse now gs e,
    elim (List-cases (past_expiries parse now gs)) [
      | inr (s, ss, f) ↦ inl (max_of s ss, latest parse now gs s ss f, rw (e, f))
      | inl f ↦ inr (none_past parse now gs f, rw (e, f))
    ],
  )
]
