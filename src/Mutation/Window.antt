-- ===== src/Mutation/Window.antt =====
-- src/modules/factory/helpers/grantWindowDenial.ts. Instants are milliseconds since the epoch and
-- not negative; `parse` is `Date.parse` (`none` for NaN) and `iso` is `toISOString`, both of the
-- language's runtime.
use Prim.Native.String
use Prim.Native.Nat.{min, max}
pub mod Soonest
use competition_factory_serv.Prelude.{
  ℕ, String, ◌==◌, Bool, true, false, Option, none, some, List, [], ◌∷◌, if◌then◌else◌, ltb, leb,
}

-- The window of a grant: a date is held as its text.
pub record Windowed : Type 0 where
  pub not_before : Option String
  pub not_after : Option String

abbrev pub starts_at : String → String
starts_at t = String.◌++◌ "Your scoped access to this tournament starts at " t

abbrev pub ended_at : String → String
ended_at t =
    String.◌++◌ "Your scoped access to this tournament ended at "
      (String.◌++◌ t " — ask an administrator to extend or remove the expired grant")

abbrev pub generic : String
generic = "Not authorized for this time window"

abbrev pub instant : (String → Option ℕ) → Option String → Option ℕ
instant parse none = none
instant parse (some value) = if value == "" then none else parse value

abbrev pub keep_if : (ℕ → Bool) → Option ℕ → List ℕ → List ℕ
keep_if p none rest = rest
keep_if p (some ms) rest = if p ms then ms ∷ rest else rest

-- `grants.map(get).filter((ms) => ms !== null && p(ms))`
unfoldable pub instants_where : (Windowed → Option ℕ) → (ℕ → Bool) → List Windowed → List ℕ
instants_where get p [] = []
instants_where get p (g ∷ gs) = keep_if p (get g) (instants_where get p gs)

abbrev pub upcoming_starts : (String → Option ℕ) → ℕ → List Windowed → List ℕ
upcoming_starts parse now grants =
    instants_where (λ g. instant parse g.not_before) (λ ms. ltb now ms) grants

abbrev pub past_expiries : (String → Option ℕ) → ℕ → List Windowed → List ℕ
past_expiries parse now grants =
    instants_where (λ g. instant parse g.not_after) (λ ms. leb ms now) grants

-- `Math.min` and `Math.max` of a first number and the rest.
unfoldable pub min_of : ℕ → List ℕ → ℕ
min_of m [] = m
min_of m (x ∷ xs) = min_of (min m x) xs

unfoldable pub max_of : ℕ → List ℕ → ℕ
max_of m [] = m
max_of m (x ∷ xs) = max_of (max m x) xs

abbrev pub ended_reason : (ℕ → String) → List ℕ → String
ended_reason iso [] = generic
ended_reason iso (e ∷ es) = ended_at (iso (max_of e es))

abbrev pub denial_reason : (ℕ → String) → List ℕ → List ℕ → String
denial_reason iso [] expiries = ended_reason iso expiries
denial_reason iso (s ∷ ss) expiries = starts_at (iso (min_of s ss))

unfoldable pub window_denial_reason :
    (String → Option ℕ) → (ℕ → String) → List Windowed → ℕ → String
window_denial_reason parse iso grants now =
    denial_reason iso (upcoming_starts parse now grants) (past_expiries parse now grants)
