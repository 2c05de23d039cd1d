-- ===== src/Grants/Validation.antt =====
-- src/modules/factory/helpers/grantValidation.ts. Instants are milliseconds since the epoch and not
-- negative. `Rules` holds what the package
-- @courthive/provider-config exports, and of the language's runtime `Date.parse` (`none` for NaN),
-- the test that a text is blank after `trim`, and the match of the pattern of a UUID.
use Prim.Native.String
pub mod Sound
use competition_factory_serv.Prelude.{
  ℕ, String, ◌==◌, Bool, true, false, not, Option, none, some, List, [], ◌∷◌, if◌then◌else◌, leb,
  any, filter, includes, keys,
}

-- A value in a scope; in a list of ids, `none` is an element that is no string.
pub data Allowed : Type 0 where
  not_array : Allowed
  ids : List (Option String) → Allowed

abbrev pub Entries : Type 0
Entries = List (String × Allowed)

pub data ScopeValue : Type 0 where
  no_scope not_object : ScopeValue
  entries : Entries → ScopeValue

-- A date as it arrives; `date` is a Date, of which `none` is the invalid one.
pub data DateValue : Type 0 where
  no_date not_text : DateValue
  text : String → DateValue
  date : Option ℕ → DateValue

pub record Rules : Type 0 where
  pub full_grant : String
  pub permission_keys : List String
  pub scope_keys : List String
  pub is_evaluable : Entries → Bool
  pub is_blank : String → Bool
  pub is_uuid : String → Bool
  pub parse : String → Option ℕ

-- `null`, `NaN` or a number of milliseconds.
pub data Instant : Type 0 where
  open_end nan : Instant
  at : ℕ → Instant

abbrev pub cat : List String → String
cat [] = ""
cat (s ∷ ss) = String.◌++◌ s (cat ss)

abbrev join : List String → String
join [] = ""
join (s ∷ []) = s
join (s ∷ t ∷ ss) = String.◌++◌ s (String.◌++◌ ", " (join (t ∷ ss)))

abbrev quoted : List String → List String
quoted [] = []
quoted (s ∷ ss) = cat ("\"" ∷ s ∷ "\"" ∷ []) ∷ quoted ss

abbrev unknown_label : List String → String
unknown_label (k ∷ []) = "key"
unknown_label ks = "keys"

abbrev pub parsed : Option ℕ → Instant
parsed none = nan
parsed (some ms) = at ms

-- The first problem, if there is one: `??`.
abbrev pub first_problem : Option String → Option String → Option String
first_problem none q = q
first_problem (some p) q = some p

module _ (r : Rules) where
  unfoldable pub validate_capability : Option String → Option String
  validate_capability none = some "capability is required"
  validate_capability (some c) =
      if c == r.full_grant
      then none
      else if r.is_blank c
      then some "capability is required"
      else if not (includes r.permission_keys c)
      then some (
          cat (
            "unknown capability \"" ∷ c ∷ "\" — expected \"" ∷ r.full_grant
            ∷ "\" or a permission key such as canEnterScores" ∷ []))
      else none

  abbrev pub is_bad_id : Option String → Bool
  is_bad_id none = true
  is_bad_id (some s) = r.is_blank s

  abbrev pub entry_problem : String → Allowed → Option String
  entry_problem key not_array = some (cat ("scope." ∷ key ∷ " must be an array of ids" ∷ []))
  entry_problem key (ids []) = some (
      cat (
        "scope." ∷ key ∷ " is empty — an empty list constrains nothing, so omit the key instead"
        ∷ []))
  entry_problem key (ids (v ∷ vs)) =
      if any is_bad_id (v ∷ vs)
      then some (cat ("scope." ∷ key ∷ " must contain non-empty id strings" ∷ []))
      else none

  -- The loop over the entries of a scope.
  unfoldable pub entries_problem : Entries → Option String
  entries_problem [] = none
  entries_problem ((key, allowed) ∷ rest) =
      first_problem (entry_problem key allowed) (entries_problem rest)

  abbrev unknown_keys : Entries → List String
  unknown_keys e = filter (λ k. not (includes r.scope_keys k)) (keys e)

  unfoldable pub validate_scope : ScopeValue → Option String
  unfolding entries_problem
  validate_scope no_scope = none
  validate_scope not_object = some "scope must be an object"
  validate_scope (entries e) =
      if not (r.is_evaluable e)
      then some (
          cat (
            "unknown scope "
            ∷ unknown_label (unknown_keys e)
            ∷ " "
            ∷ join (quoted (unknown_keys e))
            ∷ " — expected any of "
            ∷ join r.scope_keys
            ∷ []))
      else entries_problem e

  unfoldable pub to_instant : DateValue → Instant
  to_instant no_date = open_end
  to_instant not_text = nan
  to_instant (text s) = if s == "" then open_end else parsed (r.parse s)
  to_instant (date ms) = parsed ms

  abbrev past_problem : ℕ → ℕ → Option String
  past_problem a now =
      if leb a now
      then some "notAfter is already in the past — the grant would never be live"
      else none

  -- The tests of `validateWindow`, in order.
  abbrev pub window_problem : Instant → Instant → ℕ → Option String
  window_problem nan a now = some "notBefore is not a valid date"
  window_problem open_end nan now = some "notAfter is not a valid date"
  window_problem open_end open_end now = none
  window_problem open_end (at a) now = past_problem a now
  window_problem (at b) nan now = some "notAfter is not a valid date"
  window_problem (at b) open_end now = none
  window_problem (at b) (at a) now =
      if leb a b then some "notAfter must be later than notBefore" else past_problem a now

  unfoldable pub validate_window : DateValue → DateValue → ℕ → Option String
  unfolding to_instant
  validate_window not_before not_after now =
      window_problem (to_instant not_before) (to_instant not_after) now
