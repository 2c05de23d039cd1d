-- ===== src/Access/Calendar/Parity.antt =====
-- The scope that is computed in memory and the WHERE clause that is built for it agree.
use competition_factory_serv.Prelude.{
  String, ◌==◌, eq_iff, ◌≡◌, refl, ap, ◌∙◌, Bool, true, false, not, ◌&&◌, ◌||◌, Option, none, some,
  List, [], ◌∷◌, arith, Bool-cases, Option-cases, inl, inr, is_text, filter, filter_ext, any, all,
  All, All-map, includes, lookup, keys, texts_differ, HasDistinctKeys, truthy,
}
use competition_factory_serv.Access.Context.{UserContext, inherits, provider_admin}
use competition_factory_serv.Access.Tournament.{is_own, is_assigned, is_provisioner_created}
use competition_factory_serv.Access.Calendar.Sets.{to_set, includes-set_add, includes-to_set}
use competition_factory_serv.Access.Calendar.{
  Entry, CalendarScope, CalendarQuery, user_sees, scope_calendar_for_user, split_roles,
  build_calendar_scope, member_scope, inherited, is_any, next_full, next_directed, ownership,
  visibility, where_clauses, matching_rows,
}

abbrev administers : Option String → Bool
administers none = false
administers (some role) = role == provider_admin

abbrev directs : Option String → Bool
directs none = false
directs (some role) = not (role == provider_admin) && not (role == "")

-- `created_by_user_id = $n`, where a user id is given
abbrev owned_by : Option String → Option String → Bool
owned_by none created_by = false
owned_by (some id) created_by = not (id == "") && is_text created_by id

owned_by-is_own :
    (id : String) (created_by : Option String)
    → owned_by (some id) created_by ≡ is_own created_by id
owned_by-is_own id none = ground arith
owned_by-is_own id (some c) = ground (arith, eq_iff c id, eq_iff id "", eq_iff c "")

is_any-is_assigned :
    (t : Option String) (ids : List String) → truthy t ≡ true → is_any t ids ≡ is_assigned t ids
is_any-is_assigned none ids h = cc
is_any-is_assigned (some t) ids h = ground arith

-- One role at the entry's provider, read as the two sets read it.
sees-by_role :
    (role : Option String) (ctx : UserContext) (assigned : List String) (e : Entry) (p : String)
    → (p == "") ≡ false
    → lookup ctx.provider_roles p ≡ role
    → user_sees (some p) ctx assigned e ≡ (
        (inherits ctx.provisioner_provider_ids p || administers role)
        || ((not (inherits ctx.provisioner_provider_ids p) && directs role)
            && (is_own e.created_by_user_id ctx.user_id
                || (is_assigned e.tournament_id assigned
                    || is_provisioner_created e.created_by_user_id))))
sees-by_role none ctx assigned e p h l = rw (h, l) (ground arith)
sees-by_role (some role) ctx assigned e p h l =
    rw (h, l) (ground (arith, texts_differ role provider_admin "" refl))

lookup-missing :
    (m : List (String × String)) (k : String) → includes (keys m) k ≡ false → lookup m k ≡ none
lookup-missing [] k h = refl
lookup-missing ((j, v) ∷ m) k h = ground (arith, lookup-missing m k)

split_roles-full :
    (m : List (String × String)) (full directed : List String) (q : String)
    → HasDistinctKeys m
    → includes (split_roles m full directed).0 q ≡ includes full q || administers (lookup m q)
unfolding split_roles
split_roles-full [] full directed q h = ground arith
split_roles-full ((p, role) ∷ m) full directed q h = ground (
  arith,
  split_roles-full m (next_full full p role) (next_directed full directed p role) q h.1,
  includes-set_add full p q,
  eq_iff p q,
  lookup-missing m p h.0,
)

split_roles-directed :
    (m : List (String × String)) (full directed : List String) (q : String)
    → HasDistinctKeys m
    → includes (split_roles m full directed).1 q
      ≡ includes directed q || (not (includes full q) && directs (lookup m q))
unfolding split_roles
split_roles-directed [] full directed q h = ground arith
split_roles-directed ((p, role) ∷ m) full directed q h = ground (
  arith,
  split_roles-directed m (next_full full p role) (next_directed full directed p role) q h.1,
  includes-set_add full p q,
  includes-set_add directed p q,
  eq_iff p q,
  eq_iff role provider_admin,
  lookup-missing m p h.0,
)

-- An empty list passes no id, so that a clause which is left out is one which fails.
any-ownership :
    (scope : CalendarScope) (e : Entry)
    → any (λ c. c e) (ownership scope) ≡ (
        owned_by scope.user_id e.created_by_user_id
        || (is_any e.tournament_id scope.assigned_tournament_ids
            || is_provisioner_created e.created_by_user_id))
unfolding ownership
any-ownership scope e = ground arith

any-visibility :
    (scope : CalendarScope) (e : Entry)
    → any (λ c. c e) (visibility scope) ≡ (
        is_any e.provider_id scope.full_access_provider_ids
        || (is_any e.provider_id scope.director_provider_ids
            && (owned_by scope.user_id e.created_by_user_id
                || (is_any e.tournament_id scope.assigned_tournament_ids
                    || is_provisioner_created e.created_by_user_id))))
unfolding visibility
any-visibility scope e = ground (arith, any-ownership scope e)

all-where_clauses :
    (query : CalendarQuery) (e : Entry)
    → all (λ c. c e) (where_clauses query) ≡ (
        is_any e.provider_id query.provider_ids
        && ((query.scope.unrestricted || any (λ c. c e) (visibility query.scope))
            && (not query.published_only || e.published)))
unfolding where_clauses
all-where_clauses query e = ground arith

inherits-to_set :
    (ids : Option (List String)) (q : String) → includes (to_set (inherited ids)) q ≡ inherits ids q
inherits-to_set none q = includes-to_set [] q
inherits-to_set (some ids) q = includes-to_set ids q

-- A calendar row has a tournament and a provider: both columns are NOT NULL.
pub record IsRow (e : Entry) : Type 0 where
  pub has_tournament : truthy e.tournament_id ≡ true
  pub has_provider : truthy e.provider_id ≡ true

visibility-user_sees :
    (ctx : UserContext) (assigned : List String) (e : Entry) (p : String)
    → HasDistinctKeys ctx.provider_roles
    → e.provider_id ≡ some p
    → IsRow e
    → any (λ c. c e) (visibility (member_scope ctx assigned)) ≡ user_sees (some p) ctx assigned e
visibility-user_sees ctx assigned e p d ep r =
    any-visibility (member_scope ctx assigned) e
    ∙ simp (
      ep,
      split_roles-full ctx.provider_roles (to_set (inherited ctx.provisioner_provider_ids)) [] p d,
      split_roles-directed ctx.provider_roles (to_set (inherited ctx.provisioner_provider_ids)) [] p
          d,
      inherits-to_set ctx.provisioner_provider_ids p,
      owned_by-is_own ctx.user_id e.created_by_user_id,
      is_any-is_assigned e.tournament_id assigned r.has_tournament,
      sees-by_role (lookup ctx.provider_roles p) ctx assigned e p (ground (arith, r.has_provider))
          refl,
    )

abbrev pub HasDistinctRoles : Option UserContext → Type 0
HasDistinctRoles none = Unit {0}
HasDistinctRoles (some ctx) = HasDistinctKeys ctx.provider_roles

-- What a query asks for beside the scope.
abbrev pub is_requested : CalendarQuery → Entry → Bool
is_requested query e =
    is_any e.provider_id query.provider_ids && (not query.published_only || e.published)

abbrev pub sees : Bool → Option UserContext → List String → Entry → Bool
sees false ctx assigned e = true
sees true none assigned e = false
sees true (some ctx) assigned e = ctx.is_super_admin || user_sees e.provider_id ctx assigned e

build_calendar_scope-member :
    (ctx : UserContext) (assigned : List String)
    → ctx.is_super_admin ≡ false
    → build_calendar_scope true (some ctx) assigned ≡ member_scope ctx assigned
unfolding build_calendar_scope
build_calendar_scope-member ctx assigned h = simp h

-- The scope part of the WHERE clause, for each kind of caller.
scope-sees :
    (scoping : Bool) (ctx : Option UserContext) (assigned : List String) (e : Entry)
    → HasDistinctRoles ctx
    → IsRow e
    → ((build_calendar_scope scoping ctx assigned).unrestricted
        || any (λ c. c e) (visibility (build_calendar_scope scoping ctx assigned)))
      ≡ sees scoping ctx assigned e
unfolding build_calendar_scope visibility
scope-sees false ctx assigned e d r = refl
scope-sees true none assigned e d r = refl
scope-sees true (some ctx) assigned e d r = elim (Bool-cases ctx.is_super_admin) [
  | inl h ↦ simp h
  | inr h ↦ elim (Option-cases e.provider_id) [
    | inl missing ↦ ground (arith, missing, r.has_provider)
    | inr (p, ep) ↦
        rw (build_calendar_scope-member ctx assigned h)
          (visibility-user_sees ctx assigned e p d ep r ∙ simp (h, ep))
  ]
]

row-requested :
    (scoping : Bool) (ctx : Option UserContext) (assigned : List String) (query : CalendarQuery)
    (e : Entry)
    → query.scope ≡ build_calendar_scope scoping ctx assigned
    → HasDistinctRoles ctx
    → IsRow e
    → all (λ c. c e) (where_clauses query) ≡ (is_requested query e && sees scoping ctx assigned e)
row-requested scoping ctx assigned query e q d r =
    all-where_clauses query e ∙ rw (q, scope-sees scoping ctx assigned e d r) (ground arith)

filter-requested :
    (query : CalendarQuery) (rows : List Entry) (p q : Entry → Bool)
    → All (λ e. p e ≡ (is_requested query e && q e)) rows
    → filter p rows ≡ filter (is_requested query) (filter q rows)
filter-requested query [] p q h = refl
filter-requested query (e ∷ rows) p q (h, hs) = ground (arith, filter-requested query rows p q hs)

filter-true : (rows : List Entry) → filter (λ e. true) rows ≡ rows
filter-true [] = refl
filter-true (e ∷ rows) = rw (filter-true rows)

filter-false : (rows : List Entry) → filter (λ e. false) rows ≡ []
filter-false [] = refl
filter-false (e ∷ rows) = filter-false rows

filter-sees :
    (scoping : Bool) (ctx : Option UserContext) (assigned : List String) (rows : List Entry)
    → filter (sees scoping ctx assigned) rows ≡ scope_calendar_for_user scoping rows ctx assigned
unfolding scope_calendar_for_user
filter-sees false ctx assigned rows = filter-true rows
filter-sees true none assigned rows = filter-false rows
filter-sees true (some ctx) assigned rows = elim (Bool-cases ctx.is_super_admin) [
  | inl h ↦ filter_ext _ (λ _. true) rows (λ e. simp h) ∙ (filter-true rows ∙ simp h)
  | inr h ↦ filter_ext _ (λ e. user_sees e.provider_id ctx assigned e) rows (λ e. simp h) ∙ simp h
]

-- For rows with a tournament and a provider, and a caller whose role map has distinct keys, the
-- rows that match the query which carries the caller's SQL scope are exactly the entries, in the
-- same order, that the in-memory scoping leaves and the query's provider list and published flag
-- ask for.
pub matching_rows-scope_calendar_for_user :
    (scoping : Bool) (ctx : Option UserContext) (assigned : List String) (query : CalendarQuery)
    (rows : List Entry)
    → query.scope ≡ build_calendar_scope scoping ctx assigned
    → HasDistinctRoles ctx
    → All IsRow rows
    → matching_rows query rows
      ≡ filter (is_requested query) (scope_calendar_for_user scoping rows ctx assigned)
unfolding matching_rows
matching_rows-scope_calendar_for_user scoping ctx assigned query rows q d r =
    filter-requested query rows _ (sees scoping ctx assigned)
      (All-map rows (λ e. row-requested scoping ctx assigned query e q d) r)
    ∙ ap (filter (is_requested query)) (filter-sees scoping ctx assigned rows)
