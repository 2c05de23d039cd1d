-- ===== src/Tokens/Refresh/Counting.antt =====
-- How many tokens of a family can be used, and what each write does to that.
use competition_factory_serv.Prelude.{
  ℕ, ◌+◌, ◌≤◌, String, ◌==◌, ◌≡◌, refl, subst, ◌⊎◌, inl, inr, Bool, true, ◌&&◌, Option, none, some,
  List, [], ◌∷◌, ◌++◌, arith, if◌then◌else◌, leb, Bool-cases, eq_refl, eq_iff,
}
use competition_factory_serv.Tokens.Refresh.{
  RefreshTokenRow, Table, is_live, find_by_hash, revoke_if, revoke_token, revoke_family,
  revoke_user, delete_expired, Request, login, refresh, logout, logout_all, purge,
}

abbrev pub counts : String → RefreshTokenRow → ℕ
counts family row = if row.family_id == family && is_live row then 1 else 0

-- The tokens of a family that are not revoked.
abbrev pub live_count : String → Table → ℕ
live_count family [] = 0
live_count family (row ∷ rows) = counts family row + live_count family rows

abbrev pub begins : String → Request → ℕ
begins family (login fresh own user_id email agent acting) = if own == family then 1 else 0
begins family (refresh presented fresh agent) = 0
begins family (logout presented) = 0
begins family (logout_all user) = 0
begins family purge = 0

-- The logins that begin a family.
abbrev pub logins : String → List (ℕ × Request) → ℕ
logins family [] = 0
logins family ((now, q) ∷ qs) = begins family q + logins family qs

pub live_count-append :
    (family : String) (rows : Table) (row : RefreshTokenRow)
    → live_count family (rows ++ row ∷ []) ≡ live_count family rows + counts family row
live_count-append family [] row = omega arith
live_count-append family (r ∷ rows) row = omega (arith, live_count-append family rows row)

counts-revoke_if :
    (family : String) (test : Bool) (now : ℕ) (successor : Option String) (row : RefreshTokenRow)
    → counts family (revoke_if test now successor row) ≤ counts family row
counts-revoke_if family test now successor row = ground arith

pub live_count-revoke_token :
    (family id : String) (successor : Option String) (now : ℕ) (rows : Table)
    → live_count family (revoke_token id successor now rows) ≤ live_count family rows
unfolding revoke_token
live_count-revoke_token family id successor now [] = omega arith
live_count-revoke_token family id successor now (row ∷ rows) = omega (
  arith,
  counts-revoke_if family (row.token_id == id) now successor row,
  live_count-revoke_token family id successor now rows,
)

pub live_count-revoke_family :
    (family own : String) (now : ℕ) (rows : Table)
    → live_count family (revoke_family own now rows) ≤ live_count family rows
unfolding revoke_family
live_count-revoke_family family own now [] = omega arith
live_count-revoke_family family own now (row ∷ rows) = omega (
  arith,
  counts-revoke_if family (row.family_id == own) now none row,
  live_count-revoke_family family own now rows,
)

pub live_count-revoke_user :
    (family user : String) (now : ℕ) (rows : Table)
    → live_count family (revoke_user user now rows) ≤ live_count family rows
unfolding revoke_user
live_count-revoke_user family user now [] = omega arith
live_count-revoke_user family user now (row ∷ rows) = omega (
  arith,
  counts-revoke_if family (row.user_id == user) now none row,
  live_count-revoke_user family user now rows,
)

pub live_count-purge :
    (family : String) (now : ℕ) (rows : Table)
    → live_count family (delete_expired now rows) ≤ live_count family rows
live_count-purge family now [] = omega arith
live_count-purge family now (row ∷ rows) = elim (Bool-cases (leb row.expires_at now)) [
  | inl e ↦ rw e (omega (arith, live_count-purge family now rows))
  | inr e ↦ rw e (omega (arith, live_count-purge family now rows))
]

pub live_count-revoke_family_self :
    (family : String) (now : ℕ) (rows : Table)
    → live_count family (revoke_family family now rows) ≡ 0
unfolding revoke_family
live_count-revoke_family_self family now [] = refl
live_count-revoke_family_self family now (row ∷ rows) =
    let ih = live_count-revoke_family_self family now rows in
    elim (Bool-cases (row.family_id == family)) [
      | inl e ↦ elim (Bool-cases (is_live row)) [
        | inl l ↦ ground (arith, ih, e, l)
        | inr l ↦ ground (arith, ih, e, l)
      ]
      | inr e ↦ ground (arith, ih, e)
    ]

-- A row of the table, found in it.
abbrev pub Within : RefreshTokenRow → Table → Type 0
Within row [] = ⊥
Within row (r ∷ rs) = (row ≡ r) ⊎ Within row rs

pub find_by_hash-Within :
    (h : String) (rows : Table) (row : RefreshTokenRow)
    → find_by_hash h rows ≡ some row
    → Within row rows
find_by_hash-Within h [] row e = cc
find_by_hash-Within h (r ∷ rs) row e = elim (Bool-cases (r.token_hash == h)) [
  | inl t ↦ inl (ground (arith, e, t))
  | inr t ↦ inr (find_by_hash-Within h rs row (ground (arith, e, t)))
]

pub Within-append :
    (row : RefreshTokenRow) (rows : Table) (new : RefreshTokenRow)
    → Within row rows
    → Within row (rows ++ new ∷ [])
Within-append row [] new w = absurd w
Within-append row (r ∷ rs) new (inl e) = inl e
Within-append row (r ∷ rs) new (inr w) = inr (Within-append row rs new w)

pub counts-live : (row : RefreshTokenRow) → is_live row ≡ true → counts row.family_id row ≡ 1
counts-live row l = rw (l, eq_refl row.family_id) refl

counts-revoked :
    (test : Bool) (now : ℕ) (successor : Option String) (row : RefreshTokenRow)
    → test ≡ true
    → is_live row ≡ true
    → counts row.family_id (revoke_if test now successor row) ≡ 0
counts-revoked test now successor row t l = ground (arith, t, l)

-- A live row that is revoked by its own id no longer counts.
pub live_count-revoke_own :
    (id : String) (successor : Option String) (now : ℕ) (row : RefreshTokenRow) (rows : Table)
    → Within row rows
    → is_live row ≡ true
    → row.token_id ≡ id
    → live_count row.family_id (revoke_token id successor now rows) + 1
      ≤ live_count row.family_id rows
unfolding revoke_token
live_count-revoke_own id successor now row [] w l i = absurd w
live_count-revoke_own id successor now row (r ∷ rs) (inl e) l i =
    subst
      (λ r.
        live_count row.family_id (revoke_token id successor now (r ∷ rs)) + 1
        ≤ live_count row.family_id (r ∷ rs))
      e
      (omega (
        arith,
        counts-live row l,
        live_count-revoke_token row.family_id id successor now rs,
        counts-revoked (row.token_id == id) now successor row ((eq_iff row.token_id id).1 i) l,
      ))
live_count-revoke_own id successor now row (r ∷ rs) (inr w) l i = omega (
  arith,
  counts-revoke_if row.family_id (r.token_id == id) now successor r,
  live_count-revoke_own id successor now row rs w l i,
)
