-- ===== src/Tokens/Refresh/Families.antt =====
-- A family of tokens over any requests.
use competition_factory_serv.Prelude.{
  ℕ, ◌+◌, ◌≤◌, String, ◌==◌, ◌≡◌, refl, sym, subst, ◌⊎◌, inl, inr, true, false, Option, none, some,
  List, [], ◌∷◌, ◌++◌, arith, leb, Bool-cases, Option-cases, eq_iff,
}
use competition_factory_serv.Tokens.Refresh.{
  RefreshTokenRow, Table, Fresh, is_live, find_by_hash, LookUp, refused, reused, valid, token_row,
  issue, look_up, finish, rotate, revoke, revoke_all_for_user, Request, login, refresh, logout,
  logout_all, purge, serve, serve_all,
}
use competition_factory_serv.Tokens.Refresh.Counting.{
  counts, live_count, begins, logins, live_count-append, live_count-revoke_token,
  live_count-revoke_family, live_count-revoke_user, live_count-purge, Within, find_by_hash-Within,
  Within-append, counts-live, live_count-revoke_own,
}

look_up-found :
    (hash : String → String) (presented : String) (now : ℕ) (rows : Table)
    → (((row : RefreshTokenRow) × (look_up hash presented now rows ≡ valid row)
          × Within row rows
          × (is_live row ≡ true))
        ⊎ ((row : RefreshTokenRow) × (look_up hash presented now rows ≡ reused row)))
      ⊎ ((message : String) × (look_up hash presented now rows ≡ refused message))
unfolding look_up
look_up-found hash presented now rows = elim (Bool-cases (presented == "")) [
  | inl p ↦ inr ("Missing refresh token", rw p refl)
  | inr p ↦ elim (Option-cases (find_by_hash (hash presented) rows)) [
    | inl f ↦ inr ("Invalid refresh token", rw (p, f) refl)
    | inr (row, f) ↦ elim (Bool-cases (is_live row)) [
      | inr l ↦ inl (inr (row, rw (p, f, l) refl))
      | inl l ↦ elim (Bool-cases (leb row.expires_at now)) [
        | inl x ↦ inr ("Refresh token expired", rw (p, f, l, x) refl)
        | inr x ↦
            inl
              (inl (row, rw (p, f, l, x) refl, find_by_hash-Within (hash presented) rows row f, l))
      ]
    ]
  ]
]

-- The writes of a rotation leave a family at most as many live tokens as it had.
finish-live_count :
    (hash : String → String) (family : String) (row : RefreshTokenRow) (fresh : Fresh)
    (agent : Option String) (now : ℕ) (rows : Table)
    → Within row rows
    → is_live row ≡ true
    → live_count family (finish hash (valid row) fresh agent now rows).1 ≤ live_count family rows
unfolding finish
finish-live_count hash family row fresh agent now rows w l =
    let new =
      token_row hash fresh row.user_id row.email row.family_id agent row.acting_provider_id now in
    elim (Bool-cases (row.family_id == family)) [
      | inr other ↦ omega (
        arith,
        live_count-revoke_token family row.token_id (some fresh.token_id) now (rows ++ new ∷ []),
        live_count-append family rows new,
        counts-other hash family row fresh agent now other,
      )
      | inl own ↦
          subst
            (λ f. live_count f (finish hash (valid row) fresh agent now rows).1 ≤ live_count f rows)
            ((eq_iff row.family_id family).0 own)
            (omega (
              arith,
              live_count-revoke_own row.token_id (some fresh.token_id) now row (rows ++ new ∷ [])
                  (Within-append row rows new w) l refl,
              live_count-append row.family_id rows new,
              counts-live new refl,
            ))
    ]
  where
    counts-other :
        (hash : String → String) (family : String) (row : RefreshTokenRow) (fresh : Fresh)
        (agent : Option String) (now : ℕ)
        → (row.family_id == family) ≡ false
        → counts family (
            token_row hash fresh row.user_id row.email row.family_id agent row.acting_provider_id
              now)
          ≡ 0
    counts-other hash family row fresh agent now e = rw e refl

serve-live_count :
    (hash : String → String) (family : String) (rows : Table) (now : ℕ) (q : Request)
    → live_count family (serve hash rows now q) ≤ live_count family rows + begins family q
unfolding issue rotate revoke revoke_all_for_user
serve-live_count hash family rows now (login fresh own user_id email agent acting) =
    ground (
      arith,
      live_count-append family rows (token_row hash fresh user_id email own agent acting now),
    )
serve-live_count hash family rows now (refresh presented fresh agent) =
    elim (look_up-found hash presented now rows) [
      | inl (inl (row, e, w, l)) ↦
          written (sym e)
            (omega (arith, finish-live_count hash family row fresh agent now rows w l))
      | inl (inr (row, e)) ↦
          written (sym e) (omega (arith, live_count-revoke_family family row.family_id now rows))
      | inr (message, e) ↦ written (sym e) (omega arith)
    ]
  where
    written :
        {found : LookUp}
        → found ≡ look_up hash presented now rows
        → live_count family (finish hash found fresh agent now rows).1 ≤ live_count family rows + 0
        → live_count family (serve hash rows now (refresh presented fresh agent))
          ≤ live_count family rows + 0
    written e h =
        subst
          (λ k.
            live_count family (finish hash k fresh agent now rows).1 ≤ live_count family rows + 0)
          e h
serve-live_count hash family rows now (logout presented) = elim (Bool-cases (presented == "")) [
  | inl p ↦ rw p (omega arith)
  | inr p ↦ elim (Option-cases (find_by_hash (hash presented) rows)) [
    | inl f ↦ rw (p, f) (omega arith)
    | inr (row, f) ↦ elim (Bool-cases (is_live row)) [
      | inr l ↦ rw (p, f, l) (omega arith)
      | inl l ↦
          rw (p, f, l) (omega (arith, live_count-revoke_token family row.token_id none now rows))
    ]
  ]
]
serve-live_count hash family rows now (logout_all user) = elim (Bool-cases (user == "")) [
  | inl u ↦ rw u (omega arith)
  | inr u ↦ rw u (omega (arith, live_count-revoke_user family user now rows))
]
serve-live_count hash family rows now purge = omega (arith, live_count-purge family now rows)

-- Whatever logins, refreshes, logouts and purges follow one another, each complete before the next,
-- a family of refresh tokens never has more live ones than it had, plus one for each login that
-- begins it.
pub serve_all-live_count :
    (hash : String → String) (family : String) (qs : List (ℕ × Request)) (rows : Table)
    → live_count family (serve_all hash rows qs) ≤ live_count family rows + logins family qs
unfolding serve_all
serve_all-live_count hash family [] rows = omega arith
serve_all-live_count hash family ((now, q) ∷ qs) rows = omega (
  arith,
  serve-live_count hash family rows now q,
  serve_all-live_count hash family qs (serve hash rows now q),
)
