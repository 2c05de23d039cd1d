-- ===== src/Tokens/Refresh/Reuse.antt =====
-- A token that is presented again after its rotation.
use competition_factory_serv.Prelude.{
  ℕ, ◌≤◌, ◌<◌, String, ◌==◌, ◌≡◌, refl, subst, inl, inr, true, false, Option, some, List, [], ◌∷◌,
  ◌++◌, arith, leb, Bool-cases, eq_refl,
}
use competition_factory_serv.Tokens.Refresh.{
  RefreshTokenRow, Table, Fresh, Rotation, unauthorized, rotated, is_live, find_by_hash,
  revoke_token, revoke_family, valid, token_row, look_up, finish, rotate, Request, serve_all,
}
use competition_factory_serv.Tokens.Refresh.Counting.{
  counts, live_count, live_count-append, logins, find_by_hash-Within, Within,
  live_count-revoke_family_self,
}
use competition_factory_serv.Tokens.Refresh.Families.{serve_all-live_count}

-- A live row counts in its family.
live_count-pos :
    (row : RefreshTokenRow) (rows : Table)
    → Within row rows
    → is_live row ≡ true
    → 0 < live_count row.family_id rows
live_count-pos row [] w l = absurd w
live_count-pos row (r ∷ rs) (inl e) l =
    subst (λ r. 0 < live_count row.family_id (r ∷ rs)) e
      (rw (l, eq_refl row.family_id) (omega arith))
live_count-pos row (r ∷ rs) (inr w) l = omega (arith, live_count-pos row rs w l)

revoke_token-append :
    (id : String) (successor : Option String) (now : ℕ) (rows : Table) (new : RefreshTokenRow)
    → (new.token_id == id) ≡ false
    → revoke_token id successor now (rows ++ new ∷ [])
      ≡ revoke_token id successor now rows ++ new ∷ []
unfolding revoke_token
revoke_token-append id successor now [] new e = rw e refl
revoke_token-append id successor now (r ∷ rs) new e =
    rw (revoke_token-append id successor now rs new e) refl

revoke_token-append_two :
    (id : String) (successor : Option String) (now : ℕ) (rows : Table) (one two : RefreshTokenRow)
    → (one.token_id == id) ≡ false
    → (two.token_id == id) ≡ false
    → revoke_token id successor now ((rows ++ one ∷ []) ++ two ∷ [])
      ≡ (revoke_token id successor now rows ++ one ∷ []) ++ two ∷ []
revoke_token-append_two id successor now rows one two o w =
    rw
      (
        revoke_token-append id successor now (rows ++ one ∷ []) two w,
        revoke_token-append id successor now rows one o,
      )
      refl

abbrev pub IsRefused : Rotation → Type 0
IsRefused (unauthorized message) = Unit {0}
IsRefused (rotated r) = ⊥

module _ (hash : String → String) where
  -- No token of a family without live rows is rotated.
  rotate-IsRefused :
      (family presented : String) (fresh : Fresh) (agent : Option String) (now : ℕ) (rows : Table)
      (row : RefreshTokenRow)
      → live_count family rows ≡ 0
      → find_by_hash (hash presented) rows ≡ some row
      → row.family_id ≡ family
      → IsRefused (rotate hash presented fresh agent now rows).0
  unfolding rotate
  rotate-IsRefused family presented fresh agent now rows row dead f own =
      elim (Bool-cases (presented == "")) [
        | inl p ↦ rw p tt
        | inr p ↦ elim (Bool-cases (is_live row)) [
          | inr l ↦ rw (p, f, l) tt
          | inl l ↦ absurd (
              omega (
                arith,
                subst (λ g. 0 < live_count g rows) own
                    (live_count-pos row rows (find_by_hash-Within (hash presented) rows row f) l),
                dead,
              ))
        ]
      ]

  replayed :
      (stolen : String) (now : ℕ) (fresh : Fresh) (agent : Option String) (rows : Table)
      (row : RefreshTokenRow)
      → (stolen == "") ≡ false
      → find_by_hash (hash stolen) rows ≡ some row
      → is_live row ≡ false
      → rotate hash stolen fresh agent now rows
        ≡ (unauthorized "Refresh token already used", revoke_family row.family_id now rows)
  unfolding rotate
  replayed stolen now fresh agent rows row p f l = rw (p, f, l) refl

  -- A token whose row is revoked is presented for rotation. Then it is refused; and whatever requests
  -- follow, each complete before the next and none a login under the same family, its family has no
  -- live token, and no token of the family is rotated again, the one that replaced it included.
  pub replay_ends_family :
      (stolen : String) (now : ℕ) (fresh : Fresh) (agent : Option String) (rows : Table)
      (row : RefreshTokenRow) (qs : List (ℕ × Request))
      → (stolen == "") ≡ false
      → find_by_hash (hash stolen) rows ≡ some row
      → is_live row ≡ false
      → logins row.family_id qs ≡ 0
      → let after = serve_all hash (rotate hash stolen fresh agent now rows).1 qs in
        IsRefused (rotate hash stolen fresh agent now rows).0
        × (live_count row.family_id after ≡ 0)
        × ((presented : String) (later : ℕ) (new : Fresh) (by : Option String)
              (found : RefreshTokenRow)
            → find_by_hash (hash presented) after ≡ some found
            → found.family_id ≡ row.family_id
            → IsRefused (rotate hash presented new by later after).0)
  replay_ends_family stolen now fresh agent rows row qs p f l none_begins =
      let e = replayed stolen now fresh agent rows row p f l in
      rw e (
        tt,
        dead,
        λ presented later new by found g own.
            rotate-IsRefused row.family_id presented new by later _ found dead g own,
      )
    where
      dead : live_count row.family_id (serve_all hash (revoke_family row.family_id now rows) qs) ≡ 0
      dead = omega (
        arith,
        serve_all-live_count hash row.family_id qs (revoke_family row.family_id now rows),
        live_count-revoke_family_self row.family_id now rows,
        none_begins,
      )

  look_up-live :
      (presented : String) (now : ℕ) (rows : Table) (row : RefreshTokenRow)
      → (presented == "") ≡ false
      → find_by_hash (hash presented) rows ≡ some row
      → is_live row ≡ true
      → leb row.expires_at now ≡ false
      → look_up hash presented now rows ≡ valid row
  unfolding look_up
  look_up-live presented now rows row p f l e = rw (p, f, l, e) refl

  finish_both_valid :
      (first second : ℕ) (one two : Fresh) (agent : Option String) (rows : Table)
      (row : RefreshTokenRow)
      → (one.token_id == row.token_id) ≡ false
      → (two.token_id == row.token_id) ≡ false
      → let x = finish hash (valid row) one agent first rows in
        let y = finish hash (valid row) two agent second x.1 in
        (¬ IsRefused x.0) × (¬ IsRefused y.0) × (2 ≤ live_count row.family_id y.1)
  unfolding finish
  finish_both_valid first second one two agent rows row o w = (
    (λ h. h),
    (λ h. h),
    rw
        (
          revoke_token-append row.token_id (some one.token_id) first rows (new one first) o,
          revoke_token-append_two row.token_id (some two.token_id) second
              (revoke_token row.token_id (some one.token_id) first rows) (new one first)
              (new two second) o w,
        )
        (omega (
          arith,
          live_count-append row.family_id (kept ++ new one first ∷ []) (new two second),
          live_count-append row.family_id kept (new one first),
          own one first,
          own two second,
        )),
  )
    where
      new : Fresh → ℕ → RefreshTokenRow
      new fresh now =
          token_row hash fresh row.user_id row.email row.family_id agent row.acting_provider_id now

      kept : Table
      kept =
          revoke_token row.token_id (some two.token_id) second
            (revoke_token row.token_id (some one.token_id) first rows)

      own : (fresh : Fresh) (now : ℕ) → counts row.family_id (new fresh now) ≡ 1
      own fresh now = rw (eq_refl row.family_id) refl

  -- Two requests present the same live token, and each reads its row before either writes. Then both
  -- are answered with a new token.
  pub finish_both :
      (presented : String) (first second : ℕ) (one two : Fresh) (agent : Option String)
      (rows : Table) (row : RefreshTokenRow)
      → (presented == "") ≡ false
      → find_by_hash (hash presented) rows ≡ some row
      → is_live row ≡ true
      → leb row.expires_at first ≡ false
      → leb row.expires_at second ≡ false
      → (one.token_id == row.token_id) ≡ false
      → (two.token_id == row.token_id) ≡ false
      → let a = look_up hash presented first rows in
        let b = look_up hash presented second rows in
        let x = finish hash a one agent first rows in
        let y = finish hash b two agent second x.1 in
        (¬ IsRefused x.0) × (¬ IsRefused y.0) × (2 ≤ live_count row.family_id y.1)
  finish_both presented first second one two agent rows row p f l s t o w =
      rw
        (
          look_up-live presented first rows row p f l s,
          look_up-live presented second rows row p f l t,
        )
        (finish_both_valid first second one two agent rows row o w)
