-- ===== src/Prelude/Sublists.antt =====
-- One list inside another, in order and with gaps.
use Prim.Native.Nat.{ℕ, zero, suc, ◌≤◌}
use mathlib.Core.Path.{◌≡◌, refl, ◌∙◌}
use mathlib.Core.Logic.{◌⊎◌, inl, inr}
use mathlib.Core.List.{List, [], ◌∷◌, ◌++◌}
use native.Mathlib.Omega.{arith}
use competition_factory_serv.Prelude.Lists.{length, take}

module _ {A : Type 0} where
  abbrev pub Sublist : List A → List A → Type 0
  Sublist [] ys = Unit
  Sublist (x ∷ xs) [] = ⊥
  Sublist (x ∷ xs) (y ∷ ys) = ((x ≡ y) × Sublist xs ys) ⊎ Sublist (x ∷ xs) ys

  pub sublist_skip : (xs ys : List A) (y : A) → Sublist xs ys → Sublist xs (y ∷ ys)
  sublist_skip [] ys y h = tt
  sublist_skip (x ∷ xs) ys y h = inr h

  sublist_before : (xs ys us : List A) → Sublist us xs → Sublist us (ys ++ xs)
  sublist_before xs [] us h = h
  sublist_before xs (y ∷ ys) us h = sublist_skip us (ys ++ xs) y (sublist_before xs ys us h)

  pub sublist_append :
      (xs ys us vs : List A) → Sublist xs ys → Sublist us vs → Sublist (xs ++ us) (ys ++ vs)
  sublist_append [] ys us vs h k = sublist_before vs ys us k
  sublist_append (x ∷ xs) [] us vs h k = absurd h
  sublist_append (x ∷ xs) (y ∷ ys) us vs (inl (e, h)) k = inl (e, sublist_append xs ys us vs h k)
  sublist_append (x ∷ xs) (y ∷ ys) us vs (inr h) k = inr (sublist_append (x ∷ xs) ys us vs h k)

  pub sublist_refl : (xs : List A) → Sublist xs xs
  sublist_refl [] = tt
  sublist_refl (x ∷ xs) = inl (refl, sublist_refl xs)

  pub sublist_take : (n : ℕ) (xs : List A) → Sublist (take n xs) xs
  sublist_take zero xs = tt
  sublist_take (suc n) [] = tt
  sublist_take (suc n) (x ∷ xs) = inl (refl, sublist_take n xs)

  pub sublist_trans : (xs ys zs : List A) → Sublist xs ys → Sublist ys zs → Sublist xs zs
  sublist_trans [] ys zs h k = tt
  sublist_trans (x ∷ xs) [] zs h k = absurd h
  sublist_trans (x ∷ xs) (y ∷ ys) [] h k = absurd k
  sublist_trans (x ∷ xs) (y ∷ ys) (z ∷ zs) (inl (e, h)) (inl (f, k)) =
      inl (e ∙ f, sublist_trans xs ys zs h k)
  sublist_trans (x ∷ xs) (y ∷ ys) (z ∷ zs) (inr h) (inl (f, k)) =
      inr (sublist_trans (x ∷ xs) ys zs h k)
  sublist_trans (x ∷ xs) (y ∷ ys) (z ∷ zs) h (inr k) = inr (sublist_trans (x ∷ xs) (y ∷ ys) zs h k)

  sublist-length : (xs ys : List A) → Sublist xs ys → length xs ≤ length ys
  sublist-length [] ys h = omega arith
  sublist-length (x ∷ xs) [] h = absurd h
  sublist-length (x ∷ xs) (y ∷ ys) (inl (e, h)) = omega (arith, sublist-length xs ys h)
  sublist-length (x ∷ xs) (y ∷ ys) (inr h) = omega (arith, sublist-length (x ∷ xs) ys h)

  -- A sublist as long as the whole is the whole.
  pub sublist_whole : (xs ys : List A) → Sublist xs ys → length xs ≡ length ys → xs ≡ ys
  sublist_whole [] [] h e = refl
  sublist_whole [] (y ∷ ys) h e = absurd (omega (arith, e))
  sublist_whole (x ∷ xs) [] h e = absurd h
  sublist_whole (x ∷ xs) (y ∷ ys) (inl (p, h)) e = rw (p, sublist_whole xs ys h (omega (arith, e)))
  sublist_whole (x ∷ xs) (y ∷ ys) (inr h) e =
      absurd (omega (arith, sublist-length (x ∷ xs) ys h, e))
