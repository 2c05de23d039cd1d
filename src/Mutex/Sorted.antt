-- ===== src/Mutex/Sorted.antt =====
-- A concrete sort of tournament ids: it has what the lock's order asks of the runtime's sort.
use competition_factory_serv.Prelude.{
  String, ◌==◌, eq_iff, ◌≡◌, refl, true, false, ◌||◌, List, [], ◌∷◌, if◌then◌else◌, arith, includes,
  All, All-map, Bool-cases, inl, inr,
}
use competition_factory_serv.Mutex.TextOrder.{text_lt, text_lt_irrefl, text_lt_trans, text_eq_of_lt}
use competition_factory_serv.Mutex.Order.{Sorting, Sorts, IsAscending}

unfoldable pub insert_sorted : String → List String → List String
insert_sorted x [] = x ∷ []
insert_sorted x (y ∷ ys) = if text_lt x y then x ∷ y ∷ ys else y ∷ insert_sorted x ys

unfoldable pub insertion_sort : List String → List String
unfolding insert_sorted
insertion_sort [] = []
insertion_sort (x ∷ xs) = insert_sorted x (insertion_sort xs)

pub not_below_itself : (a : String) → text_lt a a ≡ true → ⊥
not_below_itself a h = cc (text_lt_irrefl a)

abbrev pub by_text : Sorting
by_text = record {
  lt = λ a b. text_lt a b ≡ true;
  lt_trans = text_lt_trans;
  lt_irrefl = not_below_itself;
  sort = insertion_sort;
}

includes-insert_sorted :
    (x : String) (ys : List String) (s : String)
    → includes (insert_sorted x ys) s ≡ x == s || includes ys s
unfolding insert_sorted
includes-insert_sorted x [] s = refl
includes-insert_sorted x (y ∷ ys) s = ground (arith, includes-insert_sorted x ys s)

includes-insertion_sort :
    (xs : List String) (s : String) → includes (insertion_sort xs) s ≡ includes xs s
unfolding insertion_sort
includes-insertion_sort [] s = refl
includes-insertion_sort (x ∷ xs) s =
    ground (arith, includes-insert_sorted x (insertion_sort xs) s, includes-insertion_sort xs s)

All-insert_sorted :
    (z x : String) (ys : List String)
    → text_lt z x ≡ true
    → All (λ y. text_lt z y ≡ true) ys
    → All (λ y. text_lt z y ≡ true) (insert_sorted x ys)
unfolding insert_sorted
All-insert_sorted z x [] h k = (h, tt)
All-insert_sorted z x (y ∷ ys) h (k, ks) = elim (Bool-cases (text_lt x y)) [
  | inl e ↦ rw e (h, (k, ks))
  | inr e ↦ rw e (k, All-insert_sorted z x ys h ks)
]

IsAscending-insert_sorted :
    (x : String) (ys : List String)
    → IsAscending by_text ys
    → includes ys x ≡ false
    → IsAscending by_text (insert_sorted x ys)
unfolding insert_sorted
IsAscending-insert_sorted x [] a h = (tt, tt)
IsAscending-insert_sorted x (y ∷ ys) (a, bs) h = elim (Bool-cases (text_lt x y)) [
  | inl e ↦ rw e ((e, All-map ys (λ z k. text_lt_trans x y z e k) a), (a, bs))
  | inr e ↦ rw e (
    All-insert_sorted y x ys (ground (arith, e, text_eq_of_lt x y, eq_iff y x)) a,
    IsAscending-insert_sorted x ys bs (ground arith),
  )
]

pub insertion_sort-Sorts : Sorts by_text
unfolding insertion_sort
insertion_sort-Sorts [] d = tt
insertion_sort-Sorts (x ∷ xs) (h, d) =
    IsAscending-insert_sorted x (insertion_sort xs) (insertion_sort-Sorts xs d)
      (ground (arith, includes-insertion_sort xs x))
