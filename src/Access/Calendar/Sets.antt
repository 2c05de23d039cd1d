-- ===== src/Access/Calendar/Sets.antt =====
-- A JavaScript Set of strings as a list in insertion order.
use competition_factory_serv.Prelude.{
  String, ◌==◌, eq_iff, ◌≡◌, ◌||◌, List, [], ◌∷◌, ◌++◌, arith, if◌then◌else◌, includes,
  includes-concat,
}

unfoldable pub set_add : List String → String → List String
set_add xs x = if includes xs x then xs else xs ++ x ∷ []

unfoldable pub add_all : List String → List String → List String
add_all set [] = set
add_all set (x ∷ xs) = add_all (set_add set x) xs

unfoldable pub to_set : List String → List String
unfolding add_all set_add
to_set xs = add_all [] xs

pub includes-set_add :
    (xs : List String) (x s : String) → includes (set_add xs x) s ≡ includes xs s || x == s
unfolding set_add
includes-set_add xs x s = ground (arith, includes-concat xs x s, eq_iff x s)

pub includes-add_all :
    (set xs : List String) (s : String)
    → includes (add_all set xs) s ≡ includes set s || includes xs s
unfolding add_all
includes-add_all set [] s = ground arith
includes-add_all set (x ∷ xs) s =
    ground (arith, includes-add_all (set_add set x) xs s, includes-set_add set x s)

pub includes-to_set : (xs : List String) (s : String) → includes (to_set xs) s ≡ includes xs s
unfolding to_set
includes-to_set xs s = includes-add_all [] xs s
