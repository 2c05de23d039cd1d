-- ===== src/Mutex/Exclusion/Acquire.antt =====
-- Taking a lock, or joining its queue, keeps the invariant.
use competition_factory_serv.Prelude.{
  ℕ, String, eq_iff, ◌≡◌, refl, ◌∙◌, true, false, ◌||◌, none, some, List, [], ◌∷◌, ◌++◌, arith,
  nat_eq, includes, includes-concat, append-cons,
}
use competition_factory_serv.Mutex.Lock.{LockEntry, put, is_tournament_locked}
use competition_factory_serv.Mutex.Client.{acquiring, waiting, System, set_phase}
use competition_factory_serv.Mutex.Exclusion.{
  held, member, IsDistinct, IsDistinctTexts, IsWhole, Inv, set_phase-all, put-all,
}

pub IsDistinctTexts-concat :
    (xs : List String) (x : String)
    → IsDistinctTexts xs
    → includes xs x ≡ false
    → IsDistinctTexts (xs ++ x ∷ [])
IsDistinctTexts-concat [] x d h = (refl, tt)
IsDistinctTexts-concat (y ∷ xs) x (a, d) h = (
  ground (arith, includes-concat xs x y, eq_iff x y, eq_iff y x),
  IsDistinctTexts-concat xs x d (ground arith),
)

abbrev pub taken : System → ℕ → String → List String → List String → List String → System
taken s c id sorted todo acquired = record {
  locks = put s.locks id (some (record { queue = []; active = true }));
  phase = set_phase s.phase c (acquiring sorted todo (acquired ++ id ∷ []));
}

abbrev pub enqueued :
    System → ℕ → String → List String → List String → List String → LockEntry → System
enqueued s c id sorted todo acquired e = record {
  locks = put s.locks id (some (record e { queue = e.queue ++ c ∷ [] }));
  phase = set_phase s.phase c (waiting id sorted todo acquired);
}

member-concat : (xs : List ℕ) (x n : ℕ) → member (xs ++ x ∷ []) n ≡ (member xs n || nat_eq x n)
member-concat [] x n = ground arith
member-concat (y ∷ xs) x n = ground (arith, member-concat xs x n)

IsDistinct-concat :
    (xs : List ℕ) (x : ℕ) → IsDistinct xs → member xs x ≡ false → IsDistinct (xs ++ x ∷ [])
IsDistinct-concat [] x d h = (refl, tt)
IsDistinct-concat (y ∷ xs) x (a, d) h =
    (ground (arith, member-concat xs x y), IsDistinct-concat xs x d (ground arith))

module _ (s : System) (c : ℕ) (id : String) (sorted todo acquired : List String) (v : Inv s)
    (here : s.phase c ≡ acquiring sorted (id ∷ todo) acquired) where
  whole_here : acquired ++ id ∷ todo ≡ sorted
  whole_here = rw here at (v.whole c)

  once_here : IsDistinctTexts acquired
  once_here = rw here at (v.once c)

  module _ (free : s.locks id ≡ none) where
    free_of : (d : ℕ) → includes (held (s.phase d)) id ≡ false
    unfolding is_tournament_locked
    free_of d = ground (arith, v.owned d id)

    taken-exclusive :
        (a b : ℕ) (j : String)
        → includes (held ((taken s c id sorted todo acquired).phase a)) j ≡ true
        → includes (held ((taken s c id sorted todo acquired).phase b)) j ≡ true
        → a ≡ b
    taken-exclusive a b j h k = ground (
      arith,
      here,
      includes-concat acquired id j,
      eq_iff id j,
      free_of a,
      free_of b,
      free_of c,
      v.exclusive a b j,
      v.exclusive c b j,
      v.exclusive a c j,
    )

    pub taken-Inv : Inv (taken s c id sorted todo acquired)
    unfolding is_tournament_locked
    taken-Inv = record {
      exclusive = taken-exclusive;
      owned = λ a j h. ground (
        arith,
        here,
        includes-concat acquired id j,
        eq_iff id j,
        eq_iff j id,
        v.owned a j,
        v.owned c j,
      );
      active = λ j e h. ground (arith, v.active j e);
      queued = λ j e n h m. ground (arith, here, v.queued j e n);
      distinct = λ j e h. ground (arith, v.distinct j e);
      once =
          set_phase-all (λ p. IsDistinctTexts (held p)) s.phase c _
            (IsDistinctTexts-concat acquired id once_here (ground (arith, free_of c, here))) v.once;
      whole = set_phase-all IsWhole s.phase c _ (append-cons acquired todo id ∙ whole_here) v.whole;
    }

  module _ (e : LockEntry) (busy : s.locks id ≡ some e) where
    held_same :
        (d : ℕ) (j : String)
        → includes (held ((enqueued s c id sorted todo acquired e).phase d)) j
          ≡ includes (held (s.phase d)) j
    held_same d j = ground (arith, here)

    not_queued : member e.queue c ≡ false
    not_queued = ground (arith, here, v.queued id e c busy)

    pub enqueued-Inv : Inv (enqueued s c id sorted todo acquired e)
    unfolding is_tournament_locked
    enqueued-Inv = record {
      exclusive = λ a b j h k. ground (arith, held_same a j, held_same b j, v.exclusive a b j);
      owned = λ a j h. ground (arith, busy, held_same a j, v.owned a j, v.active id e, eq_iff j id);
      active = λ j f h. ground (arith, v.active j f, v.active id e, busy);
      queued = λ j f n h m. ground (
        arith,
        here,
        busy,
        v.queued j f n,
        v.queued id e n,
        member-concat e.queue c n,
        eq_iff j id,
        eq_iff id j,
      );
      distinct =
          put-all (λ f. IsDistinct f.queue) s.locks id _
            (IsDistinct-concat e.queue c (v.distinct id e busy) not_queued) v.distinct;
      once = set_phase-all (λ p. IsDistinctTexts (held p)) s.phase c _ once_here v.once;
      whole = set_phase-all IsWhole s.phase c _ whole_here v.whole;
    }
