-- ===== src/Mutex/Exclusion/Expire.antt =====
-- A waiting call that gives up, and a step that touches no lock, keep the invariant.
use competition_factory_serv.Prelude.{
  ℕ, String, eq_iff, ◌≡◌, refl, true, false, some, List, [], ◌∷◌, arith, nat_eq, Bool-cases, inl,
  inr,
}
use competition_factory_serv.Mutex.Lock.{LockEntry, put, remove_first, is_tournament_locked}
use competition_factory_serv.Mutex.Client.{Phase, waiting, releasing, System, set_phase, timed_out}
use competition_factory_serv.Mutex.Exclusion.{
  held, awaits, member, IsDistinct, IsDistinctTexts, IsWhole, Inv, set_phase-all, put-all,
}

member-remove_first :
    (xs : List ℕ) (c n : ℕ) → member (remove_first xs c) n ≡ true → member xs n ≡ true
unfolding remove_first
member-remove_first [] c n h = h
member-remove_first (x ∷ xs) c n h = ground (arith, member-remove_first xs c n)

member-remove_first_self :
    (xs : List ℕ) (c : ℕ) → IsDistinct xs → member (remove_first xs c) c ≡ false
unfolding remove_first
member-remove_first_self [] c d = refl
member-remove_first_self (x ∷ xs) c (a, d) = ground (arith, member-remove_first_self xs c d)

IsDistinct-remove_first : (xs : List ℕ) (c : ℕ) → IsDistinct xs → IsDistinct (remove_first xs c)
unfolding remove_first
IsDistinct-remove_first [] c d = tt
IsDistinct-remove_first (x ∷ xs) c (a, d) = elim (Bool-cases (nat_eq x c)) [
  | inl h ↦ rw h d
  | inr h ↦ rw h (ground (arith, a, member-remove_first xs c x), IsDistinct-remove_first xs c d)
]

module _ (s : System) (v : Inv s) (c : ℕ) (p : Phase) where
  -- A change of one call's phase that keeps what it holds, and waits for each lock in whose queue it stands.
  pub relabel-Inv :
      held p ≡ held (s.phase c)
      → ((j : String) (e : LockEntry)
          → s.locks j ≡ some e
          → member e.queue c ≡ true
          → awaits p j ≡ true)
      → IsWhole p
      → Inv (record s { phase = set_phase s.phase c p })
  relabel-Inv h w k = record {
    exclusive = λ a b j x y. ground (arith, h, v.exclusive a b j);
    owned = λ a j x. ground (arith, h, v.owned a j);
    active = v.active;
    queued = λ j e n x y. ground (arith, w j e, v.queued j e n x y);
    distinct = v.distinct;
    once = set_phase-all (λ q. IsDistinctTexts (held q)) s.phase c p (rw h (v.once c)) v.once;
    whole = set_phase-all IsWhole s.phase c p k v.whole;
  }

abbrev pub expired : System → ℕ → String → List String → LockEntry → System
expired s c id acquired e = record {
  locks = put s.locks id (some (record e { queue = remove_first e.queue c }));
  phase = set_phase s.phase c (releasing acquired timed_out);
}

module _ (s : System) (v : Inv s) (c : ℕ) (id : String) (sorted todo acquired : List String)
    (here : s.phase c ≡ waiting id sorted todo acquired) (e : LockEntry)
    (busy : s.locks id ≡ some e) where
  pub expired-Inv : Inv (expired s c id acquired e)
  unfolding is_tournament_locked
  expired-Inv = record {
    exclusive = λ a b j x y. ground (arith, here, v.exclusive a b j);
    owned = λ a j x. ground (arith, here, busy, v.owned a j, v.active id e, eq_iff j id);
    active = λ j f h. ground (arith, busy, v.active j f, v.active id e);
    queued = λ j f n h q. ground (
      arith,
      here,
      busy,
      v.queued j f n,
      v.queued id e n,
      member-remove_first e.queue c n,
      member-remove_first_self e.queue c (v.distinct id e busy),
      eq_iff id j,
      eq_iff j id,
    );
    distinct =
        put-all (λ f. IsDistinct f.queue) s.locks id _
          (IsDistinct-remove_first e.queue c (v.distinct id e busy)) v.distinct;
    once = set_phase-all (λ q. IsDistinctTexts (held q)) s.phase c _ (rw here at (v.once c)) v.once;
    whole = set_phase-all IsWhole s.phase c _ tt v.whole;
  }
