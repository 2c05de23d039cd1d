-- ===== src/Mutex/Exclusion/Release.antt =====
-- Releasing a lock, and a waiting call that gives up, keep the invariant.
use competition_factory_serv.Prelude.{
  ℕ, String, ◌==◌, eq_iff, eq_refl, ◌≡◌, ◌∙◌, true, false, ◌||◌, none, some, List, [], ◌∷◌, ◌++◌,
  arith, nat_eq, includes, includes-concat, append-cons, if◌then◌else◌,
}
use competition_factory_serv.Mutex.Lock.{LockEntry, put, is_tournament_locked}
use competition_factory_serv.Mutex.Client.{
  Phase, acquiring, waiting, releasing, System, set_phase, Outcome,
}
use competition_factory_serv.Mutex.Exclusion.{
  held, IsDistinct, IsDistinctTexts, IsWhole, Inv, set_phase-all, put-all,
}
use competition_factory_serv.Mutex.Exclusion.Acquire.{IsDistinctTexts-concat}

abbrev pub freed : System → ℕ → String → List String → Outcome → System
freed s c id ids outcome = record {
  locks = put s.locks id none;
  phase = set_phase s.phase c (releasing ids outcome);
}

abbrev pub handed :
    System → ℕ → String → List String → Outcome → LockEntry → List ℕ → ℕ → Phase → System
handed s c id ids outcome e rest n p = record {
  locks = put s.locks id (some (record e { queue = rest }));
  phase = set_phase (set_phase s.phase c (releasing ids outcome)) n p;
}

module _ (s : System) (c : ℕ) (id : String) (ids : List String) (outcome : Outcome) (v : Inv s)
    (here : s.phase c ≡ releasing (id ∷ ids) outcome) where
  once_here : IsDistinctTexts (id ∷ ids)
  once_here = rw here at (v.once c)

  -- Only the releasing call holds the lock.
  others : (d : ℕ) → nat_eq d c ≡ false → includes (held (s.phase d)) id ≡ false
  others d h = ground (arith, here, eq_refl id, v.exclusive d c id)

  module _ (e : LockEntry) (busy : s.locks id ≡ some e) (empty : e.queue ≡ []) where
    pub freed-Inv : Inv (freed s c id ids outcome)
    unfolding is_tournament_locked
    freed-Inv = record {
      exclusive = λ a b j h k.
          ground (arith, here, v.exclusive a b j, v.exclusive c b j, v.exclusive a c j);
      owned = λ a j h. ground (arith, here, v.owned a j, others a, once_here.0, eq_iff j id);
      active = λ j f h. ground (arith, v.active j f);
      queued = λ j f n h m. ground (arith, here, v.queued j f n);
      distinct = λ j f h. v.distinct j f (ground arith);
      once = set_phase-all (λ p. IsDistinctTexts (held p)) s.phase c _ once_here.1 v.once;
      whole = set_phase-all IsWhole s.phase c _ tt v.whole;
    }

  module _ (e : LockEntry) (busy : s.locks id ≡ some e) (n : ℕ) (rest : List ℕ)
      (queue : e.queue ≡ n ∷ rest) (sorted todo acquired : List String)
      (waits : s.phase n ≡ waiting id sorted todo acquired) where
    abbrev next : System
    next = handed s c id ids outcome e rest n (acquiring sorted todo (acquired ++ id ∷ []))

    apart : nat_eq n c ≡ false
    apart = ground (arith, here, waits)

    queue_here : IsDistinct (n ∷ rest)
    queue_here = rw queue at (v.distinct id e busy)

    held-next :
        (d : ℕ) (j : String)
        → includes (held (next.phase d)) j ≡ (
            if nat_eq d n
            then includes acquired j || id == j
            else if nat_eq d c
            then includes ids j
            else includes (held (s.phase d)) j)
    held-next d j = ground (arith, includes-concat acquired id j)

    waiter_without : includes acquired id ≡ false
    waiter_without = ground (arith, waits, others n apart)

    next-exclusive :
        (a b : ℕ) (j : String)
        → includes (held (next.phase a)) j ≡ true
        → includes (held (next.phase b)) j ≡ true
        → a ≡ b
    next-exclusive a b j h k = ground (
      arith,
      here,
      waits,
      held-next a j,
      held-next b j,
      eq_iff id j,
      once_here.0,
      others a,
      others b,
      v.exclusive a b j,
      v.exclusive n b j,
      v.exclusive a n j,
      v.exclusive c b j,
      v.exclusive a c j,
      v.exclusive n c j,
      v.exclusive c n j,
    )

    pub handed-Inv : Inv next
    unfolding is_tournament_locked
    handed-Inv = record {
      exclusive = next-exclusive;
      owned = λ a j h. ground (
        arith,
        here,
        waits,
        busy,
        held-next a j,
        v.owned a j,
        v.owned n j,
        v.owned c j,
        v.active id e,
        eq_iff id j,
        eq_iff j id,
      );
      active = λ j f h. ground (arith, busy, v.active j f, v.active id e);
      queued = λ j f m h q. ground (
        arith,
        here,
        waits,
        busy,
        queue,
        queue_here.0,
        v.queued j f m,
        v.queued id e m,
        eq_iff id j,
        eq_iff j id,
      );
      distinct = put-all (λ f. IsDistinct f.queue) s.locks id _ queue_here.1 v.distinct;
      once =
          set_phase-all (λ p. IsDistinctTexts (held p)) _ n _
            (IsDistinctTexts-concat acquired id (rw waits at (v.once n)) waiter_without)
            (set_phase-all (λ p. IsDistinctTexts (held p)) s.phase c _ once_here.1 v.once);
      whole =
          set_phase-all IsWhole _ n _ (append-cons acquired todo id ∙ (rw waits at (v.whole n)))
            (set_phase-all IsWhole s.phase c _ tt v.whole);
    }
