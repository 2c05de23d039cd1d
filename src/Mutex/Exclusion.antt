-- ===== src/Mutex/Exclusion.antt =====
-- The invariant of the lock: what a call holds nobody else holds.
pub mod Acquire
pub mod Release
pub mod Expire
pub mod Steps
use competition_factory_serv.Prelude.{
  ℕ, String, ◌==◌, eq_iff, ◌≡◌, refl, Bool, true, false, not, ◌||◌, Option, none, some,
  some-injective, List, [], ◌∷◌, ◌++◌, nat_eq, includes, inl, inr, Bool-cases,
}
use competition_factory_serv.Mutex.Lock.{LockEntry, Locks, put, is_tournament_locked}
use competition_factory_serv.Mutex.Client.{
  Phase, idle, acquiring, waiting, running, releasing, done, System, set_phase,
}

-- The ids whose lock a call has and has not released.
abbrev pub held : Phase → List String
held idle = []
held (acquiring sorted todo acquired) = acquired
held (waiting id sorted todo acquired) = acquired
held (running sorted) = sorted
held (releasing ids outcome) = ids
held (done outcome) = []

abbrev pub awaits : Phase → String → Bool
awaits (waiting id sorted todo acquired) j = id == j
awaits p j = false

abbrev pub member : List ℕ → ℕ → Bool
member [] n = false
member (x ∷ xs) n = nat_eq x n || member xs n

abbrev pub IsDistinct : List ℕ → Type 0
IsDistinct [] = Unit {0}
IsDistinct (x ∷ xs) = (member xs x ≡ false) × IsDistinct xs

abbrev pub IsDistinctTexts : List String → Type 0
IsDistinctTexts [] = Unit {0}
IsDistinctTexts (x ∷ xs) = (includes xs x ≡ false) × IsDistinctTexts xs

-- The loop has the ids that it has taken, in order, before those that it has not.
abbrev pub IsWhole : Phase → Type 0
IsWhole (acquiring sorted todo acquired) = acquired ++ todo ≡ sorted
IsWhole (waiting id sorted todo acquired) = acquired ++ id ∷ todo ≡ sorted
IsWhole p = Unit {0}

pub record Inv (s : System) : Type 0 where
  pub exclusive :
      (c d : ℕ) (id : String)
      → includes (held (s.phase c)) id ≡ true
      → includes (held (s.phase d)) id ≡ true
      → c ≡ d
  pub owned :
      (c : ℕ) (id : String)
      → includes (held (s.phase c)) id ≡ true
      → is_tournament_locked s.locks id ≡ true
  pub active : (id : String) (e : LockEntry) → s.locks id ≡ some e → e.active ≡ true
  pub queued :
      (id : String) (e : LockEntry) (n : ℕ)
      → s.locks id ≡ some e
      → member e.queue n ≡ true
      → awaits (s.phase n) id ≡ true
  pub distinct : (id : String) (e : LockEntry) → s.locks id ≡ some e → IsDistinct e.queue
  pub once : (c : ℕ) → IsDistinctTexts (held (s.phase c))
  pub whole : (c : ℕ) → IsWhole (s.phase c)

-- What holds of the new phase and of every old one holds of every phase after the change.
pub set_phase-all :
    (P : Phase → Type 0) (phase : ℕ → Phase) (c : ℕ) (p : Phase)
    → P p
    → ((d : ℕ) → P (phase d))
    → (d : ℕ) → P (set_phase phase c p d)
set_phase-all P phase c p h k d = elim (Bool-cases (nat_eq d c)) [
  | inl e ↦ rw e h
  | inr e ↦ rw e (k d)
]

-- The same for the entry that is put and the entries of the map.
pub put-all :
    (P : LockEntry → Type 0) (locks : Locks) (id : String) (e : LockEntry)
    → P e
    → ((j : String) (f : LockEntry) → locks j ≡ some f → P f)
    → (j : String) (f : LockEntry) → put locks id (some e) j ≡ some f
    → P f
put-all P locks id e h k j f q = elim (Bool-cases (j == id)) [
  | inl t ↦ let same : some e ≡ some f = rw t at q in rw (← some-injective e f same) h
  | inr t ↦ k j f (rw t at q)
]

pub waiting_of_awaits :
    (p : Phase) (id : String)
    → awaits p id ≡ true
    → (sorted todo acquired : List String) × (p ≡ waiting id sorted todo acquired)
waiting_of_awaits (waiting j sorted todo acquired) id h =
    (sorted, todo, acquired, rw ((eq_iff j id).0 h) refl)
waiting_of_awaits p id h = cc
