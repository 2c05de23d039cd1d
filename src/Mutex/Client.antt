-- ===== src/Mutex/Client.antt =====
-- `withTournamentLock` of src/services/tournamentMutex.ts as a state machine, and any number of
-- calls of it interleaved. A step runs one call up to its next `await` or, in the two release
-- loops, which have none, to the next release: the machine has every interleaving of the code, and more.
-- `sort` is the runtime's `[...ids].sort()`.
use competition_factory_serv.Prelude.{
  ℕ, String, Bool, Option, none, some, List, [], ◌∷◌, ◌++◌, if◌then◌else◌, nat_eq,
}
use competition_factory_serv.Mutex.Lock.{Locks, acquire, release, expire}

-- `acquiring sorted todo acquired` is the loop over `sortedIds`; `releasing` holds the ids whose
-- release is to come, and how the call ends: by the function's result or by the timeout.
pub data Outcome : Type 0 where
  settled timed_out : Outcome

pub data Phase : Type 0 where
  idle : Phase
  acquiring : List String → List String → List String → Phase
  waiting : String → List String → List String → List String → Phase
  running : List String → Phase
  releasing : List String → Outcome → Phase
  done : Outcome → Phase

pub record System : Type 0 where
  pub locks : Locks
  pub phase : ℕ → Phase

abbrev pub set_phase : (ℕ → Phase) → ℕ → Phase → ℕ → Phase
set_phase phase c p d = if nat_eq d c then p else phase d

-- A resolved promise: the call has the lock and goes on with its loop.
abbrev pub woken : Phase → Phase
woken (waiting id sorted todo acquired) = acquiring sorted todo (acquired ++ id ∷ [])
woken p = p

abbrev pub wake : (ℕ → Phase) → Option ℕ → ℕ → Phase
wake phase none = phase
wake phase (some n) = set_phase phase n (woken (phase n))

abbrev pub after_acquire :
    System → ℕ → String → List String → List String → List String → Locks × Bool → System
after_acquire s c id sorted todo acquired (locks, taken) = record {
  locks = locks;
  phase = set_phase s.phase c (
      if taken
      then acquiring sorted todo (acquired ++ id ∷ [])
      else waiting id sorted todo acquired);
}

abbrev pub after_release : System → ℕ → List String → Outcome → Locks × Option ℕ → System
after_release s c ids outcome (locks, next) = record {
  locks = locks;
  phase = wake (set_phase s.phase c (releasing ids outcome)) next;
}

abbrev pub advance_from : System → ℕ → Phase → System
advance_from s c idle = s
advance_from s c (acquiring sorted (id ∷ todo) acquired) =
    after_acquire s c id sorted todo acquired (acquire s.locks id c)
advance_from s c (acquiring sorted [] acquired) = record s {
  phase = set_phase s.phase c (running sorted);
}
advance_from s c (waiting id sorted todo acquired) = s
advance_from s c (running sorted) = record s {
  phase = set_phase s.phase c (releasing sorted settled);
}
advance_from s c (releasing (id ∷ ids) outcome) = after_release s c ids outcome (release s.locks id)
advance_from s c (releasing [] outcome) = record s { phase = set_phase s.phase c (done outcome) }
advance_from s c (done outcome) = s

abbrev pub expire_from : System → ℕ → Phase → System
expire_from s c (waiting id sorted todo acquired) = record {
  locks = expire s.locks id c;
  phase = set_phase s.phase c (releasing acquired timed_out);
}
expire_from s c p = s

abbrev pub call_from : (List String → List String) → System → ℕ → List String → Phase → System
call_from sort s c ids idle = record s {
  phase = set_phase s.phase c (acquiring (sort ids) (sort ids) []);
}
call_from sort s c ids p = s

pub data Event : Type 0 where
  call : ℕ → List String → Event
  advance : ℕ → Event
  timeout : ℕ → Event

unfoldable pub step : (List String → List String) → System → Event → System
step sort s (call c ids) = call_from sort s c ids (s.phase c)
step sort s (advance c) = advance_from s c (s.phase c)
step sort s (timeout c) = expire_from s c (s.phase c)

unfoldable pub run : (List String → List String) → System → List Event → System
unfolding step
run sort s [] = s
run sort s (e ∷ es) = run sort (step sort s e) es

abbrev pub initial : System
initial = record { locks = λ _. none; phase = λ _. idle }
