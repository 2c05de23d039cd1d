-- ===== src/Mutex/Lock.antt =====
-- `acquire`, `release` and the lock timeout of src/services/tournamentMutex.ts. A promise that waits
-- for a lock is the number of the call that awaits it. A call waits for one lock at a time, so the
-- number stands for its resolver.
use competition_factory_serv.Prelude.{
  ℕ, String, ◌==◌, Bool, true, false, not, Option, none, some, List, [], ◌∷◌, ◌++◌, if◌then◌else◌,
  nat_eq,
}

pub record LockEntry : Type 0 where
  pub queue : List ℕ
  pub active : Bool

-- `const locks = new Map<string, LockEntry>()`
abbrev pub Locks : Type 0
Locks = String → Option LockEntry

abbrev pub put : Locks → String → Option LockEntry → Locks
put locks id e j = if j == id then e else locks j

abbrev pub entry_or_new : Option LockEntry → LockEntry
entry_or_new none = record { queue = []; active = false }
entry_or_new (some e) = e

-- The second component says whether the lock is taken at once; if not, the call has joined the queue.
unfoldable pub acquire : Locks → String → ℕ → Locks × Bool
acquire locks id c =
    let entry = entry_or_new (locks id) in
    if not entry.active
    then (put locks id (some (record entry { active = true })), true)
    else (put locks id (some (record entry { queue = entry.queue ++ c ∷ [] })), false)

abbrev pub release_queue : Locks → String → LockEntry → List ℕ → Locks × Option ℕ
release_queue locks id e [] = (put locks id none, none)
release_queue locks id e (next ∷ rest) =
    (put locks id (some (record e { queue = rest })), some next)

abbrev pub release_entry : Locks → String → Option LockEntry → Locks × Option ℕ
release_entry locks id none = (locks, none)
release_entry locks id (some e) = release_queue locks id e e.queue

-- The second component is the call whose promise is resolved.
unfoldable pub release : Locks → String → Locks × Option ℕ
release locks id = release_entry locks id (locks id)

-- `splice` at the first index of an element, if it has one
unfoldable pub remove_first : List ℕ → ℕ → List ℕ
remove_first [] c = []
remove_first (x ∷ xs) c = if nat_eq x c then xs else x ∷ remove_first xs c

abbrev pub expire_entry : Locks → String → ℕ → Option LockEntry → Locks
expire_entry locks id c none = locks
expire_entry locks id c (some e) = put locks id (some (record e { queue = remove_first e.queue c }))

-- The timer's callback, whose `entry` is the one in the map.
unfoldable pub expire : Locks → String → ℕ → Locks
expire locks id c = expire_entry locks id c (locks id)

abbrev pub active_of : Option LockEntry → Bool
active_of none = false
active_of (some e) = e.active

unfoldable pub is_tournament_locked : Locks → String → Bool
is_tournament_locked locks id = active_of (locks id)
