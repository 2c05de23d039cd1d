-- ===== src/Integrity/Memory.antt =====
-- The fingerprint memory of src/modules/factory/helpers/executionQueueIntegrity.ts: an insertion-ordered
-- Map used as a least-recently-used cache of the draws' last finding sets.
use Prim.Native.String
use Prim.Native.String.{len, slice}
pub mod Recent
use competition_factory_serv.Prelude.{
  ℕ, suc, ◌-◌, String, ◌&&◌, ◌==◌, Bool, true, false, not, Option, none, some, List, [], ◌∷◌, ◌++◌,
  if◌then◌else◌, leb, length, filter, lookup,
}
use competition_factory_serv.Integrity.Issues.{OpenDrawFinding}

abbrev pub max_tracked_draws : ℕ
max_tracked_draws = 5000

-- `fingerprints` is a Map by fingerprint.
pub record DrawMemory : Type 0 where
  pub fingerprints : List (String × OpenDrawFinding)
  pub pre_existing_logged : Bool

abbrev pub Memory : Type 0
Memory = List (String × DrawMemory)

abbrev or_empty : Option String → String
or_empty none = ""
or_empty (some s) = s

unfoldable pub memory_key : Option String → String → String
memory_key tournament_id draw_id = String.◌++◌ (or_empty tournament_id) (String.◌++◌ ":" draw_id)

-- `memory.delete(key)`
unfoldable pub without : Memory → String → Memory
without m key = filter (λ e. not (e.0 == key)) m

abbrev pub refresh : Memory → String → Option DrawMemory → Memory
refresh m key none = m
refresh m key (some entry) = without m key ++ (key, entry) ∷ []

unfoldable pub recall : Memory → String → Option DrawMemory × Memory
recall m key = (lookup m key, refresh m key (lookup m key))

-- The eviction loop of `remember`: the second component counts the evictions.
unfoldable pub evict : ℕ → Memory → Memory × ℕ
evict limit [] = ([], 0)
evict limit (e ∷ es) =
    let rest = evict limit es in
    if leb (length (e ∷ es)) limit then (e ∷ es, 0) else (rest.0, suc rest.1)

unfoldable pub remember : Memory → String → DrawMemory → Memory × ℕ
remember m key entry = evict max_tracked_draws (without m key ++ (key, entry) ∷ [])

-- `s.endsWith(t)`, by the bytes of the texts.
abbrev ends_with : String → String → Bool
ends_with s t = leb (len t) (len s) && (slice s (len s - len t) (len s) == t)

unfoldable pub forget_draw : Memory → Option String → String → Memory
forget_draw m (some tournament_id) draw_id = without m (memory_key (some tournament_id) draw_id)
forget_draw m none draw_id = filter (λ e. not (ends_with e.0 (String.◌++◌ ":" draw_id))) m
