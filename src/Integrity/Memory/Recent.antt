-- ===== src/Integrity/Memory/Recent.antt =====
-- What the memory keeps: the newest entry always, and of the others the most recently used.
use competition_factory_serv.Prelude.{
  ℕ, zero, suc, ◌-◌, ◌≤◌, String, ◌==◌, eq_refl, ◌≡◌, refl, ap, leb→le, none, some, [], ◌∷◌, ◌++◌,
  arith, leb, length, lookup, drop, length-append, length-drop, Bool-cases, inl, inr,
}
use competition_factory_serv.Integrity.Memory.{
  DrawMemory, Memory, without, evict, remember, max_tracked_draws,
}

evict_counts : (limit : ℕ) (m : Memory) → (evict limit m).1 ≡ length m - limit
unfolding evict
evict_counts limit [] = omega arith
evict_counts limit (e ∷ es) = elim (Bool-cases (leb (length (e ∷ es)) limit)) [
  | inl h ↦ rw h (omega (arith, leb→le (length (e ∷ es)) limit h))
  | inr h ↦ rw h (ground (arith, h, evict_counts limit es))
]

evict-drop : (limit : ℕ) (m : Memory) → (evict limit m).0 ≡ drop (evict limit m).1 m
unfolding evict
evict-drop limit [] = refl
evict-drop limit (e ∷ es) = elim (Bool-cases (leb (length (e ∷ es)) limit)) [
  | inl h ↦ rw h refl
  | inr h ↦ rw h (evict-drop limit es)
]

lookup-without : (m : Memory) (key : String) → lookup (without m key) key ≡ none
unfolding without
lookup-without [] key = refl
lookup-without ((j, e) ∷ m) key = ground (arith, lookup-without m key)

lookup_rest :
    (j : String) (e : DrawMemory) (m : Memory) (key : String)
    → lookup ((j, e) ∷ m) key ≡ none
    → lookup m key ≡ none
lookup_rest j e m key h = ground (arith, h)

lookup-drop :
    (k : ℕ) (m : Memory) (key : String) (entry : DrawMemory)
    → lookup m key ≡ none
    → k ≤ length m
    → lookup (drop k (m ++ (key, entry) ∷ [])) key ≡ some entry
lookup-drop zero [] key entry h le = rw (eq_refl key) refl
lookup-drop (suc k) [] key entry h le = absurd (omega (arith, le))
lookup-drop zero ((j, e) ∷ m) key entry h le = elim (Bool-cases (j == key)) [
  | inl q ↦ cc (rw q at h)
  | inr q ↦ rw q (lookup-drop zero m key entry (rw q at h) (omega arith))
]
lookup-drop (suc k) ((j, e) ∷ m) key entry h le =
    lookup-drop k m key entry (lookup_rest j e m key h) (omega (arith, le))

-- Remembering a draw keeps its entry, and of the other entries exactly the most recently used ones
-- that the bound leaves room for: what is kept is the map with the entry moved to its end, less as
-- many entries from the front as it has over the bound, which is what is counted as evicted.
pub remember_keeps_recent :
    (m : Memory) (key : String) (entry : DrawMemory)
    → (lookup (remember m key entry).0 key ≡ some entry)
      × ((remember m key entry).0
          ≡ drop (remember m key entry).1 (without m key ++ (key, entry) ∷ []))
      × ((remember m key entry).1 ≡ length (without m key ++ (key, entry) ∷ []) - max_tracked_draws)
      × (length (remember m key entry).0 ≤ max_tracked_draws)
unfolding remember
remember_keeps_recent m key entry =
    let all = without m key ++ (key, entry) ∷ [] in
    let n = max_tracked_draws in
    let cut = evict-drop n all in
    let count = evict_counts n all in
    (
      rw cut (
          lookup-drop (evict n all).1 (without m key) key entry (lookup-without m key)
            (omega (arith, count, length-append (without m key) ((key, entry) ∷ [])))),
      cut,
      count,
      omega (arith, ap length cut, count, length-drop (evict n all).1 all),
    )
