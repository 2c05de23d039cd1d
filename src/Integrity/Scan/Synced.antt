-- ===== src/Integrity/Scan/Synced.antt =====
-- A scan leaves the memory and the findings table with what it found.
use competition_factory_serv.Prelude.{
  String, ◌==◌, ◌≡◌, ◌∙◌, true, false, ◌||◌, Option, none, some, List, [], ◌∷◌, map, arith, any,
  includes, keys, lookup,
}
use competition_factory_serv.Integrity.Issues.{IntegrityIssue, Inconsistency, to_integrity_issue}
use competition_factory_serv.Integrity.Memory.{DrawMemory, memory_key}
use competition_factory_serv.Integrity.Memory.Recent.{remember_keeps_recent}
use competition_factory_serv.Integrity.Scan.{
  Target, Scans, Fingerprints, fingerprint_of, finding_of, add_current, first_scan, next_scan,
  diffed, known_before, counted_scan, scan_draw, logged_after,
}
use competition_factory_serv.Integrity.Scan.Table.{
  IsByFingerprint, IsSynced, insert-keys, insert-IsByFingerprint, difference-IsSynced,
  first-IsSynced,
}

abbrev pub known_set : Option DrawMemory → Fingerprints
known_set none = []
known_set (some entry) = entry.fingerprints

module _ (digest : String → String) where
  add_current-keys :
      (issues : List IntegrityIssue) (m : Fingerprints) (fp : String)
      → includes (keys (add_current digest m issues)) fp
        ≡ (includes (keys m) fp || any (λ i. fingerprint_of digest i == fp) issues)
  unfolding add_current
  add_current-keys [] m fp = ground arith
  add_current-keys (i ∷ issues) m fp =
      add_current-keys issues _ fp
      ∙ ground (arith, insert-keys m (fingerprint_of digest i) fp (finding_of digest i))

  add_current-IsByFingerprint :
      (issues : List IntegrityIssue) (m : Fingerprints)
      → IsByFingerprint m
      → IsByFingerprint (add_current digest m issues)
  unfolding add_current
  add_current-IsByFingerprint [] m h = h
  add_current-IsByFingerprint (i ∷ issues) m h =
      add_current-IsByFingerprint issues _ (insert-IsByFingerprint m (finding_of digest i) h)

  -- What a scan with these issues leaves behind.
  pub record IsScanned (target : Target) (issues : List IntegrityIssue) (s : Scans) : Type 0 where
    pub entry : DrawMemory
    pub remembered :
        lookup s.memory (memory_key (some target.tournament_id) target.draw_id) ≡ some entry
    pub found :
        (fp : String)
        → includes (keys entry.fingerprints) fp ≡ any (λ i. fingerprint_of digest i == fp) issues
    pub by_fingerprint : IsByFingerprint entry.fingerprints
    pub synced : IsSynced target s.table entry.fingerprints

  module _ (target : Target) (methods : List String) (at_time : String) where
    diffed-IsScanned :
        (s : Scans) (known : Option DrawMemory) (issues : List IntegrityIssue)
        → IsByFingerprint (known_set known)
        → IsSynced target s.table (known_set known)
        → IsScanned target issues (diffed digest target methods true at_time s known issues)
    unfolding first_scan next_scan
    diffed-IsScanned s none issues b h = record {
      entry = record { fingerprints = add_current digest [] issues; pre_existing_logged = false };
      remembered = (remember_keeps_recent s.memory _ _).0;
      found = add_current-keys issues [];
      by_fingerprint = add_current-IsByFingerprint issues [] tt;
      synced =
          first-IsSynced digest target methods at_time s.table (add_current digest [] issues)
            (add_current-IsByFingerprint issues [] tt) h;
    }
    diffed-IsScanned s (some previous) issues b h = record {
      entry = record {
        fingerprints = add_current digest [] issues;
        pre_existing_logged =
            logged_after digest target methods true at_time previous issues
              (add_current digest [] issues);
      };
      remembered = (remember_keeps_recent s.memory _ _).0;
      found = add_current-keys issues [];
      by_fingerprint = add_current-IsByFingerprint issues [] tt;
      synced =
          difference-IsSynced digest target methods at_time s.table previous.fingerprints
            (add_current digest [] issues) b (add_current-IsByFingerprint issues [] tt) h;
    }

-- A scan that the factory answers, with a sink: if the table agreed with what was known of the draw
-- (what is remembered of it; nothing, for a draw that is not remembered or that the mutation created),
-- then afterwards the draw is remembered with exactly the fingerprints of the issues found, and the
-- table, replayed row by row, says of each fingerprint that it is open exactly if it is among them.
pub scan_draw-IsScanned :
    (digest : String → String) (target : Target) (methods : List String) (at_time : String)
    (s : Scans) (found : List Inconsistency)
    → IsByFingerprint (known_set (known_before digest target methods true at_time s.memory).0)
    → IsSynced target s.table
        (known_set (known_before digest target methods true at_time s.memory).0)
    → IsScanned digest target
        (map to_integrity_issue found)
        (scan_draw digest target methods true at_time s (some found))
unfolding scan_draw
scan_draw-IsScanned digest target methods at_time s found b h =
    diffed-IsScanned digest target methods at_time
      (counted_scan digest target methods true at_time s
        (known_before digest target methods true at_time s.memory).1)
      (known_before digest target methods true at_time s.memory).0 (map to_integrity_issue found) b
      h
