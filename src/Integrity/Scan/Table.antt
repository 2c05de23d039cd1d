-- ===== src/Integrity/Scan/Table.antt =====
-- The findings table replayed: what its rows say is open is what the last scan found.
use competition_factory_serv.Prelude.{
  String, ◌==◌, eq_iff, eq_refl, ◌≡◌, refl, ◌∙◌, Bool, true, false, not, ◌&&◌, ◌||◌, List, [], ◌∷◌,
  ◌++◌, map, arith, if◌then◌else◌, any, filter, includes, keys, insert, All, Bool-cases, inl, inr,
}
use competition_factory_serv.Integrity.Issues.{
  OpenDrawFinding, FindingEvent, baseline, introduced, resolved, FindingRow,
}
use competition_factory_serv.Integrity.Scan.{
  Target, Fingerprints, values, row, change_rows, has, difference_rows,
}

abbrev pub is_open_after : FindingEvent → Bool
is_open_after resolved = false
is_open_after baseline = true
is_open_after introduced = true

-- Whether a fingerprint is open after rows, where `before` says what was open: its latest row decides.
abbrev pub replay : (String → Bool) → List FindingRow → String → Bool
replay before [] fp = before fp
replay before (r ∷ rows) fp =
    replay (λ g. if r.finding.fingerprint == g then is_open_after r.event else before g) rows fp

abbrev named : List OpenDrawFinding → String → Bool
named fs fp = any (λ f. f.fingerprint == fp) fs

-- A map by fingerprint has each finding under its own fingerprint.
abbrev pub IsByFingerprint : Fingerprints → Type 0
IsByFingerprint m = All (λ e. e.1.fingerprint ≡ e.0) m

named-values :
    (m : Fingerprints) (fp : String)
    → IsByFingerprint m
    → named (values m) fp ≡ includes (keys m) fp
named-values [] fp h = refl
named-values ((k, f) ∷ m) fp (h, hs) = rw (h, named-values m fp hs) refl

named-filter :
    (q : String → Bool) (fs : List OpenDrawFinding) (fp : String)
    → named (filter (λ f. q f.fingerprint) fs) fp ≡ (q fp && named fs fp)
named-filter q [] fp = ground arith
named-filter q (f ∷ fs) fp = elim (Bool-cases (f.fingerprint == fp)) [
  | inl e ↦ ground (arith, e, eq_iff f.fingerprint fp, named-filter q fs fp)
  | inr e ↦ ground (arith, e, named-filter q fs fp)
]

replay-append :
    (xs ys : List FindingRow) (before : String → Bool) (fp : String)
    → replay before (xs ++ ys) fp ≡ replay (replay before xs) ys fp
replay-append [] ys before fp = refl
replay-append (x ∷ xs) ys before fp = replay-append xs ys _ fp

filter-append :
    (p : FindingRow → Bool) (xs ys : List FindingRow)
    → filter p (xs ++ ys) ≡ filter p xs ++ filter p ys
filter-append p [] ys = refl
filter-append p (x ∷ xs) ys = ground (arith, filter-append p xs ys)

pub insert-keys :
    (m : Fingerprints) (k fp : String) (f : OpenDrawFinding)
    → includes (keys (insert m k f)) fp ≡ (includes (keys m) fp || k == fp)
insert-keys [] k fp f = ground arith
insert-keys ((j, g) ∷ m) k fp f = ground (arith, insert-keys m k fp f, eq_iff j k)

pub insert-IsByFingerprint :
    (m : Fingerprints) (f : OpenDrawFinding)
    → IsByFingerprint m
    → IsByFingerprint (insert m f.fingerprint f)
insert-IsByFingerprint [] f h = (refl, tt)
insert-IsByFingerprint ((j, g) ∷ m) f (h, hs) = elim (Bool-cases (j == f.fingerprint)) [
  | inl e ↦ rw e (refl, hs)
  | inr e ↦ rw e (h, insert-IsByFingerprint m f hs)
]

-- The rows of one draw.
abbrev pub is_of : Target → FindingRow → Bool
is_of target r = r.tournament_id == target.tournament_id && r.draw_id == target.draw_id

-- The table says of each fingerprint of the draw that it is open exactly if the set has it.
abbrev pub IsSynced : Target → List FindingRow → Fingerprints → Type 0
IsSynced target table m =
    (fp : String) → replay (λ _. false) (filter (is_of target) table) fp ≡ includes (keys m) fp

module _ (digest : String → String) (target : Target) (methods : List String)
    (at_time : String) where
  replay-map :
      (e : FindingEvent) (fs : List OpenDrawFinding) (before : String → Bool) (fp : String)
      → replay before (map (row digest target methods at_time e) fs) fp
        ≡ (if named fs fp then is_open_after e else before fp)
  replay-map e [] before fp = refl
  replay-map e (f ∷ fs) before fp = replay-map e fs _ fp ∙ ground arith

  own-map :
      (e : FindingEvent) (fs : List OpenDrawFinding)
      → filter (is_of target) (map (row digest target methods at_time e) fs)
        ≡ map (row digest target methods at_time e) fs
  own-map e [] = refl
  own-map e (f ∷ fs) = rw (eq_refl target.tournament_id, eq_refl target.draw_id, own-map e fs) refl

  own-change_rows :
      (first news gone : List OpenDrawFinding)
      → filter (is_of target) (change_rows digest target methods at_time first news gone)
        ≡ change_rows digest target methods at_time first news gone
  unfolding change_rows
  own-change_rows first news gone =
      rw
        (
          filter-append (is_of target) (map (row digest target methods at_time baseline) first) (
              map (row digest target methods at_time introduced) news
              ++ map (row digest target methods at_time resolved) gone),
          filter-append (is_of target) (map (row digest target methods at_time introduced) news)
              (map (row digest target methods at_time resolved) gone),
          own-map baseline first,
          own-map introduced news,
          own-map resolved gone,
        )
        refl

  replay-change_rows :
      (first news gone : List OpenDrawFinding) (before : String → Bool) (fp : String)
      → replay before (change_rows digest target methods at_time first news gone) fp ≡ (
          if named gone fp
          then false
          else if named news fp
          then true
          else if named first fp
          then true
          else before fp)
  unfolding change_rows
  replay-change_rows first news gone before fp =
      replay-append (map (row digest target methods at_time baseline) first) _ before fp
      ∙ (replay-append (map (row digest target methods at_time introduced) news) _ _ fp
          ∙ rw
              (
                replay-map resolved gone
                    (replay (replay before (map (row digest target methods at_time baseline) first))
                      (map (row digest target methods at_time introduced) news))
                    fp,
                replay-map introduced news
                    (replay before (map (row digest target methods at_time baseline) first)) fp,
                replay-map baseline first before fp,
              )
              refl)

  -- Appending a draw's change to the table.
  appended :
      (table : List FindingRow) (first news gone : List OpenDrawFinding) (fp : String)
      → replay
          (λ _. false)
          (filter
            (is_of target)
            (table ++ change_rows digest target methods at_time first news gone))
          fp
        ≡ (if named gone fp
            then false
            else if named news fp
            then true
            else if named first fp
            then true
            else replay (λ _. false) (filter (is_of target) table) fp)
  appended table first news gone fp =
      rw
        (
          filter-append (is_of target) table
              (change_rows digest target methods at_time first news gone),
          own-change_rows first news gone,
        )
        (replay-append (filter (is_of target) table) _ (λ _. false) fp
          ∙ replay-change_rows first news gone (replay (λ _. false) (filter (is_of target) table))
              fp)

  pub difference-IsSynced :
      (table : List FindingRow) (previous current : Fingerprints)
      → IsByFingerprint previous
      → IsByFingerprint current
      → IsSynced target table previous
      → IsSynced target
          (table ++ difference_rows digest target methods true at_time previous current)
          current
  difference-IsSynced table previous current p c h fp =
      let news = filter (λ f. not (has digest previous f.fingerprint)) (values current) in
      let gone = filter (λ f. not (has digest current f.fingerprint)) (values previous) in
      appended table [] news gone fp
      ∙ ground (
        arith,
        h fp,
        named-values previous fp p,
        named-values current fp c,
        named-filter (λ g. not (has digest previous g)) (values current) fp,
        named-filter (λ g. not (has digest current g)) (values previous) fp,
      )

  pub first-IsSynced :
      (table : List FindingRow) (current : Fingerprints)
      → IsByFingerprint current
      → IsSynced target table []
      → IsSynced target
          (table ++ change_rows digest target methods at_time (values current) [] [])
          current
  first-IsSynced table current c h fp =
      appended table (values current) [] [] fp ∙ ground (arith, h fp, named-values current fp c)
