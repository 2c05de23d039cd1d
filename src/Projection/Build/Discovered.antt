-- ===== src/Projection/Build/Discovered.antt =====
-- The discovery rows of a batch.
use competition_factory_serv.Prelude.{
  ℕ, ◌+◌, String, ◌==◌, ◌≡◌, refl, sym, subst, ◌∙◌, inl, inr, Bool, true, ◌&&◌, some, List, [], ◌∷◌,
  ◌++◌, lookup, All, All-append, All-map, any, includes, Bool-cases, Option-cases, flat_map, arith,
  eq_iff, eq_refl,
}
use competition_factory_serv.Access.Calendar.Sets.{to_set, includes-to_set}
use competition_factory_serv.Projection.Intents.{ProjectionIntent}
use competition_factory_serv.Projection.Rows.{Tournament, Records, Toolkit, ProjectionDelta}
use competition_factory_serv.Projection.Group.{Grouped, group}
use competition_factory_serv.Projection.Group.Named.{IsNamed}
use competition_factory_serv.Projection.Build.{after_discovery, deltas_of, build_projection_deltas}
use competition_factory_serv.Projection.Build.Facts.{
  id_lists, concat, discovery_ids, one_discovery, discovery_deltas, tournament_deltas,
}
use competition_factory_serv.Projection.Build.Matches.{covered_by_flatten}
use competition_factory_serv.Projection.Build.Laws
use competition_factory_serv.Projection.Build.Others
use competition_factory_serv.Projection.Build.Once.{one_if, occurrences, to_set-once}
use competition_factory_serv.Projection.Build.Ids.{All-includes, discovery_ids-IsNamed}

abbrev pub count : (ProjectionDelta → Bool) → List ProjectionDelta → ℕ
count p [] = 0
count p (d ∷ ds) = one_if (p d) + count p ds

abbrev pub discovers : String → ProjectionDelta → Bool
discovers t d = Laws.is_discovery d.table && d.tournament_id == t

abbrev pub is_about : String → ProjectionDelta → Bool
is_about t d = d.tournament_id == t

count-append :
    (p : ProjectionDelta → Bool) (xs ys : List ProjectionDelta)
    → count p (xs ++ ys) ≡ count p xs + count p ys
count-append p [] ys = omega arith
count-append p (x ∷ xs) ys = omega (arith, count-append p xs ys)

module _ (k : Toolkit) (records : Records) (t : String) (r : Tournament)
    (found : lookup records t ≡ some r) where
  one_discovery-count :
      (u : String) → count (discovers t) (one_discovery k records u) ≡ one_if (u == t)
  one_discovery-count u = elim (Bool-cases (u == t)) [
    | inl e ↦
        subst (λ v. count (discovers t) (one_discovery k records v) ≡ one_if (v == t))
          (sym ((eq_iff u t).0 e)) (rw (found, eq_refl t) refl)
    | inr e ↦ elim (Option-cases (lookup records u)) [
      | inl n ↦ rw (n, e) refl
      | inr (s, n) ↦ rw (n, e) refl
    ]
  ]

  discoveries-count :
      (us : List String)
      → count (discovers t) (flat_map (one_discovery k records) us) ≡ occurrences t us
  unfolding occurrences
  discoveries-count [] = refl
  discoveries-count (u ∷ us) = omega (
    arith,
    count-append (discovers t) (one_discovery k records u) (flat_map (one_discovery k records) us),
    one_discovery-count u,
    discoveries-count us,
  )

  discovery_deltas-count :
      (g : Grouped)
      → includes (discovery_ids g) t ≡ true
      → count (discovers t) (discovery_deltas k records g) ≡ 1
  unfolding discovery_deltas discovery_ids
  discovery_deltas-count g h =
      discoveries-count (to_set (concat (id_lists g)))
      ∙ to_set-once t (concat (id_lists g)) (sym (includes-to_set (concat (id_lists g)) t) ∙ h)

Other-count :
    (P : String → Type 0) (t : String) (ds : List ProjectionDelta)
    → All (Laws.Other P) ds
    → count (discovers t) ds ≡ 0
Other-count P t [] h = refl
Other-count P t (d ∷ ds) ((p, e), h) = rw e (omega (arith, Other-count P t ds h))

Plain-Other :
    (P : String → Type 0) (ds : List ProjectionDelta)
    → All (Laws.Plain P) ds
    → All (Laws.Other P) ds
Plain-Other P ds h = All-map ds (λ d p. (p.0, p.1)) h

module _ (P : String → Type 0) (k : Toolkit) (records : Records) where
  after_discovery-Other :
      (g : Grouped) → IsNamed P g → All (Laws.Other P) (after_discovery k records g)
  unfolding after_discovery
  after_discovery-Other g n = plain _ _ (Laws.event_deltas-Plain P k records g n) (
      plain _ _ (Laws.draw_deltas-Plain P k records g n) (
        plain _ _ (Laws.seed_deltas-Plain P k records g n) (
          plain _ _ (Laws.order_of_play_deltas-Plain P k records g n) (
            plain _ _ (Laws.scheduling_profile_deltas-Plain P k g n) (
              plain _ _ (Laws.participant_publish_deltas-Plain P k records g n) (
                plain _ _ (Laws.venue_deltas-Plain P k records g n) (
                  All-append (Laws.Other P) _ _ (Others.flatten_draw_deltas-Other P k records g n) (
                    All-append (Laws.Other P) _ _
                      (Others.result_deltas-Other P k records (covered_by_flatten k records g)
                        g.match_up_results n.match_up_results)
                      (plain _ _ (Laws.entry_deltas-Plain P k records g n) (
                        plain _ _ (Laws.claim_deltas-Plain P g n) (
                          plain _ _ (Laws.participant_name_deltas-Plain P k g n)
                            (Others.delete_deltas-Other P _ g n))))))))))))
    where
      plain :
          (xs ys : List ProjectionDelta)
          → All (Laws.Plain P) xs
          → All (Laws.Other P) ys
          → All (Laws.Other P) (xs ++ ys)
      plain xs ys h k = All-append (Laws.Other P) xs ys (Plain-Other P xs h) k

  discovery_deltas-Named :
      (us : List String)
      → All P us
      → All (λ d. P d.tournament_id) (flat_map (one_discovery k records) us)
  discovery_deltas-Named [] h = tt
  discovery_deltas-Named (u ∷ us) (p, h) = elim (Option-cases (lookup records u)) [
    | inl n ↦ rw n (discovery_deltas-Named us h)
    | inr (s, n) ↦ rw n (p, discovery_deltas-Named us h)
  ]

  -- Every delta is of a tournament that the grouped intents name.
  pub deltas_of-Named :
      (g : Grouped)
      → IsNamed P g
      → All P (discovery_ids g)
      → All (λ d. P d.tournament_id) (deltas_of k records g)
  unfolding deltas_of discovery_deltas
  deltas_of-Named g n ids =
      All-append (λ d. P d.tournament_id) (tournament_deltas k records g) _
        (All-map _ (λ d p. p.0) (Laws.tournament_deltas-Plain P k records g n))
        (All-append (λ d. P d.tournament_id) (discovery_deltas k records g) _
          (discovery_deltas-Named (discovery_ids g) ids)
          (All-map _ (λ d p. p.0) (after_discovery-Other g n)))

  about_named :
      (t : String) (ds : List ProjectionDelta)
      → All (λ d. P d.tournament_id) ds
      → any (is_about t) ds ≡ true
      → P t
  about_named t [] h a = cc
  about_named t (d ∷ ds) (p, h) a = elim (Bool-cases (d.tournament_id == t)) [
    | inl e ↦ subst P ((eq_iff d.tournament_id t).0 e) p
    | inr e ↦ about_named t ds h (ground (arith, a, e))
  ]

deltas_of-count :
    (k : Toolkit) (records : Records) (t : String) (r : Tournament) (g : Grouped)
    → lookup records t ≡ some r
    → includes (discovery_ids g) t ≡ true
    → count (discovers t) (deltas_of k records g) ≡ 1
unfolding deltas_of
deltas_of-count k records t r g found i =
    let named = discovery_ids-IsNamed g in
    omega (
      arith,
      count-append (discovers t) (tournament_deltas k records g)
          (discovery_deltas k records g ++ after_discovery k records g),
      count-append (discovers t) (discovery_deltas k records g) (after_discovery k records g),
      discovery_deltas-count k records t r found g i,
      Other-count _ t (tournament_deltas k records g)
          (Plain-Other _ _ (Laws.tournament_deltas-Plain _ k records g named)),
      Other-count _ t (after_discovery k records g) (after_discovery-Other _ k records g named),
    )

-- Whatever intents a batch has: a tournament that any delta of the batch is about, and whose record is
-- there, has exactly one discovery row among the deltas.
pub build_projection_deltas-discovered :
    (k : Toolkit) (records : Records) (intents : List ProjectionIntent) (t : String)
    (r : Tournament)
    → lookup records t ≡ some r
    → any (is_about t) (build_projection_deltas k records intents) ≡ true
    → count (discovers t) (build_projection_deltas k records intents) ≡ 1
unfolding build_projection_deltas
build_projection_deltas-discovered k records intents t r found about =
    deltas_of-count k records t r (group intents records) found (
      about_named (λ u. includes (discovery_ids (group intents records)) u ≡ true) k records t _
        (deltas_of-Named (λ u. includes (discovery_ids (group intents records)) u ≡ true) k records
          (group intents records) (discovery_ids-IsNamed (group intents records))
          (All-includes (discovery_ids (group intents records)) _ (λ u i. i)))
        about)
