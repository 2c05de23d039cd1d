-- ===== src/Queue/Documents/Requested.antt =====
-- Which tournaments' participant documents documentRequestTournamentIds requests.
use competition_factory_serv.Prelude.{
  String, ◌==◌, ◌≡◌, refl, sym, ap, subst, ◌∙◌, ◌↔◌, ◌⊎◌, inl, inr, Bool, true, false, not, ◌&&◌,
  ◌||◌, Option, none, some, List, [], ◌∷◌, arith, if◌then◌else◌, ◌++◌, any, Any, includes,
  includes-concat, eq_iff, eq_refl, Bool-cases, some-injective,
}
use competition_factory_serv.Access.Calendar.Sets.{set_add, includes-set_add}
use competition_factory_serv.Queue.Documents.{
  Intent, participant_intents, stale_of, add_stale, add_intents, add_tournaments, is_policy,
  document_request_tournament_ids,
}

-- No element occurs twice.
abbrev pub AreDistinct : List String → Type 0
AreDistinct [] = Unit {0}
AreDistinct (x ∷ xs) = (includes xs x ≡ false) × AreDistinct xs

concat-AreDistinct :
    (xs : List String) (x : String)
    → includes xs x ≡ false
    → AreDistinct xs
    → AreDistinct (xs ++ x ∷ [])
concat-AreDistinct [] x h d = (refl, tt)
concat-AreDistinct (y ∷ ys) x h (n, d) = (
  ground (arith, includes-concat ys x y, eq_iff x y, eq_iff y x, h, n),
  concat-AreDistinct ys x (ground (arith, h)) d,
)

set_add-AreDistinct : (xs : List String) (x : String) → AreDistinct xs → AreDistinct (set_add xs x)
unfolding set_add
set_add-AreDistinct xs x d = elim (Bool-cases (includes xs x)) [
  | inl h ↦ rw h d
  | inr h ↦ rw h (concat-AreDistinct xs x h d)
]

-- A participant intent of the tournament.
abbrev pub makes_stale : String → Intent → Bool
makes_stale id i = elim (stale_of i) [ none ↦ false | some t ↦ not (t == "") && t == id ]

add_stale-includes :
    (ids : List String) (o : Option String) (id : String)
    → includes (add_stale ids o) id
      ≡ (includes ids id || elim o [ none ↦ false | some t ↦ not (t == "") && t == id ])
add_stale-includes ids none id = ground arith
add_stale-includes ids (some t) id = ground (arith, includes-set_add ids t id)

add_intents-includes :
    (intents : List Intent) (ids : List String) (id : String)
    → includes (add_intents ids intents) id ≡ (includes ids id || any (makes_stale id) intents)
unfolding add_intents
add_intents-includes [] ids id = ground arith
add_intents-includes (i ∷ is) ids id =
    add_intents-includes is (add_stale ids (stale_of i)) id
    ∙ ground (arith, add_stale-includes ids (stale_of i) id)

add_tournaments-includes :
    (ts ids : List String) (id : String)
    → includes (add_tournaments ids ts) id ≡ (includes ids id || includes ts id)
unfolding add_tournaments
add_tournaments-includes [] ids id = ground arith
add_tournaments-includes (t ∷ ts) ids id =
    add_tournaments-includes ts (set_add ids t) id ∙ ground (arith, includes-set_add ids t id)

any-true {ℓ} :
    {A : Type ℓ} (p : A → Bool) (P : A → Type 0) (xs : List A)
    → ((x : A) → (p x ≡ true) ↔ P x)
    → (any p xs ≡ true) ↔ Any P xs
any-true p P [] h = ((λ e. cc), (λ e. absurd e))
any-true p P (x ∷ xs) h = elim (Bool-cases (p x)) [
  | inl e ↦ ((λ _. inl ((h x).0 e)), (λ _. rw e refl))
  | inr e ↦ (
    (λ k. inr ((any-true p P xs h).0 (rw e at k))),
    elim [ inl k ↦ cc ((h x).1 k, e) | inr k ↦ rw e ((any-true p P xs h).1 k) ],
  )
]

-- The kinds of intent that change what a participant document holds.
abbrev pub IsParticipantKind : String → Type 0
IsParticipantKind kind =
    (kind ≡ "participants") ⊎ ((kind ≡ "deleteParticipants") ⊎ (kind ≡ "claimPerson"))

abbrev pub IsPolicyMethod : Option String → Type 0
IsPolicyMethod name = (name ≡ some "attachPolicies") ⊎ (name ≡ some "removePolicy")

includes-cons :
    (y : String) (ys : List String) (x : String)
    → (includes (y ∷ ys) x ≡ true) ↔ ((x ≡ y) ⊎ (includes ys x ≡ true))
includes-cons y ys x = elim (Bool-cases (y == x)) [
  | inl e ↦ ((λ _. inl (sym ((eq_iff y x).0 e))), (λ _. rw e refl))
  | inr e ↦
      ((λ h. inr (rw e at h)), elim [ inl k ↦ cc ((eq_iff y x).1 (sym k), e) | inr k ↦ rw e k ])
]

of_two : (a b x : String) → (includes (a ∷ b ∷ []) x ≡ true) ↔ ((x ≡ a) ⊎ (x ≡ b))
of_two a b x =
    let one = includes-cons a (b ∷ []) x in
    let two = includes-cons b [] x in
    (
      (λ h. elim (one.0 h) [
        | inl e ↦ inl e
        | inr k ↦ elim (two.0 k) [ inl e ↦ inr e | inr n ↦ cc ]
      ]),
      elim [ inl e ↦ one.1 (inl e) | inr e ↦ one.1 (inr (two.1 (inl e))) ],
    )

kind_iff : (kind : String) → (includes participant_intents kind ≡ true) ↔ IsParticipantKind kind
kind_iff kind =
    let rest = of_two "deleteParticipants" "claimPerson" kind in
    let one = includes-cons "participants" ("deleteParticipants" ∷ "claimPerson" ∷ []) kind in
    (
      (λ h. elim (one.0 h) [ inl e ↦ inl e | inr k ↦ inr (rest.0 k) ]),
      elim [ inl e ↦ one.1 (inl e) | inr k ↦ one.1 (inr (rest.1 k)) ],
    )

policy_iff : (name : Option String) → (is_policy name ≡ true) ↔ IsPolicyMethod name
policy_iff none = ((λ h. cc), elim [ inl e ↦ cc | inr e ↦ cc ])
policy_iff (some name) =
    let two = of_two "attachPolicies" "removePolicy" name in
    (
      (λ h. elim (two.0 h) [ inl e ↦ inl (ap some e) | inr e ↦ inr (ap some e) ]),
      elim [
        | inl e ↦ two.1 (inl (some-injective name _ e))
        | inr e ↦ two.1 (inr (some-injective name _ e))
      ],
    )

names_iff :
    (o : Option String) (id : String)
    → (elim o [ none ↦ false | some t ↦ not (t == "") && t == id ] ≡ true)
      ↔ ((o ≡ some id) × ((id == "") ≡ false))
names_iff none id = ((λ h. cc), (λ h. cc h.0))
names_iff (some t) id = (
  (λ h.
      let same : t ≡ id = (eq_iff t id).0 (ground arith) in
      (ap some same, subst (λ x. (x == "") ≡ false) same (ground arith))),
  (λ h. let same : t ≡ id = some-injective t id h.0 in rw same (rw (h.1, eq_refl id) refl)),
)

stale_iff :
    (b : Bool) (K : Type 0) (o : Option String) (id : String)
    → (b ≡ true) ↔ K
    → (elim (if b then o else none) [ none ↦ false | some t ↦ not (t == "") && t == id ] ≡ true)
      ↔ (K × (o ≡ some id) × ((id == "") ≡ false))
stale_iff true K o id kind =
    let names = names_iff o id in
    ((λ h. let (a, b) = names.0 h in (kind.0 refl, a, b)), (λ h. names.1 (h.1, h.2)))
stale_iff false K o id kind = ((λ h. cc), (λ h. cc (kind.1 h.0)))

makes_stale_iff :
    (id : String) (i : Intent)
    → (makes_stale id i ≡ true)
      ↔ (IsParticipantKind i.kind × (i.tournament_id ≡ some id) × ((id == "") ≡ false))
makes_stale_iff id i =
    stale_iff (includes participant_intents i.kind) (IsParticipantKind i.kind) i.tournament_id id
      (kind_iff i.kind)

add_stale-AreDistinct :
    (ids : List String) (o : Option String) → AreDistinct ids → AreDistinct (add_stale ids o)
add_stale-AreDistinct ids none d = d
add_stale-AreDistinct ids (some id) d = elim (Bool-cases (id == "")) [
  | inl e ↦ rw e d
  | inr e ↦ rw e (set_add-AreDistinct ids id d)
]

add_intents-AreDistinct :
    (intents : List Intent) (ids : List String)
    → AreDistinct ids
    → AreDistinct (add_intents ids intents)
unfolding add_intents
add_intents-AreDistinct [] ids d = d
add_intents-AreDistinct (i ∷ is) ids d =
    add_intents-AreDistinct is (add_stale ids (stale_of i))
      (add_stale-AreDistinct ids (stale_of i) d)

add_tournaments-AreDistinct :
    (ts ids : List String) → AreDistinct ids → AreDistinct (add_tournaments ids ts)
unfolding add_tournaments
add_tournaments-AreDistinct [] ids d = d
add_tournaments-AreDistinct (t ∷ ts) ids d =
    add_tournaments-AreDistinct ts (set_add ids t) (set_add-AreDistinct ids t d)

requested-includes :
    (intents : List Intent) (names : List (Option String)) (tournament_ids : List String)
    (id : String)
    → includes (document_request_tournament_ids intents names tournament_ids) id
      ≡ (any (makes_stale id) intents || (any is_policy names && includes tournament_ids id))
unfolding document_request_tournament_ids
requested-includes intents names tournament_ids id = ground (
  arith,
  add_intents-includes intents [] id,
  add_tournaments-includes tournament_ids (add_intents [] intents) id,
)

requested-AreDistinct :
    (intents : List Intent) (names : List (Option String)) (tournament_ids : List String)
    → AreDistinct (document_request_tournament_ids intents names tournament_ids)
unfolding document_request_tournament_ids
requested-AreDistinct intents names tournament_ids =
    let first = add_intents-AreDistinct intents [] tt in
    elim (Bool-cases (any is_policy names)) [
      | inl e ↦ rw e (add_tournaments-AreDistinct tournament_ids (add_intents [] intents) first)
      | inr e ↦ rw e first
    ]

-- A tournament's documents are requested exactly if an intent of kind participants,
-- deleteParticipants or claimPerson names it, by an id that is not empty, or it is one of the call's
-- and a method of the call is attachPolicies or removePolicy; and no tournament is requested twice.
pub document_request_tournament_ids_lem :
    (intents : List Intent) (names : List (Option String)) (tournament_ids : List String)
    (id : String)
    → ((includes (document_request_tournament_ids intents names tournament_ids) id ≡ true) ↔ (
        Any
          (λ i. IsParticipantKind i.kind × (i.tournament_id ≡ some id) × ((id == "") ≡ false))
          intents
        ⊎ (Any IsPolicyMethod names × (includes tournament_ids id ≡ true))))
      × AreDistinct (document_request_tournament_ids intents names tournament_ids)
document_request_tournament_ids_lem intents names tournament_ids id =
    let stale = any-true (makes_stale id) _ intents (makes_stale_iff id) in
    let policy = any-true is_policy IsPolicyMethod names policy_iff in
    (
      rw (requested-includes intents names tournament_ids id) (
        (λ h. elim (Bool-cases (any (makes_stale id) intents)) [
          | inl e ↦ inl (stale.0 e)
          | inr e ↦ inr (policy.0 (ground (arith, h, e)), ground (arith, h, e))
        ]),
        elim [
          | inl k ↦ rw (stale.1 k) refl
          | inr (k, t) ↦ let p = policy.1 k in ground (arith, p, t)
        ],
      ),
      requested-AreDistinct intents names tournament_ids,
    )
