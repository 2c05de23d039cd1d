-- ===== src/Storage/Creators.antt =====
-- The creator that a record names, after setCreatedByUserId and stampCreatedBy.
use competition_factory_serv.Prelude.{
  String, ◌==◌, ◌≡◌, refl, inl, inr, Bool, true, false, not, Option, none, some, List, [], ◌∷◌,
  ◌++◌, arith, if◌then◌else◌, map, filter, find, Bool-cases,
}
use competition_factory_serv.Access.Tournament.{
  created_by_user_id, value_of, get_created_by_user_id,
}
use competition_factory_serv.Storage.{text, text_of, StoredExtension, TournamentRecord, access_view}
use competition_factory_serv.Storage.Save.{stamp_created_by}
use competition_factory_serv.Storage.Gate.{creator_value, set_created_by}

abbrev names_creator : StoredExtension → Bool
names_creator e = e.name == created_by_user_id

-- The extension that names the creator, if there is one.
abbrev pub creator_extension_of : TournamentRecord → Option StoredExtension
creator_extension_of r = find names_creator r.extensions

abbrev pub creator_of : Option StoredExtension → Option String
creator_of none = none
creator_of (some e) = text_of e.value

abbrev pub creator : TournamentRecord → Option String
creator r = get_created_by_user_id (access_view r)

find-view :
    (es : List StoredExtension)
    → value_of (
        find
          (λ e. e.name == created_by_user_id)
          (map (λ e. record { name = e.name; value = text_of e.value }) es))
      ≡ creator_of (find names_creator es)
find-view [] = refl
find-view (e ∷ es) = elim (Bool-cases (e.name == created_by_user_id)) [
  | inl h ↦ rw h refl
  | inr h ↦ rw h (find-view es)
]

pub creator-creator_of : (r : TournamentRecord) → creator r ≡ creator_of (creator_extension_of r)
unfolding get_created_by_user_id access_view
creator-creator_of r = find-view r.extensions

-- The extension that a user id is written as.
abbrev pub written : Option String → Option StoredExtension
written none = none
written (some id) =
    if id == "" then none else some (record { name = created_by_user_id; value = text id })

find-set :
    (es : List StoredExtension) (user_id : Option String)
    → find names_creator (filter (λ e. not (names_creator e)) es ++ creator_value user_id)
      ≡ written user_id
find-set [] none = refl
find-set [] (some id) = elim (Bool-cases (id == "")) [ inl h ↦ rw h refl | inr h ↦ rw h refl ]
find-set (e ∷ es) user_id = elim (Bool-cases (e.name == created_by_user_id)) [
  | inl h ↦ rw h (find-set es user_id)
  | inr h ↦ rw (h, h) (find-set es user_id)
]

pub set_created_by-written :
    (r : TournamentRecord) (user_id : Option String)
    → creator_extension_of (set_created_by r user_id) ≡ written user_id
unfolding set_created_by
set_created_by-written r user_id = find-set r.extensions user_id

find-last :
    (es : List StoredExtension) (e : StoredExtension)
    → find names_creator es ≡ none
    → names_creator e ≡ true
    → find names_creator (es ++ e ∷ []) ≡ some e
find-last [] e h k = rw k refl
find-last (x ∷ es) e h k = elim (Bool-cases (x.name == created_by_user_id)) [
  | inl n ↦ absurd (ground (arith, n, h))
  | inr n ↦ rw n (find-last es e (ground (arith, n, h)) k)
]

-- The first save of a record that names no creator names the saver.
pub stamp_created_by-none :
    (r : TournamentRecord) (id : String)
    → (id == "") ≡ false
    → creator_extension_of r ≡ none
    → creator_extension_of (stamp_created_by r (some id)) ≡ written (some id)
unfolding stamp_created_by
stamp_created_by-none r id e h =
    simp (e, h)
      (find-last r.extensions (record { name = created_by_user_id; value = text id }) h refl)

pub stamp_created_by-some :
    (r : TournamentRecord) (id : String) (e : StoredExtension)
    → creator_extension_of r ≡ some e
    → stamp_created_by r (some id) ≡ r
unfolding stamp_created_by
stamp_created_by-some r id e h = elim (Bool-cases (id == "")) [
  | inl k ↦ rw k refl
  | inr k ↦ simp (k, h) refl
]
