-- ===== src/Access/Creator.antt =====
-- The creator extension of a tournament record: `setCreatedByUserId` and `getCreatedByUserId`.
use competition_factory_serv.Prelude.{
  String, ◌==◌, ◌≡◌, refl, Bool, not, Option, none, some, List, [], ◌∷◌, ◌++◌, arith, if◌then◌else◌,
  truthy, filter, find,
}
use competition_factory_serv.Access.Context.{Extension, Tournament}
use competition_factory_serv.Access.Tournament.{
  created_by_user_id, value_of, creator_extension, get_created_by_user_id, set_created_by_user_id,
}

abbrev is_creator : Extension → Bool
is_creator e = e.name == created_by_user_id

abbrev pub others : List Extension → List Extension
others es = filter (λ e. not (is_creator e)) es

creator_of-others :
    (es : List Extension) (user_id : Option String)
    → value_of (find is_creator (others es ++ creator_extension user_id))
      ≡ (if truthy user_id then user_id else none)
creator_of-others [] none = refl
creator_of-others [] (some id) = ground arith
creator_of-others (e ∷ es) user_id = ground (arith, creator_of-others es user_id)

others-set :
    (es : List Extension) (user_id : Option String)
    → others (others es ++ creator_extension user_id) ≡ others es
others-set [] none = refl
others-set [] (some id) = ground arith
others-set (e ∷ es) user_id = ground (arith, others-set es user_id)

-- After `setCreatedByUserId` the recorded creator is the given user id, or nobody where that is
-- absent or empty, whatever the record claimed before; the other extensions keep their values and
-- order, and no other field changes.
pub get-set_created_by_user_id :
    (t t' : Tournament) (user_id : Option String)
    → set_created_by_user_id (some t) user_id ≡ some t'
    → (get_created_by_user_id t' ≡ (if truthy user_id then user_id else none))
      × (others t'.extensions ≡ others t.extensions)
      × (t'.tournament_id ≡ t.tournament_id)
      × (t'.organisation_id ≡ t.organisation_id)
unfolding get_created_by_user_id set_created_by_user_id
get-set_created_by_user_id t t' user_id h = (
  ground (arith, creator_of-others t.extensions user_id),
  ground (arith, others-set t.extensions user_id),
  ground arith,
  ground arith,
)
