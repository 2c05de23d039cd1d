-- ===== src/Queue/References.antt =====
-- `resolveMatchUpReferencesFromIndex` and `resolveMatchUpReferences` of
-- src/modules/factory/functions/private/executionQueue.ts: score entries that name only their matchUp
-- get its draw and event, from the index and then from the record.
pub mod Resolved
use competition_factory_serv.Prelude.{
  ℕ, String, ◌==◌, ◌≡◌, refl, ◌∙◌, Bool, true, false, not, ◌&&◌, ◌||◌, Option, none, some, List, [],
  ◌∷◌, ◌++◌, map, arith, if◌then◌else◌, truthy, is_text, any, filter, is_empty, length, nat_eq,
  Bool-cases, Option-cases, inl, inr, All,
}

-- The other parameters of a method stay as they are.
pub record Params : Type 0 where
  pub match_up_id : Option String
  pub draw_id : Option String
  pub event_id : Option String

pub record Method : Type 0 where
  pub method : Option String
  pub params : Params

pub record Place : Type 0 where
  pub draw_id : Option String
  pub event_id : Option String

unfoldable pub is_unresolved : Method → Bool
is_unresolved m =
    is_text m.method "setMatchUpStatus"
    && (truthy m.params.match_up_id
        && (not (truthy m.params.draw_id) && not (truthy m.params.event_id)))

-- `params.drawId = ...; if (eventId) params.eventId = ...`
abbrev pub put_place : Method → Place → Method
put_place m p = record m {
  params = record m.params {
    draw_id = p.draw_id;
    event_id = if truthy p.event_id then p.event_id else m.params.event_id;
  };
}

abbrev id_of : Option String → String
id_of none = ""
id_of (some id) = id

abbrev pub from_index : Method → Option Place → Method
from_index m none = m
from_index m (some p) = put_place m p

abbrev pub from_record : Method → Option Place → Method
from_record m none = m
from_record m (some p) = if truthy p.draw_id then put_place m p else m

module _ (look_up : String → Option Place) (find_match_up : String → Option Place) where
  abbrev pub resolve_indexed : Method → Method
  resolve_indexed m =
      if is_unresolved m then from_index m (look_up (id_of m.params.match_up_id)) else m

  abbrev pub resolve_recorded : Method → Method
  resolve_recorded m =
      if is_unresolved m then from_record m (find_match_up (id_of m.params.match_up_id)) else m

  -- Only for a call of a single tournament.
  unfoldable pub resolve_from_index : List String → List Method → List Method
  unfolding is_unresolved
  resolve_from_index ids methods =
      if nat_eq (length ids) 1 then map resolve_indexed methods else methods

  -- `records` are the keys of the fetched records.
  unfoldable pub resolve_from_records : List String → List Method → List Method
  unfolding is_unresolved
  resolve_from_records records methods =
      if nat_eq (length records) 1 then map resolve_recorded methods else methods

  unfoldable pub resolve_references : List String → List String → List Method → List Method
  unfolding resolve_from_index resolve_from_records
  resolve_references ids records methods =
      resolve_from_records records (resolve_from_index ids methods)

  -- What resolving may do to one method.
  pub record IsResolved (m r : Method) : Type 0 where
    pub same_method : r.method ≡ m.method
    pub same_match_up : r.params.match_up_id ≡ m.params.match_up_id
    pub untouched : is_unresolved m ≡ false → r ≡ m
    pub index_first :
        (p : Place)
        → is_unresolved m ≡ true
        → look_up (id_of m.params.match_up_id) ≡ some p
        → truthy p.draw_id ≡ true
        → r.params.draw_id ≡ p.draw_id

  abbrev pub AreResolved : List Method → List Method → Type 0
  AreResolved [] [] = Unit {0}
  AreResolved (m ∷ ms) (r ∷ rs) = IsResolved m r × AreResolved ms rs
  AreResolved _ _ = ⊥
