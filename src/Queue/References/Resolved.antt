-- ===== src/Queue/References/Resolved.antt =====
-- What resolving the references of a call may change.
use competition_factory_serv.Prelude.{
  String, ◌≡◌, refl, sym, ap, subst, ◌∙◌, true, false, Option, none, some, some-injective, List, [],
  ◌∷◌, map, arith, truthy, length, nat_eq, Bool-cases, Option-cases, inl, inr,
}
use competition_factory_serv.Queue.References.{
  Method, Place, is_unresolved, put_place, id_of, from_record, resolve_indexed, resolve_recorded,
  resolve_from_index, resolve_from_records, resolve_references, IsResolved, AreResolved,
}

module _ (look_up : String → Option Place) (find_match_up : String → Option Place) where
  indexed-IsResolved :
      (m : Method) → IsResolved look_up find_match_up m (resolve_indexed look_up find_match_up m)
  indexed-IsResolved m = elim (Bool-cases (is_unresolved m)) [
    | inr h ↦ rw h (record {
      same_method = refl;
      same_match_up = refl;
      untouched = λ _. refl;
      index_first = λ p e. cc;
    })
    | inl h ↦ elim (Option-cases (look_up (id_of m.params.match_up_id))) [
      | inl n ↦
          rw (h, n)
            (record {
              same_method = refl;
              same_match_up = refl;
              untouched = λ _. refl;
              index_first = λ p e l t. cc (l, n);
            })
      | inr (p, n) ↦
          rw (h, n)
            (record {
              same_method = refl;
              same_match_up = refl;
              untouched = λ e. cc (e, h);
              index_first = λ q e l t. ap (λ x. x.draw_id) (some-injective p q (sym n ∙ l));
            })
    ]
  ]

  -- A method whose draw is known is not unresolved.
  placed : (r : Method) → truthy r.params.draw_id ≡ true → is_unresolved r ≡ false
  unfolding is_unresolved
  placed r h = ground (arith, h)

  module _ (m r : Method) (v : IsResolved look_up find_match_up m r)
      (open_still : is_unresolved r ≡ true) where
    -- The record's place is put only where the index had none.
    put-IsResolved : (p : Place) → IsResolved look_up find_match_up m (put_place r p)
    put-IsResolved p = record {
      same_method = v.same_method;
      same_match_up = v.same_match_up;
      untouched = λ e. cc (v.untouched e, e, open_still);
      index_first = λ q e l t.
          cc (placed r (subst (λ d. truthy d ≡ true) (sym (v.index_first q e l t)) t), open_still);
    }

    from_record-IsResolved :
        (o : Option Place) → IsResolved look_up find_match_up m (from_record r o)
    from_record-IsResolved none = v
    from_record-IsResolved (some p) = elim (Bool-cases (truthy p.draw_id)) [
      | inl h ↦ rw h (put-IsResolved p)
      | inr h ↦ rw h v
    ]

  recorded-IsResolved :
      (m r : Method)
      → IsResolved look_up find_match_up m r
      → IsResolved look_up find_match_up m (resolve_recorded look_up find_match_up r)
  recorded-IsResolved m r v = elim (Bool-cases (is_unresolved r)) [
    | inl h ↦ rw h (from_record-IsResolved m r v h (find_match_up (id_of r.params.match_up_id)))
    | inr h ↦ rw h v
  ]

  indexed-AreResolved :
      (ms : List Method)
      → AreResolved look_up find_match_up ms (map (resolve_indexed look_up find_match_up) ms)
  indexed-AreResolved [] = tt
  indexed-AreResolved (m ∷ ms) = (indexed-IsResolved m, indexed-AreResolved ms)

  recorded-AreResolved :
      (ms rs : List Method)
      → AreResolved look_up find_match_up ms rs
      → AreResolved look_up find_match_up ms (map (resolve_recorded look_up find_match_up) rs)
  recorded-AreResolved [] [] h = tt
  recorded-AreResolved (m ∷ ms) (r ∷ rs) (h, hs) =
      (recorded-IsResolved m r h, recorded-AreResolved ms rs hs)
  recorded-AreResolved [] (r ∷ rs) h = absurd h
  recorded-AreResolved (m ∷ ms) [] h = absurd h

-- In a call of one tournament each method keeps its name and its matchUp; one that is no score entry, or
-- that names its draw or its event, stays as it is; and a score entry whose draw the index names gets
-- that draw, whatever the record says.
pub resolve_references-AreResolved :
    (look_up find_match_up : String → Option Place) (ids records : List String)
    (methods : List Method)
    → nat_eq (length ids) 1 ≡ true
    → AreResolved look_up find_match_up methods
        (resolve_references look_up find_match_up ids records methods)
unfolding resolve_references resolve_from_index resolve_from_records
resolve_references-AreResolved look_up find_match_up ids records methods one =
    rw one (elim (Bool-cases (nat_eq (length records) 1)) [
      | inl h ↦ rw h (
          recorded-AreResolved look_up find_match_up methods _
            (indexed-AreResolved look_up find_match_up methods))
      | inr h ↦ rw h (indexed-AreResolved look_up find_match_up methods)
    ])
