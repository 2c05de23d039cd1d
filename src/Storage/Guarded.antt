-- ===== src/Storage/Guarded.antt =====
-- What a wholesale save of FactoryService.saveTournamentRecords may change.
use competition_factory_serv.Prelude.{
  ℕ, String, ◌==◌, ◌≡◌, refl, sym, ◌∙◌, ap, subst, ◌⊎◌, inl, inr, Bool, true, false, Option, none,
  some, List, [], ◌∷◌, lookup, insert, map, All, Bool-cases, eq_iff,
}
use competition_factory_serv.Access.Context.{UserContext}
use competition_factory_serv.Access.Tournament.{get_created_by_user_id, can_mutate_tournament}
use competition_factory_serv.Access.Provider.{check_user, check_provider}
use competition_factory_serv.Storage.{
  StoredExtension, TournamentRecord, access_view, StoredRow, Store, Services,
}
use competition_factory_serv.Storage.Save.{
  SaveAnswer, saved, failed, save_threw, SaveRun, stamp_created_by, save_tournament_record,
  after_save, save_each, save_tournament_records,
}
use competition_factory_serv.Storage.Writes.{
  lookup-insert_self, lookup-insert_other, Written, save_tournament_record-Written,
}
use competition_factory_serv.Storage.Gate.{
  Payload, stored_view, Caller, gate_wholesale_save, attached, gated_save, gate_if_context, saver,
  WholesaleSave, wholesale_save,
}
use competition_factory_serv.Storage.Creators.{
  creator_extension_of, written, stamp_created_by-none, stamp_created_by-some,
}
use competition_factory_serv.Storage.Guard.{IsKeyed, Allowed, IsGood, gate_wholesale_save-IsGood}

-- `attach` changes neither the id of a record nor its creator.
abbrev pub KeepsCreator : (Store → TournamentRecord → TournamentRecord) → Type 0
KeepsCreator attach =
    (t : Store) (r : TournamentRecord)
    → ((attach t r).tournament_id ≡ r.tournament_id)
      × (creator_extension_of (attach t r) ≡ creator_extension_of r)

abbrev pub or_saver : Option StoredExtension → String → Option StoredExtension
or_saver none id = written (some id)
or_saver (some e) id = some e

module _ (upper : String → String) (scoping : Bool) (svc : Services) (c : Caller)
    (ctx : UserContext) (s : Store) where
  -- The record that is stored under `key` after the save, against what was stored before it.
  abbrev pub Permitted : String → TournamentRecord → Type 0
  Permitted key r =
      ((lookup s.tournaments key ≡ none) × (creator_extension_of r ≡ written (some ctx.user_id)))
      ⊎ ((old : StoredRow) × (lookup s.tournaments key ≡ some old)
          × (can_mutate_tournament upper scoping (stored_view key old.document) (some ctx) c.roles
                []
              ≡ true)
          × (creator_extension_of r
              ≡ or_saver (written (get_created_by_user_id (stored_view key old.document)))
                  ctx.user_id))

  abbrev pub SaveFate : String → Store → Store → Type 0
  SaveFate k t t' =
      (lookup t'.tournaments k ≡ lookup t.tournaments k)
      ⊎ ((new : StoredRow) × (lookup t'.tournaments k ≡ some new) × Permitted k new.document)

  stamp-or_saver :
      (r : TournamentRecord) (e : Option StoredExtension)
      → (ctx.user_id == "") ≡ false
      → creator_extension_of r ≡ e
      → creator_extension_of (stamp_created_by r (some ctx.user_id)) ≡ or_saver e ctx.user_id
  stamp-or_saver r none u h = stamp_created_by-none r ctx.user_id u h
  stamp-or_saver r (some e) u h =
      ap (λ x. creator_extension_of x) (stamp_created_by-some r ctx.user_id e h) ∙ h

  stamped-Permitted :
      (key : String) (r : TournamentRecord)
      → (ctx.user_id == "") ≡ false
      → Allowed upper scoping svc c ctx s key (creator_extension_of r)
      → Permitted key (stamp_created_by r (some ctx.user_id))
  stamped-Permitted key r u (inl (l, e)) =
      let named : written (some ctx.user_id) ≡ or_saver (written (some ctx.user_id)) ctx.user_id =
        rw u refl in
      inl (l, stamp-or_saver r (written (some ctx.user_id)) u e ∙ sym named)
  stamped-Permitted key r u (inr (old, l, m, e)) = inr (
    old,
    l,
    m,
    stamp-or_saver r (written (get_created_by_user_id (stored_view key old.document))) u e,
  )

  Written-SaveFate :
      (k key : String) (r : TournamentRecord) (t t' : Store)
      → Permitted key r
      → Written key r 0 t t'
      → SaveFate k t t'
  Written-SaveFate k key r t t' p (inl e) = inl (ap (λ rows. lookup rows k) e)
  Written-SaveFate k key r t t' p (inr (e, passes)) =
      let new : StoredRow = record { document = r; owner_epoch = 0 } in
      elim (Bool-cases (key == k)) [
        | inr d ↦ inl (ap (λ rows. lookup rows k) e ∙ lookup-insert_other t.tournaments key k new d)
        | inl d ↦
            subst (λ x. SaveFate x t t') ((eq_iff key k).0 d)
              (inr
                (new, ap (λ rows. lookup rows key) e ∙ lookup-insert_self t.tournaments key new, p))
      ]

  after_save-SaveFate :
      (again : List (String × ℕ) → Store → SaveRun × Store) (bytes : List (String × ℕ))
      (k key : String) (t : Store) (a : SaveAnswer × Store)
      → SaveFate k t a.1
      → ((b : List (String × ℕ)) (u : Store) → SaveFate k u (again b u).1)
      → SaveFate k t (after_save svc again bytes key a).1
  after_save-SaveFate again bytes k key t (saved n, u) h ih = elim (ih (insert bytes key n) u) [
    | inr new ↦ inr new
    | inl e ↦ elim h [ inl f ↦ inl (e ∙ f) | inr (new, l, p) ↦ inr (new, e ∙ l, p) ]
  ]
  after_save-SaveFate again bytes k key t (failed m, u) h ih = h
  after_save-SaveFate again bytes k key t (save_threw, u) h ih = h

  save_each-SaveFate :
      (payload : Payload) (k : String) (bytes : List (String × ℕ)) (t : Store)
      → (ctx.user_id == "") ≡ false
      → All (λ e. IsGood upper scoping svc c ctx s e.0 e.1) payload
      → SaveFate k t (save_each svc payload 0 (some ctx.user_id) bytes t).1
  unfolding save_each
  save_each-SaveFate [] k bytes t u g = inl refl
  save_each-SaveFate ((key, r, f) ∷ rest) k bytes t u ((own, allowed), good) =
      after_save-SaveFate (save_each svc rest 0 (some ctx.user_id)) bytes k key t
        (save_tournament_record svc f r 0 (some ctx.user_id) t)
        (Written-SaveFate k key (stamp_created_by r (some ctx.user_id)) t
          (save_tournament_record svc f r 0 (some ctx.user_id) t).1
          (stamped-Permitted key r u allowed)
          (save_tournament_record-Written svc f key r 0 (some ctx.user_id) t own))
        (λ b v. save_each-SaveFate rest k b v u good)

  module _ (attach : Store → TournamentRecord → TournamentRecord) (accepts : Payload → Bool) where
    attached-IsGood :
        (payload : Payload)
        → KeepsCreator attach
        → All (λ e. IsGood upper scoping svc c ctx s e.0 e.1) payload
        → All
            (λ e. IsGood upper scoping svc c ctx s e.0 e.1)
            (attached upper scoping svc attach accepts s payload)
    attached-IsGood [] keeps g = tt
    attached-IsGood ((key, r, f) ∷ rest) keeps ((own, allowed), good) = (
      (
        (keeps s r).0 ∙ own,
        subst (Allowed upper scoping svc c ctx s key) (sym (keeps s r).1) allowed,
      ),
      attached-IsGood rest keeps good,
    )

    gated_save-SaveFate :
        (gated : Option Payload) (k : String)
        → KeepsCreator attach
        → (ctx.user_id == "") ≡ false
        → ((out : Payload)
            → gated ≡ some out
            → All (λ e. IsGood upper scoping svc c ctx s e.0 e.1) out)
        → SaveFate k s (gated_save upper scoping svc attach accepts gated (some ctx.user_id) s).1
    unfolding save_tournament_records
    gated_save-SaveFate none k keeps u g = inl refl
    gated_save-SaveFate (some out) k keeps u g =
        let ready : Payload = attached upper scoping svc attach accepts s out in
        elim (Bool-cases (accepts ready)) [
          | inr a ↦ rw a (inl refl)
          | inl a ↦
              rw a (save_each-SaveFate ready k [] s u (attached-IsGood out keeps (g out refl)))
        ]

-- A wholesale save by a caller with a user context that has a user id, in which every record stands
-- under its own id and the privacy policy changes neither ids nor creators, leaves each stored record
-- alone or replaces it by one that it may write: either none was stored and the new one names the
-- caller as its creator, or the caller may mutate the stored one, judged by its stored provider and
-- creator, and the new one names the stored creator, or the caller where none was named.
pub wholesale_save_guards :
    (upper : String → String) (scoping : Bool) (svc : Services) (c : Caller) (ctx : UserContext)
    (s : Store) (attach : Store → TournamentRecord → TournamentRecord) (accepts : Payload → Bool)
    (payload : Payload) (k : String)
    → c.user_context ≡ some ctx
    → (ctx.user_id == "") ≡ false
    → KeepsCreator attach
    → IsKeyed payload
    → SaveFate upper scoping svc c ctx s k s
        (wholesale_save upper scoping svc attach accepts c payload s).1
unfolding wholesale_save
wholesale_save_guards upper scoping svc c ctx s attach accepts payload k has u keeps keyed =
    let run : (o : Option UserContext) → WholesaleSave × Store = λ o.
      gated_save upper scoping svc attach accepts
        (gate_if_context upper scoping svc attach accepts c o payload s) (saver o c.legacy_id) s in
    let fate : SaveFate upper scoping svc c ctx s k s (run c.user_context).1 =
      subst (λ o. SaveFate upper scoping svc c ctx s k s (run o).1) (sym has)
        (gated_save-SaveFate upper scoping svc c ctx s attach accepts
          (gate_wholesale_save upper scoping svc c ctx payload s) k keeps u
          (λ out. gate_wholesale_save-IsGood upper scoping svc c ctx s payload out keyed)) in
    elim (Bool-cases (check_user c.user c.user_context)) [
      | inr b ↦ rw b (inl refl)
      | inl b ↦
          elim (Bool-cases
            (check_provider (map (λ e. access_view e.1) payload) c.user c.user_context true)) [
              | inr d ↦ rw (b, d) (inl refl)
              | inl d ↦ rw (b, d) fate
            ]
    ]
