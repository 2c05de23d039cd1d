-- ===== src/Command/Receipts/Once.antt =====
-- A durable command takes hold at most once, however often it is sent.
use competition_factory_serv.Prelude.{
  String, ◌==◌, eq_refl, ◌≡◌, refl, sym, ap, subst, append-nil, ◌⊎◌, inl, inr, true, not, ◌&&◌,
  ◌||◌, none, some, List, [], ◌∷◌, ◌++◌, Bool-cases,
}
use competition_factory_serv.Command.Receipts.{
  Receipt, Database, Commit, committed, aborted, lost, Applied, threw, gave, Run, find_receipt,
  end_with, receipted, finish_apply, with_prior, transact,
}

module _ {Records Body Effect : Type 0} (apply : Records → Applied Records Body Effect) where
  abbrev pub records_of : Applied Records Body Effect → Records
  records_of (threw records effects) = records
  records_of (gave result records effects) = records

  abbrev pub effects_of : Applied Records Body Effect → List Effect
  effects_of (threw records effects) = effects
  effects_of (gave result records effects) = effects

  module _ (actor id fingerprint : String) where
    -- One command, sent again and again: the database and the effects done so far.
    unfoldable pub sends :
        Database Records Body → List Effect → List Commit → Database Records Body × List Effect
    sends db done [] = (db, done)
    sends db done (c ∷ cs) =
        let r = transact apply db actor id fingerprint c in sends r.database (done ++ r.effects) cs

    -- Nothing of the command has taken hold.
    pub record IsUntouched (before : Records) (db : Database Records Body) (done : List Effect)
        : Type 0 where
      pub same : db.records ≡ before
      pub unreceipted : find_receipt db.receipts actor id ≡ none
      pub quiet : done ≡ []

    -- The command has taken hold once, and its receipt says so.
    pub record IsApplied (before : Records) (db : Database Records Body) (done : List Effect)
        : Type 0 where
      pub receipt : Receipt Body
      pub changed : db.records ≡ records_of (apply before)
      pub receipted : find_receipt db.receipts actor id ≡ some receipt
      pub matches : receipt.fingerprint ≡ fingerprint
      pub once : (done ≡ []) ⊎ (done ≡ effects_of (apply before))

    pub find_new :
        (rs : List (Receipt Body)) (r : Receipt Body)
        → find_receipt rs actor id ≡ none
        → r.actor ≡ actor
        → r.command_id ≡ id
        → find_receipt (rs ++ r ∷ []) actor id ≡ some r
    unfolding find_receipt
    find_new [] r h a b = rw (a, b, eq_refl actor, eq_refl id) refl
    find_new (x ∷ rs) r h a b = elim (Bool-cases (x.actor == actor && x.command_id == id)) [
      | inl e ↦ cc (rw e at h)
      | inr e ↦ rw e (find_new rs r (rw e at h) a b)
    ]

    abbrev pub IsOnce : Records → Database Records Body → List Effect → Type 0
    IsOnce before db done = IsUntouched before db done ⊎ IsApplied before db done

    finish_apply-IsOnce :
        (before : Records) (db : Database Records Body) (c : Commit)
        (a : Applied Records Body Effect)
        → apply before ≡ a
        → IsUntouched before db []
        → let r = finish_apply apply db actor id fingerprint c a in
          IsOnce before r.database r.effects
    finish_apply-IsOnce before db c (threw records effects) e u = inl u
    finish_apply-IsOnce before db c (gave result records effects) e u =
        elim (Bool-cases (not result.success || result.error)) [
          | inl h ↦ simp h (inl u)
          | inr h ↦ simp h (by_commit c)
        ]
      where
        new : Database Records Body
        new = record {
          records = records;
          receipts =
              db.receipts
              ++ record {
                actor = actor;
                command_id = id;
                fingerprint = fingerprint;
                result = receipted id result;
              }
                ∷ [];
        }

        applied : (done : List Effect) → (done ≡ []) ⊎ (done ≡ effects) → IsApplied before new done
        applied done d = record {
          receipt = _;
          changed = rw e refl;
          receipted = find_new db.receipts _ u.unreceipted refl refl;
          matches = refl;
          once = rw e d;
        }

        by_commit :
            (k : Commit)
            → let r = end_with k (receipted id result) db new effects in
              IsOnce before r.database r.effects
        by_commit committed = inr (applied effects (inr refl))
        by_commit aborted = inl u
        by_commit lost = inr (applied [] (inl refl))

    again :
        (before : Records) (db : Database Records Body) (done : List Effect) (c : Commit)
        (r : Receipt Body)
        → IsApplied before db done
        → find_receipt db.receipts actor id ≡ some r
        → r.fingerprint ≡ fingerprint
        → let x = with_prior apply db actor id fingerprint c (some r) in
          IsApplied before x.database (done ++ x.effects)
    again before db done c r a f m = rw (m, eq_refl fingerprint) (by_commit c)
      where
        same : IsApplied before db (done ++ [])
        same = subst (λ l. IsApplied before db l) (sym (append-nil done)) a

        by_commit :
            (k : Commit)
            → let x : Run Records Body Effect =
                end_with k (record r.result { deduplicated = true }) db db [] in
              IsApplied before x.database (done ++ x.effects)
        by_commit committed = same
        by_commit aborted = same
        by_commit lost = same

    transact-IsOnce :
        (before : Records) (db : Database Records Body) (done : List Effect) (c : Commit)
        → IsOnce before db done
        → let r = transact apply db actor id fingerprint c in
          IsOnce before r.database (done ++ r.effects)
    unfolding transact
    transact-IsOnce before db done c (inl u) =
        rw (u.quiet, u.unreceipted)
          (finish_apply-IsOnce before db c (apply db.records) (ap apply (sym u.same))
            (record { same = u.same; unreceipted = u.unreceipted; quiet = refl }))
    transact-IsOnce before db done c (inr a) =
        rw a.receipted (inr (again before db done c a.receipt a a.receipted a.matches))

    sends-IsOnce :
        (before : Records) (cs : List Commit) (db : Database Records Body) (done : List Effect)
        → IsOnce before db done
        → IsOnce before (sends db done cs).0 (sends db done cs).1
    unfolding sends
    sends-IsOnce before [] db done h = h
    sends-IsOnce before (c ∷ cs) db done h =
        sends-IsOnce before cs _ _ (transact-IsOnce before db done c h)

    -- A durable command that the database has no receipt of is sent any number of times, and each COMMIT
    -- may be known to be done, not be done, or be done with the answer lost. Then either nothing of it
    -- has taken hold: records, receipts and effects are as before; or its change of the records has
    -- taken hold exactly once, its receipt is there, and its effects were done once or not at all.
    pub sends_at_most_once :
        (db : Database Records Body) (cs : List Commit)
        → find_receipt db.receipts actor id ≡ none
        → IsUntouched db.records (sends db [] cs).0 (sends db [] cs).1
          ⊎ IsApplied db.records (sends db [] cs).0 (sends db [] cs).1
    sends_at_most_once db cs h =
        sends-IsOnce db.records cs db []
          (inl (record { same = refl; unreceipted = h; quiet = refl }))
