-- ===== src/Command/Receipts/Resent.antt =====
-- What a durable command that has taken hold is answered when it is sent again.
use competition_factory_serv.Prelude.{
  String, eq_refl, ◌≡◌, refl, sym, ap, subst, ◌∙◌, ◌⊎◌, inl, inr, true, false, none, some, List, [],
  ◌∷◌, ◌++◌,
}
use competition_factory_serv.Command.Receipts.{
  Reply, Receipt, Database, replies, Commit, committed, aborted, lost, Applied, gave, Run,
  find_receipt, end_with, receipted, transact,
}
use competition_factory_serv.Command.Receipts.Once.{sends, find_new}

module _ {Records Body Effect : Type 0} (apply : Records → Applied Records Body Effect) where
  module _ (actor id fingerprint : String) where
    -- With its receipt there, the command changes nothing and does nothing.
    transact_again :
        (db : Database Records Body) (c : Commit) (r : Receipt Body)
        → find_receipt db.receipts actor id ≡ some r
        → r.fingerprint ≡ fingerprint
        → transact apply db actor id fingerprint c
          ≡ end_with c (record r.result { deduplicated = true }) db db []
    unfolding transact
    transact_again db c r f m = rw (f, m, eq_refl fingerprint) refl

    end_with_same :
        (db : Database Records Body) (c : Commit) (reply : Reply Body)
        → ((end_with {Effect = Effect} c reply db db []).database ≡ db)
    end_with_same db committed reply = refl
    end_with_same db aborted reply = refl
    end_with_same db lost reply = refl

    sends_same :
        (cs : List Commit) (db : Database Records Body) (done : List Effect) (r : Receipt Body)
        → find_receipt db.receipts actor id ≡ some r
        → r.fingerprint ≡ fingerprint
        → (sends apply actor id fingerprint db done cs).0 ≡ db
    unfolding sends
    sends_same [] db done r f m = refl
    sends_same (c ∷ cs) db done r f m =
        let t : Run Records Body Effect = transact apply db actor id fingerprint c in
        let same : t.database ≡ db =
          ap (λ x. x.database) (transact_again db c r f m)
          ∙ end_with_same db c (record r.result { deduplicated = true }) in
        sends_same cs t.database (done ++ t.effects) r
          (subst (λ x. find_receipt x.receipts actor id ≡ some r) (sym same) f) m
        ∙ same

    -- What the receipt of a first send holds.
    unfoldable first_receipt : Reply Body → Receipt Body
    first_receipt result = record {
      actor = actor;
      command_id = id;
      fingerprint = fingerprint;
      result = receipted id result;
    }

    first_send :
        (db : Database Records Body) (c : Commit) (result : Reply Body) (records : Records)
        (effects : List Effect)
        → find_receipt db.receipts actor id ≡ none
        → apply db.records ≡ gave result records effects
        → result.success ≡ true
        → result.error ≡ false
        → (c ≡ committed) ⊎ (c ≡ lost)
        → (transact apply db actor id fingerprint c).database
          ≡ record { records = records; receipts = db.receipts ++ first_receipt result ∷ [] }
    unfolding transact first_receipt
    first_send db c result records effects u a ok clean (inl e) = simp (u, a, ok, clean, e) refl
    first_send db c result records effects u a ok clean (inr e) = simp (u, a, ok, clean, e) refl

    -- A durable command that the database has no receipt of is sent, applies with a result that is a
    -- success and no error, and its COMMIT is done, whether or not the answer to COMMIT was lost. After
    -- any further sends of it, whatever their COMMITs end in, one whose COMMIT is done is answered with
    -- that first result, as its receipt holds it and marked as deduplicated, the records are those that
    -- the first application left, and no effect is done.
    pub resend_gets_answer :
        (db : Database Records Body) (c : Commit) (cs : List Commit) (result : Reply Body)
        (records : Records) (effects : List Effect)
        → find_receipt db.receipts actor id ≡ none
        → apply db.records ≡ gave result records effects
        → result.success ≡ true
        → result.error ≡ false
        → (c ≡ committed) ⊎ (c ≡ lost)
        → let later = (sends apply actor id fingerprint db [] (c ∷ cs)).0 in
          ((transact apply later actor id fingerprint committed).outcome
            ≡ replies (record result {
              deduplicated = true;
              durable_receipt = true;
              command_id = some id;
            }))
          × ((transact apply later actor id fingerprint committed).database.records ≡ records)
          × ((transact apply later actor id fingerprint committed).effects ≡ [])
    unfolding sends first_receipt
    resend_gets_answer db c cs result records effects u a ok clean e =
        let t : Run Records Body Effect = transact apply db actor id fingerprint c in
        let first = first_send db c result records effects u a ok clean e in
        let receipt : Receipt Body = first_receipt result in
        let found : find_receipt (db.receipts ++ receipt ∷ []) actor id ≡ some receipt =
          find_new apply actor id fingerprint db.receipts receipt u refl refl in
        let there : find_receipt t.database.receipts actor id ≡ some receipt =
          subst (λ x. find_receipt x.receipts actor id ≡ some receipt) (sym first) found in
        let later : (sends apply actor id fingerprint t.database t.effects cs).0 ≡ t.database =
          sends_same cs t.database t.effects receipt there refl in
        let final : transact apply (sends apply actor id fingerprint t.database t.effects cs).0
              actor id fingerprint committed
            ≡ end_with committed (record receipt.result { deduplicated = true }) t.database
                t.database [] =
          ap (λ x. transact apply x actor id fingerprint committed) later
          ∙ transact_again t.database committed receipt there refl in
        (
          ap (λ x. x.outcome) final,
          ap (λ x. x.database.records) final ∙ ap (λ x. x.records) first,
          ap (λ x. x.effects) final,
        )
