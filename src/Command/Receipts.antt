-- ===== src/Command/Receipts.antt =====
-- `CommandReceipts.execute`, `runDurableCommand` and `afterCommandCommit` of
-- src/storage/postgres/commandReceipts.ts and commandTransaction.ts. The database is the tournament
-- records, of any type, and the table of receipts; a transaction works on a copy that COMMIT puts in
-- place. `Effect` is what is done outside the database.
pub mod Once
pub mod Resent
use competition_factory_serv.Prelude.{
  ℕ, String, ◌==◌, Bool, true, false, not, ◌&&◌, ◌||◌, Option, none, some, List, [], ◌∷◌, ◌++◌,
  if◌then◌else◌, leb,
}

-- An absent property, or one that is no string, is `none`.
pub record Payload : Type 0 where
  pub command_id : Option String
  pub command_actor : Option String
  pub command_fingerprint : Option String

pub record Reply (Body : Type 0) : Type 0 where
  pub success : Bool
  pub error : Bool
  pub retryable : Bool
  pub deduplicated : Bool
  pub durable_receipt : Bool
  pub command_id : Option String
  pub body : Body

pub record Receipt (Body : Type 0) : Type 0 where
  pub actor : String
  pub command_id : String
  pub fingerprint : String
  pub result : Reply Body

pub record Database (Records Body : Type 0) : Type 0 where
  pub records : Records
  pub receipts : List (Receipt Body)

pub data Failure : Type 0 where
  bad_identity id_reused not_committed apply_threw commit_lost no_storage : Failure

pub data Outcome (Body : Type 0) : Type 0 where
  replies : Reply Body → Outcome Body
  throws : Failure → Outcome Body

-- How COMMIT ends: known to be done, not done, or done with the connection lost before the answer.
pub data Commit : Type 0 where
  committed aborted lost : Commit

-- What `apply` does: it throws, or it has a result; and in either case the records as it left them and
-- the effects that it passed to `afterCommandCommit`.
pub data Applied (Records Body Effect : Type 0) : Type 0 where
  threw : Records → List Effect → Applied Records Body Effect
  gave : Reply Body → Records → List Effect → Applied Records Body Effect

-- The outcome, the database afterwards, and the effects that were done.
pub record Run (Records Body Effect : Type 0) : Type 0 where
  pub outcome : Outcome Body
  pub database : Database Records Body
  pub effects : List Effect

module _ {Body : Type 0} where
  unfoldable pub find_receipt : List (Receipt Body) → String → String → Option (Receipt Body)
  find_receipt [] actor id = none
  find_receipt (r ∷ rs) actor id =
      let rest = find_receipt rs actor id in
      if r.actor == actor && r.command_id == id then some r else rest

  abbrev pub receipted : String → Reply Body → Reply Body
  receipted id result = record result { command_id = some id; durable_receipt = true }

module _ {Records Body Effect : Type 0} where
  abbrev pub nothing : Outcome Body → Database Records Body → Run Records Body Effect
  nothing outcome db = record { outcome = outcome; database = db; effects = [] }

  -- `COMMIT`, and the effects after it where it is known to be done.
  abbrev pub end_with :
      Commit
      → Reply Body
      → Database Records Body
      → Database Records Body
      → List Effect
      → Run Records Body Effect
  end_with committed result old new effects = record {
    outcome = replies result;
    database = new;
    effects = effects;
  }
  end_with aborted result old new effects = nothing (throws commit_lost) old
  end_with lost result old new effects = nothing (throws commit_lost) new

  module _ (apply : Records → Applied Records Body Effect) where
    abbrev pub finish_apply :
        Database Records Body
        → String
        → String
        → String
        → Commit
        → Applied Records Body Effect
        → Run Records Body Effect
    finish_apply db actor id fingerprint commit (threw records effects) =
        nothing (throws apply_threw) db
    finish_apply db actor id fingerprint commit (gave result records effects) =
        if not result.success || result.error
        then nothing (if result.retryable then throws not_committed else replies result) db
        else end_with commit (receipted id result) db
            (record {
              records = records;
              receipts =
                  db.receipts
                  ++ record {
                    actor = actor;
                    command_id = id;
                    fingerprint = fingerprint;
                    result = receipted id result;
                  }
                    ∷ [];
            })
            effects

    abbrev pub with_prior :
        Database Records Body
        → String
        → String
        → String
        → Commit
        → Option (Receipt Body)
        → Run Records Body Effect
    with_prior db actor id fingerprint commit none =
        finish_apply db actor id fingerprint commit (apply db.records)
    with_prior db actor id fingerprint commit (some r) =
        if not (r.fingerprint == fingerprint)
        then nothing (throws id_reused) db
        else end_with commit (record r.result { deduplicated = true }) db db []

    -- The transaction, from BEGIN on.
    unfoldable pub transact :
        Database Records Body → String → String → String → Commit → Run Records Body Effect
    unfolding find_receipt
    transact db actor id fingerprint commit =
        with_prior db actor id fingerprint commit (find_receipt db.receipts actor id)

    -- The regular expressions for ids and fingerprints, and the length of a text.
    module _ (is_id is_fingerprint : String → Bool) (length_of : String → ℕ) where
      abbrev pub identified : String → String → String → Bool
      identified id actor fingerprint =
          is_id id
          && ((not (actor == "") && leb (length_of actor) 256) && is_fingerprint fingerprint)

      unfoldable pub execute : Database Records Body → Payload → Commit → Run Records Body Effect
      execute db p commit = elim p.command_id [
        | none ↦ nothing (throws bad_identity) db
        | some id ↦ elim p.command_actor [
          | none ↦ nothing (throws bad_identity) db
          | some actor ↦ elim p.command_fingerprint [
            | none ↦ nothing (throws bad_identity) db
            | some fingerprint ↦
                if identified id actor fingerprint
                then transact db actor id fingerprint commit
                else nothing (throws bad_identity) db
          ]
        ]
      ]

      -- Without a transaction the statements of `apply` take hold one by one, and its effects at once.
      abbrev direct : Database Records Body → Applied Records Body Effect → Run Records Body Effect
      direct db (threw records effects) = record {
        outcome = throws apply_threw;
        database = record db { records = records };
        effects = effects;
      }
      direct db (gave result records effects) = record {
        outcome = replies result;
        database = record db { records = records };
        effects = effects;
      }

      unfoldable pub run_durable_command :
          Bool → Database Records Body → Payload → Commit → Run Records Body Effect
      unfolding execute
      run_durable_command has_receipts db p commit = elim p.command_id [
        | none ↦ direct db (apply db.records)
        | some id ↦ if has_receipts then execute db p commit else nothing (throws no_storage) db
      ]
