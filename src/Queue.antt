-- ===== src/Queue.antt =====
-- `executionQueue` of src/modules/factory/functions/private/executionQueue.ts: what it does under the
-- tournament lock, in which order, and what it answers. What the parts that it calls answer is a record
-- of parameters, and each thing that it does to the world is an `Act` of the trace. A part that throws
-- (the catch at the end), log lines, the
-- load profile's measurements and the shadow comparison are left out; the drawing up of the deltas is
-- the act `enqueue_deltas`.
pub mod References
pub mod Documents
pub mod Ordered
pub mod Tests
use competition_factory_serv.Prelude.{
  ℕ, String, ◌==◌, Bool, true, false, not, ◌&&◌, ◌||◌, Option, none, some, List, [], ◌∷◌, ◌++◌,
  if◌then◌else◌, truthy, is_empty, is_text, all, filter,
}

pub data Status : Type 0 where
  applied rejected partial_result : Status

pub data Act : Type 0 where
  fetched engine_ran saved save_failed : Act
  profiled : Bool → Act
  snapshot_taken enqueued_deltas : Act
  enqueue_failed documents_failed : Act
  requested_documents : List String → Act
  deleted_key : String → Act
  audited : Status → Act

pub record EngineResult : Type 0 where
  pub success : Bool
  pub error : Bool

pub data SaveResult : Type 0 where
  save_ok fenced save_error : SaveResult

-- A fetch fails, or has the records, each with its key and its own `tournamentId`; `no_records` is a
-- result without them.
pub data FetchResult : Type 0 where
  fetch_error no_records : FetchResult
  records : List (String × Option String) → FetchResult

-- The answers of storage, engine, outbox and cache for one request.
pub record World : Type 0 where
  pub fetch : FetchResult
  pub engine : EngineResult
  pub save : SaveResult
  pub outbox_enabled : Bool
  pub enqueue_throws : Bool
  pub stale : List String
  pub documents_throw : Bool
  pub keys : List String
  pub audits : Bool

pub data Response : Type 0 where
  no_ids no_storage refused_methods fetch_failed invalid_records fenced_save not_persisted :
      Response
  answered : EngineResult → Bool → Response

-- `loadFetchedRecords`
abbrev pub valid_records : List (String × Option String) → Bool
valid_records rs = all (λ r. is_text r.1 r.0) rs

abbrev pub delete_acts : List String → List Act
delete_acts [] = []
delete_acts (k ∷ ks) = deleted_key k ∷ delete_acts ks

abbrev pub status_of : EngineResult → Status
status_of r = if r.success then applied else if r.error then rejected else partial_result

abbrev pub projection_acts : World → List Act
projection_acts w =
    (if w.enqueue_throws then enqueue_failed else enqueued_deltas)
    ∷ (if is_empty w.stale
        then []
        else if w.documents_throw
        then documents_failed ∷ []
        else requested_documents w.stale ∷ [])

abbrev pub closing_acts : World → List Act
closing_acts w = delete_acts w.keys ++ (if w.audits then audited (status_of w.engine) ∷ [] else [])

-- What a run did in place, what it left to `afterCommandCommit`, and its answer.
pub record Trace : Type 0 where
  pub acts : List Act
  pub deferred : List Act
  pub response : Response

-- `afterCommandCommit`: in a durable command the effect waits for the commit.
abbrev pub after_commit : Bool → List Act → List Act × List Act
after_commit durable effects = if durable then ([], effects) else (effects, [])

abbrev pub finish : Bool → World → List Act → List Act → Bool → Trace
finish durable w acts deferred stamped = record {
  acts =
      acts
      ++ ((if w.outbox_enabled && w.engine.success then projection_acts w else [])
          ++ (after_commit durable (closing_acts w)).0);
  deferred = deferred ++ (after_commit durable (closing_acts w)).1;
  response = answered w.engine stamped;
}

abbrev pub after_save : Bool → World → SaveResult → List Act → Trace
after_save durable w save_ok acts =
    finish durable w
      (acts ++ (saved ∷ profiled false ∷ (after_commit durable (snapshot_taken ∷ [])).0))
      (after_commit durable (snapshot_taken ∷ [])).1 true
after_save durable w fenced acts = record {
  acts = acts ++ (save_failed ∷ profiled true ∷ []);
  deferred = [];
  response = fenced_save;
}
after_save durable w save_error acts = record {
  acts = acts ++ save_failed ∷ [];
  deferred = [];
  response = not_persisted;
}

abbrev pub after_engine : Bool → World → Trace
after_engine durable w =
    if w.engine.success
    then after_save durable w w.save (fetched ∷ engine_ran ∷ [])
    else finish durable w (fetched ∷ engine_ran ∷ []) [] false

abbrev stopped : List Act → Response → Trace
stopped acts response = record { acts = acts; deferred = []; response = response }

-- The body of the lock.
unfoldable pub locked_body : Bool → World → FetchResult → Trace
locked_body durable w fetch_error = stopped (fetched ∷ []) fetch_failed
locked_body durable w no_records = stopped (fetched ∷ []) invalid_records
locked_body durable w (records rs) =
    if valid_records rs then after_engine durable w else stopped (fetched ∷ []) invalid_records

-- `payload?.tournamentIds || (payload?.tournamentId && [payload.tournamentId]) || []`
abbrev pub ids_of_payload : Option (List String) → Option String → List String
ids_of_payload (some ids) id = ids
ids_of_payload none none = []
ids_of_payload none (some id) = if id == "" then [] else id ∷ []

-- The checks before the lock: `refused` are the test-data methods that the host does not allow.
unfoldable pub execution_queue :
    Option (List String) → Option String → Bool → List String → Bool → World → Trace
unfolding locked_body
execution_queue ids id has_storage refused durable w =
    if is_empty (ids_of_payload ids id)
    then stopped [] no_ids
    else if not has_storage
    then stopped [] no_storage
    else if not (is_empty refused)
    then stopped [] refused_methods
    else locked_body durable w w.fetch
