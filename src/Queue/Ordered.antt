-- ===== src/Queue/Ordered.antt =====
-- What the execution queue does only after a save, and what it never does after a failed one.
use competition_factory_serv.Prelude.{
  String, ◌≡◌, refl, ◌∙◌, Bool, true, false, ◌&&◌, Option, none, some, List, [], ◌∷◌, ◌++◌, arith,
  if◌then◌else◌, is_empty, Bool-cases, inl, inr,
}
use competition_factory_serv.Queue.{
  applied, rejected, partial_result, Act, fetched, engine_ran, saved, save_failed, profiled,
  snapshot_taken, enqueued_deltas, enqueue_failed, documents_failed, requested_documents,
  deleted_key, audited, EngineResult, SaveResult, save_ok, fenced, save_error, FetchResult,
  fetch_error, no_records, records, World, Response, fenced_save, not_persisted, answered,
  valid_records, Trace, delete_acts, closing_acts, projection_acts, finish, after_save,
  after_engine, locked_body, execution_queue, status_of, ids_of_payload,
}

-- How far a trace has come: before the engine, after it, after a save, after a failed save.
pub data Stage : Type 0 where
  before_engine after_run after_saving failed_saving : Stage

-- The acts that the stage allows, and the stage that they lead to; `none` is an act out of place.
abbrev pub next : Stage → Act → Option Stage
next before_engine fetched = some before_engine
next before_engine engine_ran = some after_run
next after_run saved = some after_saving
next after_run save_failed = some failed_saving
next after_run (deleted_key k) = some after_run
next after_run (audited applied) = none
next after_run (audited rejected) = some after_run
next after_run (audited partial_result) = some after_run
next after_saving snapshot_taken = some after_saving
next after_saving (profiled false) = some after_saving
next after_saving enqueued_deltas = some after_saving
next after_saving enqueue_failed = some after_saving
next after_saving documents_failed = some after_saving
next after_saving (requested_documents ids) = some after_saving
next after_saving (deleted_key k) = some after_saving
next after_saving (audited applied) = some after_saving
next failed_saving (profiled true) = some failed_saving
next _ _ = none

abbrev pub follow : Option Stage → List Act → Option Stage
follow none acts = none
follow (some s) [] = some s
follow (some s) (a ∷ acts) = follow (next s a) acts

-- Where a run with this answer has ended.
abbrev pub stage_of : Response → Stage
stage_of fenced_save = failed_saving
stage_of not_persisted = failed_saving
stage_of (answered r true) = after_saving
stage_of (answered r false) = after_run
stage_of _ = before_engine

follow-append :
    (s : Option Stage) (xs ys : List Act) → follow s (xs ++ ys) ≡ follow (follow s xs) ys
follow-append none xs ys = refl
follow-append (some s) [] ys = refl
follow-append (some s) (x ∷ xs) ys = follow-append (next s x) xs ys

-- Two parts, the first of which leads to the start of the second.
follow_on :
    (a b c : Option Stage) (xs ys : List Act)
    → follow a xs ≡ b
    → follow b ys ≡ c
    → follow a (xs ++ ys) ≡ c
follow_on a b c xs ys h k = follow-append a xs ys ∙ rw h k

deletes_run : (ks : List String) → follow (some after_run) (delete_acts ks) ≡ some after_run
deletes_run [] = refl
deletes_run (k ∷ ks) = deletes_run ks

deletes_saved : (ks : List String) → follow (some after_saving) (delete_acts ks) ≡ some after_saving
deletes_saved [] = refl
deletes_saved (k ∷ ks) = deletes_saved ks

audit_run :
    (audits : Bool) (r : EngineResult)
    → r.success ≡ false
    → follow (some after_run) (if audits then audited (status_of r) ∷ [] else []) ≡ some after_run
audit_run false r h = refl
audit_run true r h = elim (Bool-cases r.error) [ inl e ↦ simp (h, e) | inr e ↦ simp (h, e) ]

audit_saved :
    (audits : Bool) (r : EngineResult)
    → r.success ≡ true
    → follow (some after_saving) (if audits then audited (status_of r) ∷ [] else [])
      ≡ some after_saving
audit_saved false r h = refl
audit_saved true r h = simp h

closing_run :
    (w : World)
    → w.engine.success ≡ false
    → follow (some after_run) (closing_acts w) ≡ some after_run
closing_run w h =
    follow_on (some after_run) (some after_run) (some after_run) (delete_acts w.keys) _
      (deletes_run w.keys) (audit_run w.audits w.engine h)

closing_saved :
    (w : World)
    → w.engine.success ≡ true
    → follow (some after_saving) (closing_acts w) ≡ some after_saving
closing_saved w h =
    follow_on (some after_saving) (some after_saving) (some after_saving) (delete_acts w.keys) _
      (deletes_saved w.keys) (audit_saved w.audits w.engine h)

projection_cases :
    (a b c : Bool) (ids : List String)
    → follow (some after_saving) (
        (if a then enqueue_failed else enqueued_deltas)
        ∷ (if b then [] else if c then documents_failed ∷ [] else requested_documents ids ∷ []))
      ≡ some after_saving
projection_cases true true c ids = refl
projection_cases true false true ids = refl
projection_cases true false false ids = refl
projection_cases false true c ids = refl
projection_cases false false true ids = refl
projection_cases false false false ids = refl

projection_saved :
    (enabled : Bool) (w : World)
    → follow (some after_saving) (if enabled then projection_acts w else []) ≡ some after_saving
projection_saved false w = refl
projection_saved true w =
    projection_cases w.enqueue_throws (is_empty w.stale) w.documents_throw w.stale

abbrev end_of : Trace → Option Stage
end_of t = follow (some before_engine) (t.acts ++ t.deferred)

-- The end of a run, given the stage in which it finds the trace and its parts keep it.
finish-end :
    (durable : Bool) (w : World) (acts deferred : List Act) (stamped : Bool) (s : Stage)
    → follow (some before_engine) acts ≡ some s
    → follow (some s) deferred ≡ some s
    → follow (some s) (if w.outbox_enabled && w.engine.success then projection_acts w else [])
      ≡ some s
    → follow (some s) (closing_acts w) ≡ some s
    → end_of (finish durable w acts deferred stamped) ≡ some s
finish-end true w acts deferred stamped s h d p c =
    follow_on (some before_engine) (some s) (some s)
      (acts ++ ((if w.outbox_enabled && w.engine.success then projection_acts w else []) ++ [])) _
      (follow_on (some before_engine) (some s) (some s) acts _ h
        (follow_on (some s) (some s) (some s) _ [] p refl))
      (follow_on (some s) (some s) (some s) deferred _ d c)
finish-end false w acts deferred stamped s h d p c =
    follow_on (some before_engine) (some s) (some s)
      (acts
        ++ ((if w.outbox_enabled && w.engine.success then projection_acts w else [])
            ++ closing_acts w))
      _
      (follow_on (some before_engine) (some s) (some s) acts _ h
        (follow_on (some s) (some s) (some s) _ _ p c))
      (follow_on (some s) (some s) (some s) deferred [] d refl)

saved-end :
    (durable : Bool) (w : World)
    → w.engine.success ≡ true
    → end_of (after_save durable w save_ok (fetched ∷ engine_ran ∷ [])) ≡ some after_saving
saved-end true w h =
    finish-end true w (fetched ∷ engine_ran ∷ saved ∷ profiled false ∷ []) (snapshot_taken ∷ [])
      true after_saving refl refl (projection_saved (w.outbox_enabled && w.engine.success) w)
      (closing_saved w h)
saved-end false w h =
    finish-end false w (fetched ∷ engine_ran ∷ saved ∷ profiled false ∷ snapshot_taken ∷ []) [] true
      after_saving refl refl (projection_saved (w.outbox_enabled && w.engine.success) w)
      (closing_saved w h)

after_save-end :
    (durable : Bool) (w : World) (r : SaveResult)
    → w.engine.success ≡ true
    → let t = after_save durable w r (fetched ∷ engine_ran ∷ []) in
      end_of t ≡ some (stage_of t.response)
after_save-end durable w save_ok h = saved-end durable w h
after_save-end durable w fenced h = refl
after_save-end durable w save_error h = refl

unprojected :
    (enabled success : Bool) (w : World)
    → success ≡ false
    → follow (some after_run) (if enabled && success then projection_acts w else [])
      ≡ some after_run
unprojected enabled success w h = ground (arith, h)

by_engine :
    (durable : Bool) (w : World) (success : Bool)
    → w.engine.success ≡ success
    → let t =
        if success
        then after_save durable w w.save (fetched ∷ engine_ran ∷ [])
        else finish durable w (fetched ∷ engine_ran ∷ []) [] false in
      end_of t ≡ some (stage_of t.response)
by_engine durable w true h = after_save-end durable w w.save h
by_engine durable w false h =
    finish-end durable w (fetched ∷ engine_ran ∷ []) [] false after_run refl refl
      (unprojected w.outbox_enabled w.engine.success w h) (closing_run w h)

after_engine-end :
    (durable : Bool) (w : World)
    → end_of (after_engine durable w) ≡ some (stage_of (after_engine durable w).response)
after_engine-end durable w = by_engine durable w w.engine.success refl

locked_body-end :
    (durable : Bool) (w : World) (f : FetchResult)
    → end_of (locked_body durable w f) ≡ some (stage_of (locked_body durable w f).response)
unfolding locked_body
locked_body-end durable w fetch_error = refl
locked_body-end durable w no_records = refl
locked_body-end durable w (records rs) = elim (Bool-cases (valid_records rs)) [
  | inl h ↦ rw h (after_engine-end durable w)
  | inr h ↦ rw h refl
]

-- Whatever the parts answer, durable or not, the acts of a run, with those that wait for the commit
-- after the others, are each in their place, and end where the answer says. So deltas, document
-- requests and the integrity snapshot come only after a save, after a failed save nothing follows but
-- its measurement, an audit says `applied` only after a save, and an answer bears the saved rows' stamps
-- exactly if there was a save.
pub execution_queue_keeps_order :
    (ids : Option (List String)) (id : Option String) (has_storage : Bool) (refused : List String)
    (durable : Bool) (w : World)
    → follow (some before_engine) (
        (execution_queue ids id has_storage refused durable w).acts
        ++ (execution_queue ids id has_storage refused durable w).deferred)
      ≡ some (stage_of (execution_queue ids id has_storage refused durable w).response)
unfolding execution_queue
execution_queue_keeps_order ids id has_storage refused durable w =
    elim (Bool-cases (is_empty (ids_of_payload ids id))) [
      | inl a ↦ rw a refl
      | inr a ↦ elim (Bool-cases has_storage) [
        | inl b ↦ elim (Bool-cases (is_empty refused)) [
          | inl c ↦ rw (a, b, c) (locked_body-end durable w w.fetch)
          | inr c ↦ rw (a, b, c) refl
        ]
        | inr b ↦ rw (a, b) refl
      ]
    ]
