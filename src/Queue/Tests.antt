-- ===== src/Queue/Tests.antt =====
-- Concrete calls of the execution queue.
use competition_factory_serv.Prelude.{
  String, ◌≡◌, refl, true, false, Option, none, some, List, [], ◌∷◌, ◌++◌, ◌↔◌, ◌⊎◌, ◌==◌, false,
  Any, includes,
}
use competition_factory_serv.Queue.{World, save_ok, records, execution_queue}
use competition_factory_serv.Queue.Ordered.{
  before_engine, follow, stage_of, execution_queue_keeps_order,
}
use competition_factory_serv.Queue.Documents.{Intent, document_request_tournament_ids}
use competition_factory_serv.Queue.Documents.Requested.{
  AreDistinct, IsParticipantKind, IsPolicyMethod, document_request_tournament_ids_lem,
}
use competition_factory_serv.Queue.References.{Place, Method, AreResolved, resolve_references}
use competition_factory_serv.Queue.References.Resolved.{resolve_references-AreResolved}

abbrev world : World
world = record {
  fetch = records (("t1", some "t1") ∷ []);
  engine = record { success = true; error = false };
  save = save_ok;
  outbox_enabled = true;
  enqueue_throws = false;
  stale = "t1" ∷ [];
  documents_throw = true;
  keys = "ged|t1|e1" ∷ [];
  audits = true;
}

execution_queue_keeps_order_example :
    follow (some before_engine) (
      (execution_queue (some ("t1" ∷ [])) none true [] true world).acts
      ++ (execution_queue (some ("t1" ∷ [])) none true [] true world).deferred)
    ≡ some (stage_of (execution_queue (some ("t1" ∷ [])) none true [] true world).response)
execution_queue_keeps_order_example =
    execution_queue_keeps_order (some ("t1" ∷ [])) none true [] true world

abbrev intents : List Intent
intents =
    record { kind = "participants"; tournament_id = some "t1" }
    ∷ record { kind = "matchUps"; tournament_id = some "t2" }
    ∷ []

document_request_tournament_ids_lem_example :
    ((includes
          (document_request_tournament_ids intents (some "addEvent" ∷ []) ("t1" ∷ "t2" ∷ []))
          "t2"
        ≡ true)
      ↔ (Any
            (λ i. IsParticipantKind i.kind × (i.tournament_id ≡ some "t2") × (("t2" == "") ≡ false))
            intents
          ⊎ (Any IsPolicyMethod (some "addEvent" ∷ [])
              × (includes ("t1" ∷ "t2" ∷ []) "t2" ≡ true))))
    × AreDistinct
        (document_request_tournament_ids intents (some "addEvent" ∷ []) ("t1" ∷ "t2" ∷ []))
document_request_tournament_ids_lem_example =
    document_request_tournament_ids_lem intents (some "addEvent" ∷ []) ("t1" ∷ "t2" ∷ []) "t2"

abbrev score : Method
score = record {
  method = some "setMatchUpStatus";
  params = record { match_up_id = some "m1"; draw_id = none; event_id = none };
}

abbrev indexed : String → Option Place
indexed id = some (record { draw_id = some "d1"; event_id = none })

abbrev unknown : String → Option Place
unknown id = none

resolve_references-AreResolved_example :
    AreResolved indexed unknown
      (score ∷ [])
      (resolve_references indexed unknown ("t1" ∷ []) ("t1" ∷ []) (score ∷ []))
resolve_references-AreResolved_example =
    resolve_references-AreResolved indexed unknown ("t1" ∷ []) ("t1" ∷ []) (score ∷ []) refl
