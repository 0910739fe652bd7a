-- ===== src/PolicyGate/Safety.antt =====
-- What the gate guarantees of services/policy_gate/service.py and tasks.py, in terms of the
-- registered policies alone.
use apartment_finder.Prelude.{
  String, ◌≡◌, refl, sym, ◌≢◌, inl, inr, Option, some, true, arith, eq_iff, string_eq, Option-cases,
}
use apartment_finder.Prelude.Dict.{get-put}
use apartment_finder.Prelude.Result.{Result, ok, err}
use apartment_finder.Common.Enums.{
  PolicyStatus, crawl_allowed, manual_only, partner_required, unknown, TaskType, search_task,
  import_task,
}
use apartment_finder.PolicyGate.Matrix as Matrix
use apartment_finder.PolicyGate.Matrix.{permits, operations_for}
use apartment_finder.PolicyGate.Repository.{
  PolicyRepository, SourcePolicyRecord, get_policy, upsert_policy,
}
use apartment_finder.PolicyGate.Service.{
  PolicyEvaluateRequest, PolicyDecisionData, GateError, value_error, status_of, id_of, evaluate,
}
use apartment_finder.PolicyGate.Tasks.{TaskRecord, route_task}

-- Only a policy that allows crawling permits an automated task.
pub permits-operations_for :
    (status : PolicyStatus) (t : TaskType)
    → t ≢ import_task
    → permits t (operations_for status) ≡ true
    → status ≡ crawl_allowed
unfolding operations_for
permits-operations_for crawl_allowed t h e = ground arith
permits-operations_for manual_only t h e = ground arith
permits-operations_for partner_required t h e = ground arith
permits-operations_for unknown t h e = ground arith

pub permits_crawl_allowed : (t : TaskType) → permits t (operations_for crawl_allowed) ≡ true
unfolding operations_for
permits_crawl_allowed search_task = ground arith
permits_crawl_allowed _ = ground arith

-- The task that is handed out.
abbrev pub routed_as : String → String → Option String → TaskType → Result GateError TaskRecord
routed_as fresh source_id policy_id t =
    ok (record { task_id = fresh; task_type = t; source_id = source_id; policy_id = policy_id })

module _ (show_task : TaskType → String) where
  -- What an accepted request is answered with.
  pub evaluate_ok :
      (policies : PolicyRepository) (request : PolicyEvaluateRequest) {d : PolicyDecisionData}
      → evaluate show_task policies request ≡ ok d
      → (d.allowed_operations ≡ operations_for (status_of (get_policy policies request.source_id)))
        × (d.policy_id ≡ id_of (get_policy policies request.source_id))
        × (d.decision ≡ status_of (get_policy policies request.source_id))
        × (request.schema_version ≡ "v1")
  unfolding evaluate
  evaluate_ok policies request h = ground (arith, eq_iff request.schema_version "v1")

  -- If an accepted request is answered with a list that permits an automated task type, the source
  -- has a registered policy with status crawl_allowed, and the answer carries that policy's id.
  pub evaluate_automation :
      (policies : PolicyRepository) (request : PolicyEvaluateRequest) {d : PolicyDecisionData}
      (t : TaskType)
      → t ≢ import_task
      → evaluate show_task policies request ≡ ok d
      → permits t d.allowed_operations ≡ true
      → (policy : SourcePolicyRecord) × (get_policy policies request.source_id ≡ some policy)
        × (policy.policy_status ≡ crawl_allowed)
        × (d.policy_id ≡ some policy.policy_id)
  evaluate_automation policies request t automated e p =
      let facts = evaluate_ok policies request e in
      elim (Option-cases (get_policy policies request.source_id)) [
        | inl missing ↦
            absurd (ground (arith, facts, missing, permits-operations_for unknown t automated))
        | inr (policy, found) ↦ (
          policy,
          found,
          ground (arith, facts, found, permits-operations_for policy.policy_status t automated),
          ground (arith, facts, found),
        )
      ]

  -- After a policy is registered for a source, a v1 request about that source is accepted, decided
  -- by the new status and tagged with the new policy's id.
  pub evaluate-upsert_policy :
      (fresh source_id : String) (status : PolicyStatus) (policy_id : Option String)
      (policies : PolicyRepository) (request : PolicyEvaluateRequest)
      → request.source_id ≡ source_id
      → request.schema_version ≡ "v1"
      → (d : PolicyDecisionData) × (evaluate show_task
            (upsert_policy fresh source_id status policy_id policies).1
            request
          ≡ ok d)
        × (d.decision ≡ status)
        × (d.allowed_operations ≡ operations_for status)
        × (d.policy_id ≡ some (upsert_policy fresh source_id status policy_id policies).0.policy_id)
  unfolding evaluate upsert_policy get_policy
  evaluate-upsert_policy fresh source_id status policy_id policies request same v1 =
      let new = (upsert_policy fresh source_id status policy_id policies).0 in
      let found = get-put policies source_id request.source_id new in
      let self = (eq_iff source_id request.source_id).1 (sym same) in
      let version = (eq_iff request.schema_version "v1").1 v1 in
      (
        record {
          decision = status;
          allowed_operations = operations_for status;
          reason =
              (Matrix.evaluate show_task status request.task_type
                request.requested_operation).reason;
          policy_id = some new.policy_id;
        },
        rw (version, found, self),
        refl,
        refl,
        refl,
      )

  -- A request about another source is answered as before.
  pub evaluate-upsert_policy_ne :
      (fresh source_id : String) (status : PolicyStatus) (policy_id : Option String)
      (policies : PolicyRepository) (request : PolicyEvaluateRequest)
      → request.source_id ≢ source_id
      → evaluate show_task (upsert_policy fresh source_id status policy_id policies).1 request
        ≡ evaluate show_task policies request
  unfolding evaluate upsert_policy get_policy
  evaluate-upsert_policy_ne fresh source_id status policy_id policies request other =
      let new = (upsert_policy fresh source_id status policy_id policies).0 in
      ground (
        arith,
        get-put policies source_id request.source_id new,
        eq_iff source_id request.source_id,
      )

  -- Under the matrix's decision for a status, routing a task yields the requested task if the
  -- status is crawl_allowed, an ImportTask whatever was requested if it is manual_only, and is
  -- refused under any other status.
  pub route_task-evaluate :
      (fresh source_id operation : String) (policy_id : Option String) (status : PolicyStatus)
      (asked requested : TaskType)
      → let routed = λ (t : TaskType). routed_as fresh source_id policy_id t in
        route_task fresh
          (Matrix.evaluate show_task status asked operation)
          requested
          source_id
          policy_id
        ≡ (elim status [
          | crawl_allowed ↦ routed requested
          | manual_only ↦ routed import_task
          | partner_required ↦ err (value_error "Automation denied by policy")
          | unknown ↦ err (value_error "Automation denied by policy")
        ])
  unfolding route_task Matrix.evaluate
  route_task-evaluate fresh source_id operation policy_id crawl_allowed asked requested =
      ground (arith, permits_crawl_allowed requested)
  route_task-evaluate fresh source_id operation policy_id manual_only asked requested = ground arith
  route_task-evaluate fresh source_id operation policy_id _ asked requested = ground arith
