-- ===== src/Acquisition/Policy.antt =====
-- `_policy_decision` of services/acquisition/scheduler.py and worker.py: the two are the same.
use apartment_finder.Prelude.{String, Bool, Option, ◌≡◌, refl, string_eq}
use apartment_finder.Prelude.Result.{Result, ok, err}
use apartment_finder.Common.Enums.{TaskType}
use apartment_finder.PolicyGate.Matrix.{permits, operations_for}
use apartment_finder.PolicyGate.Repository.{PolicyRepository, get_policy}
use apartment_finder.PolicyGate.Service as Gate
use apartment_finder.PolicyGate.Service.{
  PolicyEvaluateRequest, PolicyDecisionData, GateError, value_error, status_of, id_of,
}
use apartment_finder.Acquisition.Models as Models
use apartment_finder.Acquisition.Models.{TaskSpec, Exn}
use apartment_finder.Acquisition.System.{System, Exec, pure, raise, gets, ◌>>=◌}

-- Allowed, the policy's id, the reason.
abbrev pub Decision : Type 0
Decision = Bool × Option String × String

abbrev pub decided : TaskSpec → Result GateError PolicyDecisionData → Exec Decision
decided task (ok d) = pure (permits task.task_type d.allowed_operations, d.policy_id, d.reason)
decided task (err (value_error m)) = raise (Models.value_error m)

abbrev pub gate_request : TaskSpec → PolicyEvaluateRequest
gate_request task = record {
  schema_version = "v1";
  source_id = task.source_id;
  domain = task.domain;
  task_type = task.task_type;
  requested_operation = "automated_fetch";
}

module _ (show_task : TaskType → String) where
  unfoldable pub policy_decision : TaskSpec → Exec Decision
  policy_decision task = do
    answer ← gets (λ s. Gate.evaluate show_task s.policies (gate_request task))
    decided task answer

  abbrev pub is_permitted : TaskSpec → PolicyRepository → Bool
  is_permitted task policies =
      permits task.task_type (operations_for (status_of (get_policy policies task.source_id)))

  abbrev pub decision_of : TaskSpec → PolicyRepository → Decision
  decision_of task policies = (
    is_permitted task policies,
    id_of (get_policy policies task.source_id),
    reason_of (Gate.evaluate show_task policies (gate_request task)),
  )
    where
      reason_of : Result GateError PolicyDecisionData → String
      reason_of (ok d) = d.reason
      reason_of (err e) = ""

  -- The gate is always asked in its own version, so that the decision never raises.
  pub policy_decision_lem :
      (task : TaskSpec) (s : System)
      → policy_decision task s ≡ (ok (decision_of task s.policies), s)
  unfolding policy_decision Gate.evaluate
  policy_decision_lem task s = refl
