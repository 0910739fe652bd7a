-- ===== src/PolicyGate/Service.antt =====
-- services/policy_gate/service.py and models.py: a decision about one request.
use apartment_finder.Prelude.{String, List, Option, none, some, not, ◌==◌, string_eq}
use apartment_finder.Prelude.Result.{Result, ok, raise_if, ◌>>◌}
use apartment_finder.Common.Enums.{PolicyStatus, unknown, TaskType}
use apartment_finder.PolicyGate.Matrix as Matrix
use apartment_finder.PolicyGate.Repository.{PolicyRepository, SourcePolicyRecord, get_policy}

pub record PolicyEvaluateRequest : Type 0 where
  pub schema_version : String
  pub source_id : String
  pub domain : String
  pub task_type : TaskType
  pub requested_operation : String

pub record PolicyDecisionData : Type 0 where
  pub decision : PolicyStatus
  pub allowed_operations : List TaskType
  pub reason : String
  pub policy_id : Option String

pub data GateError : Type 0 where
  value_error : String → GateError

-- `policy.policy_status if policy else PolicyStatus.unknown`
abbrev pub status_of : Option SourcePolicyRecord → PolicyStatus
status_of none = unknown
status_of (some policy) = policy.policy_status

abbrev pub id_of : Option SourcePolicyRecord → Option String
id_of none = none
id_of (some policy) = some policy.policy_id

module _ (show_task : TaskType → String) where
  unfoldable pub evaluate :
      PolicyRepository → PolicyEvaluateRequest → Result GateError PolicyDecisionData
  unfolding Matrix.evaluate get_policy
  evaluate policies request = do
    raise_if (not (request.schema_version == "v1")) (value_error "schema_version must be v1")
    let policy = get_policy policies request.source_id
    let decision =
        Matrix.evaluate show_task (status_of policy) request.task_type request.requested_operation
    ok (record {
      decision = decision.decision;
      allowed_operations = decision.allowed_operations;
      reason = decision.reason;
      policy_id = id_of policy;
    })
