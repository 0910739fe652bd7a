-- ===== src/PolicyGate/Tasks.antt =====
-- services/policy_gate/tasks.py: the task that a decision admits.
use apartment_finder.Prelude.{String, Option, if◌then◌else◌, ◌==◌}
use apartment_finder.Prelude.Result.{Result, ok, err}
use apartment_finder.Common.Enums.{TaskType, manual_only, import_task, status_eq, task_eq}
use apartment_finder.PolicyGate.Matrix.{PolicyDecision, permits}
use apartment_finder.PolicyGate.Service.{GateError, value_error}

pub record TaskRecord : Type 0 where
  pub task_id : String
  pub task_type : TaskType
  pub source_id : String
  pub policy_id : Option String

-- `fresh` is what `str(uuid4())` returns.
unfoldable pub route_task :
    String → PolicyDecision → TaskType → String → Option String → Result GateError TaskRecord
route_task fresh decision requested_task source_id policy_id =
    if decision.decision == manual_only
    then ok (routed import_task)
    else if permits requested_task decision.allowed_operations
    then ok (routed requested_task)
    else err (value_error "Automation denied by policy")
  where
    routed : TaskType → TaskRecord
    routed task_type = record {
      task_id = fresh;
      task_type = task_type;
      source_id = source_id;
      policy_id = policy_id;
    }
