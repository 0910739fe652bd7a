-- ===== src/Tests/Gate.antt =====
-- The theorems on services/policy_gate at concrete policies.
use apartment_finder.Prelude.{◌≡◌, refl, some, true}
use apartment_finder.Prelude.Result.{ok}
use apartment_finder.Common.Enums.{crawl_allowed, manual_only, crawl_task, import_task, task_value}
use apartment_finder.PolicyGate.Matrix as Matrix
use apartment_finder.PolicyGate.Matrix.{operations_for}
use apartment_finder.PolicyGate.Repository.{SourcePolicyRecord, upsert_policy, get_policy}
use apartment_finder.PolicyGate.Service.{PolicyEvaluateRequest, PolicyDecisionData, evaluate}
use apartment_finder.PolicyGate.Tasks.{route_task}
use apartment_finder.PolicyGate.Safety.{
  evaluate_automation, evaluate-upsert_policy, route_task-evaluate, routed_as,
}
use apartment_finder.Tests.Data.{policies}

abbrev request : PolicyEvaluateRequest
request = record {
  schema_version = "v1";
  source_id = "zillow";
  domain = "zillow.com";
  task_type = crawl_task;
  requested_operation = "automated_fetch";
}

abbrev answer : PolicyDecisionData
answer = record {
  decision = crawl_allowed;
  allowed_operations = operations_for crawl_allowed;
  reason = "crawl_allowed: automation permitted";
  policy_id = some "p1";
}

answered : evaluate task_value policies request ≡ ok answer
unfolding evaluate
answered = refl

permitted : Matrix.permits crawl_task (operations_for crawl_allowed) ≡ true
unfolding operations_for
permitted = refl

evaluate_automation_example :
    (policy : SourcePolicyRecord) × (get_policy policies "zillow" ≡ some policy)
    × (policy.policy_status ≡ crawl_allowed)
    × (some "p1" ≡ some policy.policy_id)
evaluate_automation_example =
    evaluate_automation task_value policies request {d = answer} crawl_task (λ e. cc) answered
      permitted

evaluate-upsert_policy_example :
    (d : PolicyDecisionData) × (evaluate task_value
        (upsert_policy "new" "zillow" manual_only (some "p3") policies).1
        request
      ≡ ok d)
    × (d.decision ≡ manual_only)
    × (d.allowed_operations ≡ operations_for manual_only)
    × (d.policy_id
        ≡ some (upsert_policy "new" "zillow" manual_only (some "p3") policies).0.policy_id)
evaluate-upsert_policy_example =
    evaluate-upsert_policy task_value "new" "zillow" manual_only (some "p3") policies request refl
      refl

route_task-evaluate_example :
    route_task "n1"
      (Matrix.evaluate task_value manual_only crawl_task "automated_fetch")
      crawl_task
      "craigslist"
      (some "p2")
    ≡ routed_as "n1" "craigslist" (some "p2") import_task
route_task-evaluate_example =
    route_task-evaluate task_value "n1" "craigslist" "automated_fetch" (some "p2") manual_only
      crawl_task crawl_task
