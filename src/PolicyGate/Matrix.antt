-- ===== src/PolicyGate/Matrix.antt =====
-- services/policy_gate/policy_matrix.py: the decision matrix.
use Prim.Native.String.{◌++◌}
use apartment_finder.Prelude.{
  String, List, [], ◌∷◌, Bool, false, not, ◌||◌, if◌then◌else◌, or_else, ◌==◌, string_eq,
}
use apartment_finder.Prelude.Dict.{Dict, get}
use apartment_finder.Common.Enums.{
  PolicyStatus, crawl_allowed, partner_required, manual_only, unknown, TaskType, search_task,
  map_task, crawl_task, scrape_task, import_task, status_eq, task_eq,
}

abbrev pub all_tasks : List TaskType
all_tasks = search_task ∷ map_task ∷ crawl_task ∷ scrape_task ∷ import_task ∷ []

pub record PolicyDecision : Type 0 where
  pub decision : PolicyStatus
  pub allowed_operations : List TaskType
  pub reason : String

abbrev pub rules : Dict PolicyStatus (List TaskType)
rules =
    (crawl_allowed, all_tasks)
    ∷ (manual_only, import_task ∷ [])
    ∷ (partner_required, [])
    ∷ (unknown, [])
    ∷ []

unfoldable pub operations_for : PolicyStatus → List TaskType
unfolding get
operations_for status = or_else (get rules status) []

-- `task_type in allowed`
abbrev pub permits : TaskType → List TaskType → Bool
permits t [] = false
permits t (x ∷ xs) = x == t || permits t xs

abbrev pub base_reason : PolicyStatus → String
base_reason status =
    if status == crawl_allowed
    then "crawl_allowed: automation permitted"
    else if status == manual_only
    then "manual_only: ImportTask only"
    else if status == partner_required
    then "partner_required: automation blocked until review"
    else "unknown: automation blocked until review"

-- How a task type prints inside a text differs between versions of Python.
module _ (show_task : TaskType → String) where
  unfoldable pub evaluate : PolicyStatus → TaskType → String → PolicyDecision
  unfolding operations_for
  evaluate status task_type requested_operation =
      let allowed = operations_for status in
      let denied =
        if permits task_type allowed
        then base_reason status
        else (base_reason status ++ "; requested " ++ show_task task_type ++ " denied") in
      record {
        decision = status;
        allowed_operations = allowed;
        reason =
            if not (requested_operation == "automated_fetch")
            then denied ++ "; requested_operation=" ++ requested_operation
            else denied;
      }
