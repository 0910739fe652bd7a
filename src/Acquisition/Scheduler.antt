-- ===== src/Acquisition/Scheduler.antt =====
-- services/acquisition/scheduler.py: a task is queued only past the payload checks and the gate.
pub mod Admission
use apartment_finder.Prelude.{
  ℕ, ◌+◌, max, String, Bool, true, false, Option, none, some, List, [], ◌∷◌, ◌++◌, if◌then◌else◌,
  string_eq,
}
use apartment_finder.Prelude.Order.{sort_by, text_order}
use apartment_finder.Prelude.Dict.{Dict, get}
use apartment_finder.Prelude.Result.{Result, ok, err}
use apartment_finder.Common.Enums.{TaskType, task_value}
use apartment_finder.Common.Json.{Json, text, optional_text, or_null}
use apartment_finder.Common.Text.{text_or}
use apartment_finder.Acquisition.Models.{
  TaskSpec, TaskStatus, queued, denied, Exn, queue_payload_error, task_validation_error,
}
use apartment_finder.Acquisition.RateLimiter.{next_available_time}
use apartment_finder.Acquisition.System.{
  System, Exec, pure, raise, on_limiter, add_task, enqueue_task, Stamp, log, ◌>>=◌, ◌>>◌,
}
use apartment_finder.Acquisition.Validation.{validate_queue_payload}
use apartment_finder.Acquisition.Policy.{policy_decision}

-- `show_task` and `show_names` print a task type and a set of names, `parse_task` is pydantic's
-- validation of the raw payload, `clock` gives the limiter's reading.
module _ (show_task : TaskType → String) (show_names : List String → String)
    (parse_task : Dict String Json → Result String TaskSpec) (stamps : ℕ → Stamp) where
  unfoldable pub deny_task : TaskSpec → String → Option String → String → Exec (Unit {0})
  unfolding log
  deny_task task reason policy_id error_class = do
    let refused = record task { status = denied }
    add_task refused
    log stamps (text task.task_id) (optional_text policy_id) "denied"
        (("reason", text reason) ∷ ("task_type", text (task_value task.task_type)) ∷ [])
        task.attempt (some error_class) (text task.source_id) (text task.domain)

  -- From the answer of the gate on.
  unfoldable pub submit_decided :
      ℕ → TaskSpec → Bool × Option String × String → Exec (Option TaskSpec)
  unfolding deny_task
  submit_decided now task (false, policy_id, reason) = do
    let tagged = record task { policy_id = text_or policy_id task.policy_id }
    deny_task tagged reason policy_id "PolicyDenied"
    pure none
  submit_decided now task (true, policy_id, reason) = do
    available ← on_limiter task.domain (λ policy. next_available_time policy now)
    let time = max task.scheduled_at available
    let accepted = record task {
      policy_id = text_or policy_id task.policy_id;
      scheduled_at = time;
      status = queued;
    }
    add_task accepted
    enqueue_task accepted time
    pure (some accepted)

  -- `try: validate_queue_payload(task)`
  unfoldable pub submit_validated : ℕ → TaskSpec → Result Exn (Unit {0}) → Exec (Option TaskSpec)
  unfolding submit_decided policy_decision
  submit_validated now task (ok done) = do
    decision ← policy_decision show_task task
    submit_decided now task decision
  submit_validated now task (err (queue_payload_error message)) = do
    deny_task task message (some task.policy_id) "QueuePayloadError"
    pure none
  submit_validated now task (err e) = raise e

  unfoldable pub submit_task : ℕ → TaskSpec → Exec (Option TaskSpec)
  unfolding submit_validated
  submit_task now task = submit_validated now task (validate_queue_payload show_names task)

  -- The task that a raw payload stands for, or an entry of the audit log.
  unfoldable pub submit_parsed :
      ℕ → Dict String Json → Result String TaskSpec → Exec (Option TaskSpec)
  submit_parsed now payload (ok task) = submit_task now task
  submit_parsed now payload (err detail) = do
    log stamps (or_unknown (get payload "task_id")) (or_null (get payload "policy_id")) "denied"
        (("reason", text "schema_validation") ∷ ("detail", text detail) ∷ []) 0
        (some "TaskValidationError") (or_null (get payload "source_id"))
        (or_null (get payload "domain"))
    pure none
    where
      or_unknown : Option Json → Json
      or_unknown none = text "unknown"
      or_unknown (some j) = j

  unfoldable pub submit_raw : ℕ → Dict String Json → Exec (Option TaskSpec)
  unfolding submit_parsed
  submit_raw now payload = submit_parsed now payload (parse_task payload)

  abbrev pub collect : Option TaskSpec → List TaskSpec → List TaskSpec
  collect none tasks = tasks
  collect (some task) tasks = task ∷ tasks

  -- The submissions in order; the readings of the clock are given one for each task.
  unfoldable pub submit_ordered : (ℕ → ℕ) → ℕ → List TaskSpec → Exec (List TaskSpec)
  submit_ordered clock n [] = pure []
  submit_ordered clock n (task ∷ tasks) = do
    submitted ← submit_task (clock n) task
    rest ← submit_ordered clock (n + 1) tasks
    pure (collect submitted rest)

  unfoldable pub submit_tasks : (ℕ → ℕ) → List TaskSpec → Exec (List TaskSpec)
  unfolding submit_ordered
  submit_tasks clock tasks = submit_ordered clock 0 (sort_by (λ task. task.task_id) tasks)
