-- ===== src/Acquisition/Worker/Steps.antt =====
-- The worker's steps on a task that the repository holds, each as an equation.
use apartment_finder.Prelude.{
  ℕ, ◌+◌, ◌≡◌, String, Option, some, [], ◌∷◌, ◌++◌, length, arith, string_eq,
}
use apartment_finder.Prelude.Dict.{Dict, put, get-put_self}
use apartment_finder.Prelude.Result.{ok}
use apartment_finder.Common.Enums.{TaskType}
use apartment_finder.Common.Json.{Json, text, optional_text}
use apartment_finder.Acquisition.Models.{TaskSpec, TaskStatus, queued, AuditLogRecord}
use apartment_finder.Acquisition.Queue as Queue
use apartment_finder.Acquisition.Repository.{get_task, transition, update_status, increment_attempt}
use apartment_finder.Acquisition.System.{System, Stamp, new_entry}
use apartment_finder.Acquisition.Worker.{Outcome, enqueue_with_delay, log_outcome}

-- The state with a new version of a task.
abbrev pub with_task : String → TaskSpec → System → System
with_task task_id task s = record s {
  repository = record {
    tasks = put s.repository.tasks task_id task;
    transitions = s.repository.transitions;
  };
}

-- The state with a change of status made and logged.
abbrev pub marked : String → TaskSpec → TaskStatus → ℕ → System → System
marked task_id task status now s = record s {
  repository = record {
    tasks = put s.repository.tasks task_id (record task { status = status });
    transitions = s.repository.transitions ++ transition task task_id status now ∷ [];
  };
}

abbrev pub Holds : String → TaskSpec → System → Type 0
Holds task_id task s = get_task s.repository task_id ≡ some task

pub with_task-Holds :
    (task_id : String) (task : TaskSpec) (s : System)
    → Holds task_id task (with_task task_id task s)
unfolding get_task
with_task-Holds task_id task s = get-put_self s.repository.tasks task_id task

pub marked-Holds :
    (task_id : String) (task : TaskSpec) (status : TaskStatus) (now : ℕ) (s : System)
    → Holds task_id (record task { status = status }) (marked task_id task status now s)
unfolding get_task
marked-Holds task_id task status now s = get-put_self s.repository.tasks task_id _

pub update_status_held :
    (task_id : String) (task : TaskSpec) (status : TaskStatus) (now : ℕ) (s : System)
    → Holds task_id task s
    → update_status task_id status now s.repository
      ≡ (ok tt, (marked task_id task status now s).repository)
unfolding update_status
update_status_held task_id task status now s held = ground arith

pub increment_attempt_held :
    (task_id : String) (task : TaskSpec) (s : System)
    → Holds task_id task s
    → increment_attempt task_id s.repository ≡ (
      ok (task.attempt + 1),
      (with_task task_id (record task { attempt = task.attempt + 1 }) s).repository,
    )
unfolding increment_attempt
increment_attempt_held task_id task s held = ground arith

module _ (show_task : TaskType → String) (handler : TaskSpec → Outcome) (stamps : ℕ → Stamp) where
  abbrev pub entry_of :
      TaskSpec → System → String → Option String → Option String → Dict String Json → AuditLogRecord
  entry_of task s outcome policy_id error_class params =
      new_entry (stamps (length s.audit)) (text task.task_id) (optional_text policy_id) outcome
        params task.attempt error_class (text task.source_id) (text task.domain)

  pub log_outcome_held :
      (task_id : String) (task : TaskSpec) (s : System) (outcome : String)
      (policy_id error_class : Option String) (params : Dict String Json)
      → Holds task_id task s
      → log_outcome show_task handler stamps task_id outcome policy_id error_class params s ≡ (
        ok tt,
        record s { audit = s.audit ++ entry_of task s outcome policy_id error_class params ∷ [] },
      )
  unfolding log_outcome
  log_outcome_held task_id task s outcome policy_id error_class params held = ground arith

  -- The state with the task queued again.
  abbrev pub requeued : TaskSpec → ℕ → ℕ → System → System
  requeued task now time s =
      let later = record task { scheduled_at = time } in
      record (marked task.task_id later queued now (with_task task.task_id later s)) {
        queue = (Queue.enqueue (record later { status = queued }) time s.queue).1;
      }

  pub enqueue_with_delay_held :
      (task : TaskSpec) (now time : ℕ) (s : System)
      → Holds task.task_id task s
      → enqueue_with_delay show_task handler stamps now task.task_id time s
        ≡ (ok tt, requeued task now time s)
  unfolding enqueue_with_delay
  enqueue_with_delay_held task now time s held =
      let later = record task { scheduled_at = time } in
      ground (
        arith,
        get-put_self s.repository.tasks task.task_id later,
        get-put_self (put s.repository.tasks task.task_id later) task.task_id
            (record later { status = queued }),
      )
