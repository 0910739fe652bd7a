-- ===== src/Acquisition/Scheduler/Admission.antt =====
-- What a submission does: it is accepted into the queue, or denied and put on record.
use apartment_finder.Prelude.{
  ℕ, ◌≤◌, ◌≡◌, ◌≢◌, ◌⊎◌, String, true, false, Option, none, some, List, [], ◌∷◌, ◌++◌, string_eq,
}
use apartment_finder.Prelude.Dict.{Dict}
use apartment_finder.Prelude.Result.{Result, ok, err}
use apartment_finder.Common.Enums.{TaskType}
use apartment_finder.Common.Json.{Json, text}
use apartment_finder.Acquisition.Models.{
  TaskSpec, queued, denied, AuditLogRecord, Exn, queue_payload_error,
}
use apartment_finder.Acquisition.Queue as Queue
use apartment_finder.PolicyGate.Service as Gate
use apartment_finder.Acquisition.Repository.{get_task}
use apartment_finder.Acquisition.System.{System, Stamp}
use apartment_finder.Acquisition.Validation.{validate_queue_payload}
use apartment_finder.Acquisition.Policy.{is_permitted}

-- A payload check passes, or raises a QueuePayloadError.
abbrev pub Checked : Result Exn (Unit {0}) → Type 0
Checked r = (r ≡ ok tt) ⊎ ((m : String) × (r ≡ err (queue_payload_error m)))

module _ (show_task : TaskType → String) (show_names : List String → String)
    (parse_task : Dict String Json → Result String TaskSpec) (stamps : ℕ → Stamp) where
  -- The task goes into the repository and the queue, no sooner than it asked for and than the
  -- limiter has an opening; nothing is written to the audit log.
  pub record Accepted (now : ℕ) (task : TaskSpec) (s : System)
      (r : Result Exn (Option TaskSpec) × System) : Type 0 where
    pub accepted : TaskSpec
    pub returned : r.0 ≡ ok (some accepted)
    pub valid : validate_queue_payload show_names task ≡ ok tt
    pub permitted : is_permitted show_task task s.policies ≡ true
    pub status : accepted.status ≡ queued
    pub stored : get_task r.1.repository task.task_id ≡ some accepted
    pub not_before : task.scheduled_at ≤ accepted.scheduled_at
    pub not_limited : now ≤ accepted.scheduled_at
    pub enqueued : r.1.queue ≡ (Queue.enqueue accepted accepted.scheduled_at s.queue).1
    pub unaudited : r.1.audit ≡ s.audit

  -- The task is stored as denied and put on record once; the queue and the limiter stay as they
  -- were.
  pub record Denied (task : TaskSpec) (s : System) (r : Result Exn (Option TaskSpec) × System)
      : Type 0 where
    pub refused : TaskSpec
    pub entry : AuditLogRecord
    pub returned : r.0 ≡ ok none
    pub cause :
        (validate_queue_payload show_names task ≢ ok tt)
        ⊎ (is_permitted show_task task s.policies ≡ false)
    pub status : refused.status ≡ denied
    pub stored : get_task r.1.repository task.task_id ≡ some refused
    pub unqueued : r.1.queue ≡ s.queue
    pub unlimited : r.1.limiter ≡ s.limiter
    pub audited : r.1.audit ≡ s.audit ++ entry ∷ []
    pub outcome : entry.outcome ≡ "denied"
    pub about : entry.task_id ≡ text task.task_id
