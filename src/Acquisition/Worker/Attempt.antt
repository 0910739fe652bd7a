-- ===== src/Acquisition/Worker/Attempt.antt =====
-- What a permitted task's attempt leaves behind, for each way in which the handler ends.
use apartment_finder.Acquisition.RateLimiter.Domains.{state_for-on_domain}
use apartment_finder.Prelude.{
  ◌-◌, Bool, ℕ, ◌≡◌, refl, ◌≢◌, ◌⊎◌, inr, String, true, false, Option, none, some, [], ◌∷◌, ◌++◌,
  arith, ltb, if◌then◌else◌, string_eq,
}
use apartment_finder.Prelude.Result.{Result, ok}
use apartment_finder.Common.Enums.{TaskType}
use apartment_finder.Acquisition.Models.{
  TaskSpec, TaskStatus, queued, succeeded, failed, AuditLogRecord, Exn,
}
use apartment_finder.Acquisition.Queue as Queue
use apartment_finder.Acquisition.Queue.{QueueItem}
use apartment_finder.Acquisition.RateLimiter.{
  RateLimiter, DomainState, on_domain, release, state_for,
}
use apartment_finder.Acquisition.Repository.{transition}
use apartment_finder.Acquisition.System.{System, Stamp}
use apartment_finder.Acquisition.Worker.{
  Outcome, done, adapter_invalid, upstream_limited, transient, other, quietly, conclude,
  plain_params, failure_params,
}
use apartment_finder.Acquisition.Worker.Steps.{
  marked, marked-Holds, Holds, update_status_held, log_outcome_held, entry_of,
}

-- The status in which an attempt leaves its task.
abbrev pub retried : ℕ → ℕ → TaskStatus
retried attempt limit = if ltb attempt limit then queued else failed

abbrev pub final_status : Outcome → ℕ → ℕ → TaskStatus
final_status done attempt limit = succeeded
final_status (adapter_invalid m) attempt limit = failed
final_status (upstream_limited m) attempt limit = retried attempt limit
final_status (transient m) attempt limit = retried attempt limit
final_status (other c m) attempt limit = failed

abbrev pub outcome_text : Outcome → String
outcome_text done = "succeeded"
outcome_text _ = "failed"

-- The state with a method run on the limiter.
abbrev pub limited : String → (DomainState → DomainState) → System → System
limited domain method s = record s { limiter = (on_domain domain (quietly method) s.limiter).1 }

module _ (show_task : TaskType → String) (handler : TaskSpec → Outcome) (stamps : ℕ → Stamp) where
  -- From the handler's return on: the task's new status, the one change of status that is logged,
  -- the one audit record, and the queue, which changes only if the task is tried again.
  pub record Concluded (task : TaskSpec) (result : Outcome) (now : ℕ) (s : System)
      (r : Result Exn (Unit {0}) × System) : Type 0 where
    pub left : TaskSpec
    pub entry : AuditLogRecord
    pub returned : r.0 ≡ ok tt
    pub stored : Holds task.task_id left r.1
    pub status : left.status ≡ final_status result task.attempt task.max_attempts
    pub attempt : left.attempt ≡ task.attempt
    pub logged :
        r.1.repository.transitions
        ≡ s.repository.transitions
          ++ transition task task.task_id (final_status result task.attempt task.max_attempts) now
            ∷ []
    pub audited : r.1.audit ≡ s.audit ++ entry ∷ []
    pub outcome : entry.outcome ≡ outcome_text result
    pub queue :
        ((left.status ≡ queued) × (r.1.queue ≡ (Queue.enqueue left left.scheduled_at s.queue).1))
        ⊎ ((left.status ≢ queued) × (r.1.queue ≡ s.queue))
    pub handled : r.1.handled ≡ s.handled
    pub slots :
        (state_for r.1.limiter task.domain).inflight
        ≡ (state_for s.limiter task.domain).inflight - 1

  -- One record on the audit log.
  abbrev pub recorded : AuditLogRecord → System → System
  recorded entry s = record s { audit = s.audit ++ entry ∷ [] }

  -- An attempt that ends for good.
  pub settled :
      (task : TaskSpec) (result : Outcome) (now : ℕ) (s : System) (l : RateLimiter)
      (entry : AuditLogRecord) (r : Result Exn (Unit {0}) × System)
      → entry.outcome ≡ outcome_text result
      → (state_for l task.domain).inflight ≡ (state_for s.limiter task.domain).inflight - 1
      → final_status result task.attempt task.max_attempts ≢ queued
      → r ≡ (
        ok tt,
        recorded entry (
            marked task.task_id task
              (final_status result task.attempt task.max_attempts)
              now
              (record s { limiter = l })),
      )
      → Concluded task result now s r
  settled task result now s l entry r outcome slots final e = rw e (record {
    left = record task { status = final_status result task.attempt task.max_attempts };
    entry = entry;
    returned = refl;
    stored =
        marked-Holds task.task_id task (final_status result task.attempt task.max_attempts) now s;
    status = refl;
    attempt = refl;
    logged = refl;
    audited = refl;
    outcome = outcome;
    queue = inr (final, refl);
    handled = refl;
    slots = slots;
  })

  -- A release gives one slot back.
  pub inflight-limited :
      (domain : String) (success : Bool) (s : System)
      → (state_for (limited domain (release success) s).limiter domain).inflight
        ≡ (state_for s.limiter domain).inflight - 1
  unfolding release
  inflight-limited domain success s = rw state_for-on_domain (ground arith)

  module _ (clock : ℕ → ℕ) (task : TaskSpec) (policy_id : Option String) (s : System)
      (held : Holds task.task_id task s) where
    abbrev entry_in : TaskStatus → String → Option String → String → System → AuditLogRecord
    entry_in st outcome error_class reason s' =
        entry_of show_task handler stamps (record task { status = st }) s' outcome policy_id
          error_class (failure_params show_task handler stamps reason task)

    pub conclude_done :
        Concluded task done
          (clock 5)
          s
          (conclude show_task handler stamps clock task policy_id task.attempt done s)
    unfolding conclude
    conclude_done =
        let s1 = limited task.domain (release true) s in
        let s2 = marked task.task_id task succeeded (clock 5) s1 in
        let left = record task { status = succeeded } in
        let params = plain_params show_task handler stamps task in
        let entry = entry_of show_task handler stamps left s2 "succeeded" policy_id none params in
        settled task done (clock 5) s s1.limiter entry _ refl (inflight-limited task.domain true s)
          (λ e. cc)
          (ground (
            arith,
            update_status_held task.task_id task succeeded (clock 5) s1 held,
            log_outcome_held show_task handler stamps task.task_id left s2 "succeeded" policy_id
                none params (marked-Holds task.task_id task succeeded (clock 5) s1),
          ))

    pub conclude_adapter_invalid :
        (m : String)
        → Concluded task (adapter_invalid m) (clock 5) s (
            conclude show_task handler stamps clock task policy_id task.attempt
              (adapter_invalid m)
              s)
    unfolding conclude
    conclude_adapter_invalid m =
        let s1 = marked task.task_id task failed (clock 5) s in
        let s2 = limited task.domain (release false) s1 in
        let left = record task { status = failed } in
        let params = failure_params show_task handler stamps m task in
        let class : Option String = some "AdapterValidationError" in
        let entry = entry_of show_task handler stamps left s2 "failed" policy_id class params in
        settled task (adapter_invalid m) (clock 5) s s2.limiter entry _ refl
          (inflight-limited task.domain false s) (λ e. cc)
          (ground (
            arith,
            update_status_held task.task_id task failed (clock 5) s held,
            log_outcome_held show_task handler stamps task.task_id left s2 "failed" policy_id class
                params (marked-Holds task.task_id task failed (clock 5) s),
          ))

    pub conclude_other :
        (c m : String)
        → Concluded task
            (other c m)
            (clock 5)
            s
            (conclude show_task handler stamps clock task policy_id task.attempt (other c m) s)
    unfolding conclude
    conclude_other c m =
        let s1 = limited task.domain (release false) s in
        let s2 = marked task.task_id task failed (clock 5) s1 in
        let left = record task { status = failed } in
        let params = failure_params show_task handler stamps m task in
        let entry = entry_of show_task handler stamps left s2 "failed" policy_id (some c) params in
        settled task (other c m) (clock 5) s s1.limiter entry _ refl
          (inflight-limited task.domain false s) (λ e. cc)
          (ground (
            arith,
            update_status_held task.task_id task failed (clock 5) s1 held,
            log_outcome_held show_task handler stamps task.task_id left s2 "failed" policy_id
                (some c) params (marked-Holds task.task_id task failed (clock 5) s1),
          ))
