-- ===== src/Acquisition/Worker/Denial.antt =====
-- A task whose source is not permitted never reaches the handler.
use apartment_finder.PolicyGate.Safety.{permits-operations_for}
use apartment_finder.Prelude.{
  inl, inr, Bool-cases, ◌≢◌, ℕ, arith, ◌≡◌, refl, String, false, Option, some, [], ◌∷◌, ◌++◌,
  string_eq, length,
}
use apartment_finder.Common.Enums.{crawl_allowed, import_task, TaskType}
use apartment_finder.PolicyGate.Service.{status_of}
use apartment_finder.Prelude.Dict.{put, get-put_self}
use apartment_finder.Prelude.Result.{Result, ok}
use apartment_finder.Common.Json.{text, optional_text}
use apartment_finder.Common.Text.{text_or}
use apartment_finder.PolicyGate.Repository.{get_policy}
use apartment_finder.PolicyGate.Service as Gate
use apartment_finder.Acquisition.Models.{Exn, TaskSpec, denied, AuditLogRecord}
use apartment_finder.Acquisition.Repository.{get_task, transition, update_status}
use apartment_finder.Acquisition.Repository as Repository
use apartment_finder.Acquisition.System.{System, Stamp, new_entry}
use apartment_finder.Acquisition.Policy.{is_permitted, decision_of}
use apartment_finder.Acquisition.Worker.Steps.{
  with_task, with_task-Holds, marked, marked-Holds, update_status_held, log_outcome_held,
}
use apartment_finder.Acquisition.Worker.{Outcome, process_task, process_decided, plain_params}

module _ (show_task : TaskType → String) (handler : TaskSpec → Outcome) (stamps : ℕ → Stamp) where
  pub process_task_found :
      (clock : ℕ → ℕ) (task : TaskSpec) (s : System)
      → get_task s.repository task.task_id ≡ some task
      → process_task show_task handler stamps clock task.task_id s
        ≡ process_decided show_task handler stamps clock task
            (decision_of show_task task s.policies)
            s
  unfolding process_task Gate.evaluate
  process_task_found clock task s found = rw found refl

  -- The task is marked denied, its change of status is logged, one record is written to the audit
  -- log, and the queue, the limiter and the handler are left alone.
  pub record DeniedRun (task : TaskSpec) (now : ℕ) (s : System) (r : Result Exn (Unit {0}) × System)
      : Type 0 where
    pub refused : TaskSpec
    pub entry : AuditLogRecord
    pub returned : r.0 ≡ ok tt
    pub stored : get_task r.1.repository task.task_id ≡ some refused
    pub status : refused.status ≡ denied
    pub attempt : refused.attempt ≡ task.attempt
    pub logged :
        r.1.repository.transitions
        ≡ s.repository.transitions ++ transition task task.task_id denied now ∷ []
    pub audited : r.1.audit ≡ s.audit ++ entry ∷ []
    pub outcome : entry.outcome ≡ "denied"
    pub about : entry.task_id ≡ text task.task_id
    pub queue : r.1.queue ≡ s.queue
    pub limiter : r.1.limiter ≡ s.limiter
    pub handled : r.1.handled ≡ s.handled

  process_decided_denied :
      (clock : ℕ → ℕ) (task : TaskSpec) (s : System) (policy_id : Option String) (reason : String)
      → let tagged = record task { policy_id = text_or policy_id task.policy_id } in
        let refused = record tagged { status = denied } in
        process_decided show_task handler stamps clock task (false, policy_id, reason) s ≡ (
          ok tt,
          record s {
            repository = record {
              tasks = put (put s.repository.tasks task.task_id tagged) task.task_id refused;
              transitions =
                  s.repository.transitions ++ transition task task.task_id denied (clock 0) ∷ [];
            };
            audit =
                s.audit
                ++ new_entry
                    (stamps (length s.audit))
                    (text task.task_id)
                    (optional_text policy_id)
                    "denied"
                    (plain_params show_task handler stamps task)
                    task.attempt
                    (some "PolicyDenied")
                    (text task.source_id)
                    (text task.domain)
                  ∷ [];
          },
        )
  unfolding process_decided Repository.add
  process_decided_denied clock task s policy_id reason =
      let tagged = record task { policy_id = text_or policy_id task.policy_id } in
      let refused = record tagged { status = denied } in
      let tagged_state = with_task task.task_id tagged s in
      let marked_state = marked task.task_id tagged denied (clock 0) tagged_state in
      ground (
        arith,
        update_status_held task.task_id tagged denied (clock 0) tagged_state
            (with_task-Holds task.task_id tagged s),
        log_outcome_held show_task handler stamps task.task_id refused marked_state "denied"
            policy_id (some "PolicyDenied") (plain_params show_task handler stamps task)
            (marked-Holds task.task_id tagged denied (clock 0) tagged_state),
      )

  pub process_task_denied :
      (clock : ℕ → ℕ) (task : TaskSpec) (s : System)
      → get_task s.repository task.task_id ≡ some task
      → is_permitted show_task task s.policies ≡ false
      → DeniedRun task (clock 0) s (process_task show_task handler stamps clock task.task_id s)
  unfolding process_decided get_task Repository.add
  process_task_denied clock task s found forbidden =
      rw (process_task_found clock task s found, forbidden)
        (rw
          (process_decided_denied clock task s (Gate.id_of (get_policy s.policies task.source_id))
            _)
          (record {
            refused = _;
            entry = _;
            returned = refl;
            stored = get-put_self _ _ _;
            status = refl;
            attempt = refl;
            logged = refl;
            audited = refl;
            outcome = refl;
            about = refl;
            queue = refl;
            limiter = refl;
            handled = refl;
          }))

  -- Unless the source has a registered policy with status crawl_allowed, a stored task of a type
  -- other than ImportTask is denied when it is processed: it ends as denied with its attempts
  -- unchanged, the change and the denial are each logged once, and the handler is not called.
  pub process_task_compliance :
      (clock : ℕ → ℕ) (task : TaskSpec) (s : System)
      → get_task s.repository task.task_id ≡ some task
      → task.task_type ≢ import_task
      → status_of (get_policy s.policies task.source_id) ≢ crawl_allowed
      → DeniedRun task (clock 0) s (process_task show_task handler stamps clock task.task_id s)
  process_task_compliance clock task s found automated uncrawlable =
      elim (Bool-cases (is_permitted show_task task s.policies)) [
        | inl permitted ↦ absurd (
            uncrawlable (
              permits-operations_for (status_of (get_policy s.policies task.source_id))
                task.task_type automated permitted))
        | inr forbidden ↦ process_task_denied clock task s found forbidden
      ]
