-- ===== src/Acquisition/Worker/Outcomes.antt =====
-- A whole run of a permitted task that is granted a slot.
use apartment_finder.Acquisition.Worker.Retry.{conclude_transient, conclude_upstream_limited}
use apartment_finder.Prelude.{
  ◌-◌, List, Bool-cases, none, true, ◌∙◌, ap, ◌≢◌, ◌⊎◌, inl, inr, refl, ◌*◌, ◌^◌, min, ℕ, ◌+◌, ◌<◌,
  ◌≡◌, String, Option, some, [], ◌∷◌, ◌++◌, arith, if◌then◌else◌, string_eq,
}
use apartment_finder.Acquisition.Repository.{TaskRepository, transition}
use apartment_finder.Prelude.Dict.{put}
use apartment_finder.Acquisition.Worker.Attempt.{
  final_status, outcome_text, Concluded, conclude_done, conclude_adapter_invalid, conclude_other,
}
use apartment_finder.PolicyGate.Repository.{get_policy}
use apartment_finder.Common.Text.{text_or}
use apartment_finder.Prelude.Result.{Result, ok}
use apartment_finder.Acquisition.Models.{queued, AuditLogRecord, Exn, TaskSpec, running}
use apartment_finder.Acquisition.RateLimiter.{
  on_domain, DomainPolicy, DomainState, acquire, register_error, state_for, policy_for,
  next_available_time,
}
use apartment_finder.Acquisition.RateLimiter.Domains.{state_for-on_domain}
use apartment_finder.Acquisition.Policy.{is_permitted}
use apartment_finder.Acquisition.Worker.{
  process_task, process_decided, Outcome, done, adapter_invalid, upstream_limited, transient, other,
  conclude, attempt_task, execute_task,
}
use apartment_finder.Acquisition.Worker.Denial.{process_task_found}
use mathlib.Core.List.{append_assoc}
use apartment_finder.Common.Enums.{TaskType}
use apartment_finder.PolicyGate.Service.{id_of}
use apartment_finder.Acquisition.Queue as Queue
use apartment_finder.Acquisition.Repository as Repository
use apartment_finder.Acquisition.System.{System, Stamp}
use apartment_finder.Acquisition.Validation.{is_firecrawl}
use apartment_finder.Acquisition.Worker.Steps.{
  with_task, with_task-Holds, marked, marked-Holds, Holds, update_status_held,
  increment_attempt_held,
}

-- The reading of the clock at which the last change of status is logged.
abbrev pub concluded_at : (ℕ → ℕ) → Outcome → ℕ
concluded_at clock (upstream_limited m) = clock 6
concluded_at clock (transient m) = clock 6
concluded_at clock _ = clock 5

-- The task as the handler sees it.
abbrev pub started : TaskSpec → TaskSpec
started task = record task { status = running; attempt = task.attempt + 1 }

register_error-some :
    (policy : DomainPolicy) (now : ℕ) (d : DomainState)
    → d.error_count < 1024
    → (t : ℕ) × ((register_error policy now d).0 ≡ some t)
unfolding register_error
register_error-some policy now d small =
    (now + min (policy.error_backoff * 2 ^ d.error_count) policy.max_backoff, ground arith)

pub error_count-acquire :
    (policy : DomainPolicy) (clock : ℕ → ℕ) (d : DomainState)
    → (acquire policy clock d).1.error_count ≡ d.error_count
unfolding acquire next_available_time
error_count-acquire policy clock d = ground arith

pub inflight-acquire :
    (policy : DomainPolicy) (clock : ℕ → ℕ) (d : DomainState)
    → (acquire policy clock d).0 ≡ none
    → (acquire policy clock d).1.inflight ≡ d.inflight + 1
unfolding acquire next_available_time
inflight-acquire policy clock d granted = ground arith

module _ (show_task : TaskType → String) (handler : TaskSpec → Outcome) (stamps : ℕ → Stamp) where
  conclude-Concluded :
      (clock : ℕ → ℕ) (task : TaskSpec) (policy_id : Option String) (s : System) (result : Outcome)
      → Holds task.task_id task s
      → (state_for s.limiter task.domain).error_count < 1024
      → Concluded show_task handler stamps task result
          (concluded_at clock result)
          s
          (conclude show_task handler stamps clock task policy_id task.attempt result s)
  conclude-Concluded clock task policy_id s done held small =
      conclude_done show_task handler stamps clock task policy_id s held
  conclude-Concluded clock task policy_id s (adapter_invalid m) held small =
      conclude_adapter_invalid show_task handler stamps clock task policy_id s held m
  conclude-Concluded clock task policy_id s (upstream_limited m) held small =
      let (t, e) = register_error-some (policy_for s.limiter task.domain) (clock 5) _ small in
      conclude_upstream_limited show_task handler stamps clock task policy_id s held t e m
  conclude-Concluded clock task policy_id s (transient m) held small =
      let (t, e) = register_error-some (policy_for s.limiter task.domain) (clock 5) _ small in
      conclude_transient show_task handler stamps clock task policy_id s held t e m
  conclude-Concluded clock task policy_id s (other c m) held small =
      conclude_other show_task handler stamps clock task policy_id s held c m

  -- What the attempt ends with: the handler's word on a crawl or a scrape, and success otherwise.
  abbrev pub result_of : TaskSpec → Outcome
  result_of task = if is_firecrawl task.task_type then handler (started task) else done

  abbrev pub noted : TaskSpec → System → System
  noted task s =
      if is_firecrawl task.task_type
      then record s { handled = s.handled ++ task.task_id ∷ [] }
      else s

  abbrev pub running_state : (ℕ → ℕ) → TaskSpec → System → System
  running_state clock task s =
      with_task task.task_id (started task) (marked task.task_id task running (clock 4) s)

  pub attempt_task_lem :
      (clock : ℕ → ℕ) (task : TaskSpec) (policy_id : Option String) (s : System)
      → Holds task.task_id task s
      → attempt_task show_task handler stamps clock task policy_id s
        ≡ conclude show_task handler stamps clock
            (started task)
            policy_id
            (task.attempt + 1)
            (result_of task)
            (noted task (running_state clock task s))
  unfolding attempt_task execute_task
  attempt_task_lem clock task policy_id s held = ground (
    arith,
    update_status_held task.task_id task running (clock 4) s held,
    increment_attempt_held task.task_id (record task { status = running })
        (marked task.task_id task running (clock 4) s)
        (marked-Holds task.task_id task running (clock 4) s),
    with_task-Holds task.task_id (started task) (marked task.task_id task running (clock 4) s),
  )

  -- The state as it is when the slot has been taken.
  abbrev pub acquired : (ℕ → ℕ) → TaskSpec → System → System
  acquired clock task s = record s {
    repository = record {
      tasks = put s.repository.tasks task.task_id task;
      transitions = s.repository.transitions;
    };
    limiter = (on_domain task.domain (λ policy. acquire policy clock) s.limiter).1;
  }

  -- The task with the id of the policy that permits it.
  abbrev pub tagged : TaskSpec → System → TaskSpec
  tagged task s = record task {
    policy_id = text_or (id_of (get_policy s.policies task.source_id)) task.policy_id;
  }

  pub process_task-acquired :
      (clock : ℕ → ℕ) (task : TaskSpec) (s : System)
      → Holds task.task_id task s
      → is_permitted show_task task s.policies ≡ true
      → (acquire (policy_for s.limiter task.domain) clock (state_for s.limiter task.domain)).0
        ≡ none
      → process_task show_task handler stamps clock task.task_id s
        ≡ attempt_task show_task handler stamps clock
            (tagged task s)
            (id_of (get_policy s.policies task.source_id))
            (acquired clock (tagged task s) s)
  unfolding process_decided Repository.add on_domain
  process_task-acquired clock task s held permitted granted =
      rw (process_task_found show_task handler stamps clock task s held, permitted) (ground arith)

  -- The reply, the stored task, the logs, the queue, the handler and the slots after such a run.
  pub record Ran (clock : ℕ → ℕ) (task : TaskSpec) (s : System) (r : Result Exn (Unit {0}) × System)
      : Type 0 where
    pub left : TaskSpec
    pub entry : AuditLogRecord
    pub returned : r.0 ≡ ok tt
    pub stored : Holds task.task_id left r.1
    pub status :
        left.status ≡ final_status (result_of (tagged task s)) (task.attempt + 1) task.max_attempts
    pub attempt : left.attempt ≡ task.attempt + 1
    pub logged :
        r.1.repository.transitions
        ≡ s.repository.transitions
          ++ transition task task.task_id running (clock 4)
            ∷ transition
                (started task)
                task.task_id
                (final_status (result_of (tagged task s)) (task.attempt + 1) task.max_attempts)
                (concluded_at clock (result_of (tagged task s)))
            ∷ []
    pub audited : r.1.audit ≡ s.audit ++ entry ∷ []
    pub outcome : entry.outcome ≡ outcome_text (result_of (tagged task s))
    pub queue :
        ((left.status ≡ queued) × (r.1.queue ≡ (Queue.enqueue left left.scheduled_at s.queue).1))
        ⊎ ((left.status ≢ queued) × (r.1.queue ≡ s.queue))
    pub handled :
        r.1.handled
        ≡ (if is_firecrawl task.task_type then s.handled ++ task.task_id ∷ [] else s.handled)
    pub slots :
        (state_for r.1.limiter task.domain).inflight ≡ (state_for s.limiter task.domain).inflight

  -- Noting the call of the handler changes nothing else.
  pub noted_lem :
      (task : TaskSpec) (s : System)
      → ((noted task s).repository ≡ s.repository)
        × ((noted task s).queue ≡ s.queue)
        × ((noted task s).audit ≡ s.audit)
        × ((noted task s).limiter ≡ s.limiter)
        × ((noted task s).handled
            ≡ (if is_firecrawl task.task_type then s.handled ++ task.task_id ∷ [] else s.handled))
  noted_lem task s = elim (Bool-cases (is_firecrawl task.task_type)) [
    | inl e ↦ rw e (refl, refl, refl, refl, refl)
    | inr e ↦ rw e (refl, refl, refl, refl, refl)
  ]

  -- The whole run of a task that its source permits and that is granted a slot, in a domain with
  -- fewer than 1024 errors in a row: the task takes one more attempt, its status goes to running and
  -- then to what the handler's outcome says, both changes are logged, one audit record is written,
  -- the handler is called if and only if the task is a crawl or a scrape, and the task is queued
  -- again exactly if its final status is queued. The slot that it took is free again.
  pub process_task-Ran :
      (clock : ℕ → ℕ) (task : TaskSpec) (s : System)
      → Holds task.task_id task s
      → is_permitted show_task task s.policies ≡ true
      → (acquire (policy_for s.limiter task.domain) clock (state_for s.limiter task.domain)).0
        ≡ none
      → (state_for s.limiter task.domain).error_count < 1024
      → Ran clock task s (process_task show_task handler stamps clock task.task_id s)
  process_task-Ran clock task s held permitted granted small =
      let mine = tagged task s in
      let s1 = acquired clock mine s in
      let s2 = running_state clock mine s1 in
      let s3 = noted mine s2 in
      let result = result_of mine in
      let policy_id = id_of (get_policy s.policies task.source_id) in
      let n = noted_lem mine s2 in
      let held3 : Holds task.task_id (started mine) s3 = rw n.0 (
        with_task-Holds task.task_id (started mine)
          (marked task.task_id mine running (clock 4) s1)) in
      let small3 : (state_for s3.limiter task.domain).error_count < 1024 =
        rw (n.3, state_for-on_domain, error_count-acquire) small in
      let c = conclude-Concluded clock (started mine) policy_id s3 result held3 small3 in
      let e : process_task show_task handler stamps clock task.task_id s
          ≡ conclude show_task handler stamps clock (started mine) policy_id (task.attempt + 1)
              result s3 =
        process_task-acquired clock task s held permitted granted
        ∙ attempt_task_lem clock mine policy_id s1 (with_task-Holds task.task_id mine s) in
      let freed : (state_for s3.limiter task.domain).inflight - 1
          ≡ (state_for s.limiter task.domain).inflight =
        rw (n.3, state_for-on_domain)
          (omega (
            arith,
            inflight-acquire (policy_for s.limiter task.domain) clock
                (state_for s.limiter task.domain) granted,
          )) in
      let last =
        transition (started mine) task.task_id
          (final_status result (task.attempt + 1) task.max_attempts) (concluded_at clock result) in
      rw e (record {
        left = c.left;
        entry = c.entry;
        returned = c.returned;
        stored = c.stored;
        status = c.status;
        attempt = c.attempt;
        logged =
            c.logged
            ∙ ap (λ (repository : TaskRepository). repository.transitions ++ last ∷ []) n.0
            ∙ append_assoc s.repository.transitions _ _;
        audited = c.audited ∙ ap (λ (l : List AuditLogRecord). l ++ c.entry ∷ []) n.2;
        outcome = c.outcome;
        queue = rw n.1 at c.queue;
        handled = c.handled ∙ n.4;
        slots = c.slots ∙ freed;
      })
