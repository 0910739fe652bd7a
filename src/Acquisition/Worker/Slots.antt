-- ===== src/Acquisition/Worker/Slots.antt =====
-- A permitted task that gets no slot, and one whose backoff cannot be computed.
use apartment_finder.Acquisition.Worker.Outcomes.{
  inflight-acquire, attempt_task_lem, process_task-acquired, error_count-acquire, noted_lem, noted,
  running_state, started, result_of, acquired, tagged,
}
use apartment_finder.Acquisition.Worker.Steps.{
  marked, with_task-Holds, enqueue_with_delay_held, with_task, marked-Holds, requeued, Holds,
}
use apartment_finder.Prelude.{
  ap, Option, true, String, ℕ, ◌+◌, ◌≤◌, ◌≡◌, refl, none, some, arith, ◌∙◌,
}
use apartment_finder.PolicyGate.Repository.{get_policy}
use apartment_finder.PolicyGate.Service.{id_of}
use apartment_finder.Acquisition.Worker.{
  retry_or_fail, conclude, transient, process_decided, process_task, Outcome,
}
use apartment_finder.Acquisition.RateLimiter.{
  register_error, DomainState, on_domain, DomainPolicy, state_for, policy_for, acquire,
}
use apartment_finder.Acquisition.RateLimiter.Domains.{state_for-on_domain}
use apartment_finder.Acquisition.Models.{overflow_error, TaskSpec, running, queued}
use apartment_finder.Prelude.Result.{err, ok}
use apartment_finder.Acquisition.Worker.Denial.{process_task_found}
use apartment_finder.Acquisition.RateLimiter.Grants.{acquire_refused}
use apartment_finder.Acquisition.Policy.{is_permitted}
use apartment_finder.Acquisition.System.{System, Stamp}
use apartment_finder.Common.Enums.{TaskType}
use apartment_finder.Acquisition.Repository as Repository
use apartment_finder.Acquisition.Queue as Queue

inflight-register_error :
    (policy : DomainPolicy) (now : ℕ) (d : DomainState)
    → (register_error policy now d).1.inflight ≡ d.inflight
unfolding register_error
inflight-register_error policy now d = ground arith

inflight-acquire_refused :
    (policy : DomainPolicy) (clock : ℕ → ℕ) (d : DomainState) {t : ℕ}
    → (acquire policy clock d).0 ≡ some t
    → (acquire policy clock d).1.inflight ≡ d.inflight
inflight-acquire_refused policy clock d refused = (acquire_refused policy clock d refused).0

module _ (show_task : TaskType → String) (handler : TaskSpec → Outcome) (stamps : ℕ → Stamp) where
  delayed_lem :
      (clock : ℕ → ℕ) (task : TaskSpec) (s : System) (time : ℕ)
      → Holds task.task_id task s
      → is_permitted show_task task s.policies ≡ true
      → (acquire (policy_for s.limiter task.domain) clock (state_for s.limiter task.domain)).0
        ≡ some time
      → let mine = tagged show_task handler stamps task s in
        process_task show_task handler stamps clock task.task_id s ≡ (
          ok tt,
          requeued show_task handler stamps mine
              (clock 4)
              time
              (acquired show_task handler stamps clock mine s),
        )
  unfolding process_decided Repository.add on_domain
  delayed_lem clock task s time held permitted waits =
      let mine = tagged show_task handler stamps task s in
      rw (process_task_found show_task handler stamps clock task s held, permitted)
        (ground (
          arith,
          enqueue_with_delay_held show_task handler stamps mine (clock 4) time
              (acquired show_task handler stamps clock mine s)
              (with_task-Holds task.task_id mine s),
        ))

  -- A permitted task that the limiter makes wait goes back into the queue at the time that the
  -- limiter gives, with its attempts unchanged; the handler is not called, no slot is taken and
  -- nothing is written to the audit log.
  pub process_task_delayed :
      (clock : ℕ → ℕ) (task : TaskSpec) (s : System) (time : ℕ)
      → Holds task.task_id task s
      → is_permitted show_task task s.policies ≡ true
      → (acquire (policy_for s.limiter task.domain) clock (state_for s.limiter task.domain)).0
        ≡ some time
      → let r = process_task show_task handler stamps clock task.task_id s in
        let left = record (tagged show_task handler stamps task s) {
          scheduled_at = time;
          status = queued;
        } in
        (r.0 ≡ ok tt)
        × Holds task.task_id left r.1
        × (r.1.queue ≡ (Queue.enqueue left time s.queue).1)
        × (r.1.handled ≡ s.handled)
        × (r.1.audit ≡ s.audit)
        × ((state_for r.1.limiter task.domain).inflight
            ≡ (state_for s.limiter task.domain).inflight)
  process_task_delayed clock task s time held permitted waits =
      let mine = tagged show_task handler stamps task s in
      let s1 = acquired show_task handler stamps clock mine s in
      let s2 = requeued show_task handler stamps mine (clock 4) time s1 in
      let e = delayed_lem clock task s time held permitted waits in
      rw e (
        refl,
        marked-Holds task.task_id (record mine { scheduled_at = time }) queued (clock 4)
            (with_task task.task_id (record mine { scheduled_at = time }) s1),
        refl,
        refl,
        refl,
        rw state_for-on_domain (
            inflight-acquire_refused (policy_for s.limiter task.domain) clock
              (state_for s.limiter task.domain) waits),
      )

  conclude_overflow :
      (clock : ℕ → ℕ) (task : TaskSpec) (policy_id : Option String) (attempt : ℕ) (m : String)
      (s : System)
      → 1024 ≤ (state_for s.limiter task.domain).error_count
      → conclude show_task handler stamps clock task policy_id attempt (transient m) s ≡ (
        err overflow_error,
        record s {
          limiter = (on_domain task.domain (λ policy. register_error policy (clock 5)) s.limiter).1;
        },
      )
  unfolding conclude retry_or_fail on_domain register_error
  conclude_overflow clock task policy_id attempt m s many = ground arith

  -- In a domain with 1024 errors in a row or more, a transient network error makes the computation
  -- of the backoff raise OverflowError out of the worker: the task is left as running, and the slot
  -- that it took is not given back.
  pub process_task_overflow :
      (clock : ℕ → ℕ) (task : TaskSpec) (s : System) (m : String)
      → Holds task.task_id task s
      → is_permitted show_task task s.policies ≡ true
      → (acquire (policy_for s.limiter task.domain) clock (state_for s.limiter task.domain)).0
        ≡ none
      → result_of show_task handler stamps (tagged show_task handler stamps task s) ≡ transient m
      → 1024 ≤ (state_for s.limiter task.domain).error_count
      → let r = process_task show_task handler stamps clock task.task_id s in
        (r.0 ≡ err overflow_error)
        × Holds task.task_id (started (tagged show_task handler stamps task s)) r.1
        × ((state_for r.1.limiter task.domain).inflight
            ≡ (state_for s.limiter task.domain).inflight + 1)
  process_task_overflow clock task s m held permitted granted failed many =
      let mine = tagged show_task handler stamps task s in
      let s1 = acquired show_task handler stamps clock mine s in
      let s2 = running_state show_task handler stamps clock mine s1 in
      let s3 = noted show_task handler stamps mine s2 in
      let policy_id = id_of (get_policy s.policies task.source_id) in
      let n = noted_lem show_task handler stamps mine s2 in
      let many3 : 1024 ≤ (state_for s3.limiter task.domain).error_count =
        rw (n.3, state_for-on_domain, error_count-acquire) many in
      let ran : process_task show_task handler stamps clock task.task_id s
          ≡ conclude show_task handler stamps clock (started mine) policy_id (task.attempt + 1)
              (result_of show_task handler stamps mine) s3 =
        process_task-acquired show_task handler stamps clock task s held permitted granted
        ∙ attempt_task_lem show_task handler stamps clock mine policy_id s1
            (with_task-Holds task.task_id mine s) in
      let e =
        ran
        ∙ ap
            (λ (o : Outcome).
              conclude show_task handler stamps clock (started mine) policy_id (task.attempt + 1) o
                s3)
            failed
        ∙ conclude_overflow clock (started mine) policy_id (task.attempt + 1) m s3 many3 in
      rw e (
        refl,
        rw n.0 (
            with_task-Holds task.task_id (started mine)
              (marked task.task_id mine running (clock 4) s1)),
        rw (state_for-on_domain, inflight-register_error, n.3, state_for-on_domain)
            (inflight-acquire (policy_for s.limiter task.domain) clock
              (state_for s.limiter task.domain) granted),
      )
