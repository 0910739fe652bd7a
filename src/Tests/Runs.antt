-- ===== src/Tests/Runs.antt =====
-- The theorems on the scheduler and the worker at concrete states.
use apartment_finder.Prelude.{
  ◌≤◌, ◌<◌, arith, eq_iff, ◌+◌, ◌≡◌, refl, ◌≢◌, some, none, true, string_eq,
}
use apartment_finder.Prelude.Dict.{get}
use apartment_finder.Prelude.Result.{ok, err}
use apartment_finder.Common.Enums.{crawl_allowed, task_value}
use apartment_finder.PolicyGate.Matrix.{operations_for}
use apartment_finder.PolicyGate.Repository.{get_policy}
use apartment_finder.PolicyGate.Service.{status_of}
use apartment_finder.Acquisition.Models.{TaskSpec, queued, overflow_error}
use apartment_finder.Acquisition.Queue as Queue
use apartment_finder.Acquisition.RateLimiter.{
  DomainState, initial_state, acquire, policy_for, state_for,
}
use apartment_finder.Acquisition.Repository.{get_task}
use apartment_finder.Acquisition.Policy.{is_permitted}
use apartment_finder.Acquisition.Worker.{process_task}
use apartment_finder.Acquisition.Worker.Denial.{DeniedRun, process_task_compliance}
use apartment_finder.Acquisition.Worker.Steps.{Holds}
use apartment_finder.Acquisition.Worker.Outcomes.{Ran, process_task-Ran, tagged, started}
use apartment_finder.Acquisition.Worker.Slots.{process_task_delayed, process_task_overflow}
use apartment_finder.Tests.Data.{crawl, forbidden, worn, system, busy, stamps, fails, still}

held : (task : TaskSpec) (d : DomainState) → Holds task.task_id task (system task d)
unfolding get_task get
held task d = ground (arith, eq_iff task.task_id task.task_id)

forbidden_by_policy :
    status_of (get_policy (system forbidden initial_state).policies "craigslist") ≢ crawl_allowed
unfolding get_policy get
forbidden_by_policy e = cc

permitted : (d : DomainState) → is_permitted task_value crawl (system crawl d).policies ≡ true
unfolding get_policy get operations_for
permitted d = refl

process_task_compliance_example :
    DeniedRun task_value fails stamps forbidden 100
      (system forbidden initial_state)
      (process_task task_value fails stamps still "t1" (system forbidden initial_state))
process_task_compliance_example =
    process_task_compliance task_value fails stamps still forbidden (system forbidden initial_state)
      (held forbidden initial_state) (λ e. cc) forbidden_by_policy

acquired_first :
    let s = system crawl initial_state in
    (acquire (policy_for s.limiter "zillow.com") still (state_for s.limiter "zillow.com")).0 ≡ none
unfolding acquire policy_for state_for get
acquired_first = refl

few_errors : (state_for (system crawl initial_state).limiter "zillow.com").error_count < 1024
unfolding state_for get
few_errors = omega arith

process_task-Ran_example :
    Ran task_value fails stamps still crawl
      (system crawl initial_state)
      (process_task task_value fails stamps still "t1" (system crawl initial_state))
process_task-Ran_example =
    process_task-Ran task_value fails stamps still crawl (system crawl initial_state)
      (held crawl initial_state) (permitted initial_state) acquired_first few_errors

full :
    let s = system crawl busy in
    (acquire (policy_for s.limiter "zillow.com") still (state_for s.limiter "zillow.com")).0
    ≡ some 100
unfolding acquire policy_for state_for get
full = refl

process_task_delayed_example :
    let s = system crawl busy in
    let r = process_task task_value fails stamps still "t1" s in
    let left = record (tagged task_value fails stamps crawl s) {
      scheduled_at = 100;
      status = queued;
    } in
    (r.0 ≡ ok tt)
    × Holds "t1" left r.1
    × (r.1.queue ≡ (Queue.enqueue left 100 s.queue).1)
    × (r.1.handled ≡ s.handled)
    × (r.1.audit ≡ s.audit)
    × ((state_for r.1.limiter "zillow.com").inflight ≡ (state_for s.limiter "zillow.com").inflight)
process_task_delayed_example =
    process_task_delayed task_value fails stamps still crawl (system crawl busy) 100
      (held crawl busy) (permitted busy) full

acquired_worn :
    let s = system crawl worn in
    (acquire (policy_for s.limiter "zillow.com") still (state_for s.limiter "zillow.com")).0 ≡ none
unfolding acquire policy_for state_for get
acquired_worn = refl

many_errors : 1024 ≤ (state_for (system crawl worn).limiter "zillow.com").error_count
unfolding state_for get
many_errors = omega arith

process_task_overflow_example :
    let s = system crawl worn in
    let r = process_task task_value fails stamps still "t1" s in
    (r.0 ≡ err overflow_error)
    × Holds "t1" (started (tagged task_value fails stamps crawl s)) r.1
    × ((state_for r.1.limiter "zillow.com").inflight
        ≡ (state_for s.limiter "zillow.com").inflight + 1)
process_task_overflow_example =
    process_task_overflow task_value fails stamps still crawl (system crawl worn) "timeout"
      (held crawl worn) (permitted worn) acquired_worn refl many_errors
