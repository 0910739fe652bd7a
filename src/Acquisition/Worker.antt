-- ===== src/Acquisition/Worker.antt =====
-- services/acquisition/worker.py: one task, from the gate to its outcome.
pub mod Steps
pub mod Denial
pub mod Attempt
pub mod Retry
pub mod Outcomes
pub mod Slots
use apartment_finder.Prelude.{
  ℕ, ◌+◌, String, Bool, true, false, Option, none, some, List, [], ◌∷◌, ◌++◌, ltb, if◌then◌else◌,
  string_eq,
}
use apartment_finder.Prelude.Dict.{Dict, get, put}
use apartment_finder.Prelude.Result.{Result, ok, err}
use apartment_finder.Common.Enums.{TaskType, task_value}
use apartment_finder.Common.Json.{Json, text, optional_text}
use apartment_finder.Common.Text.{text_or}
use apartment_finder.Acquisition.Models.{
  TaskSpec, TaskStatus, queued, running, succeeded, failed, denied, Exn, key_error, overflow_error,
}
use apartment_finder.Acquisition.RateLimiter.{
  DomainPolicy, DomainState, acquire, release, register_error,
}
use apartment_finder.Acquisition.Repository.{
  TaskRepository, get_task, or_key_error, update_status, increment_attempt,
}
use apartment_finder.Acquisition.Repository as Repository
use apartment_finder.Acquisition.System.{
  System, Exec, pure, raise, gets, on_repository, on_limiter, add_task, enqueue_task, Stamp, log,
  ◌>>=◌, ◌>>◌,
}
use apartment_finder.Acquisition.Validation.{is_firecrawl}
use apartment_finder.Acquisition.Policy.{policy_decision}

-- How the Firecrawl handler, a callable that the worker is given, ends.
pub data Outcome : Type 0 where
  done : Outcome
  adapter_invalid : String → Outcome
  upstream_limited : String → Outcome
  transient : String → Outcome
  other : String → String → Outcome

-- A method on a domain's state that returns nothing, and one that may raise OverflowError.
abbrev pub quietly :
    (DomainState → DomainState) → DomainPolicy → DomainState → Unit {0} × DomainState
quietly method policy s = (tt, method s)

abbrev pub or_overflow : Option ℕ → Exec ℕ
or_overflow none = raise overflow_error
or_overflow (some t) = pure t

-- The task object itself: what its id leads to now.
abbrev pub current : String → Exec TaskSpec
current task_id s = (or_key_error (get_task s.repository task_id), s)

module _ (show_task : TaskType → String) (handler : TaskSpec → Outcome) (stamps : ℕ → Stamp) where
  unfoldable pub log_outcome :
      String → String → Option String → Option String → Dict String Json → Exec (Unit {0})
  unfolding log get_task
  log_outcome task_id outcome policy_id error_class params = do
    task ← current task_id
    log stamps (text task.task_id) (optional_text policy_id) outcome params task.attempt error_class
        (text task.source_id) (text task.domain)

  abbrev pub plain_params : TaskSpec → Dict String Json
  plain_params task = ("task_type", text (task_value task.task_type)) ∷ []

  abbrev pub failure_params : String → TaskSpec → Dict String Json
  failure_params reason task =
      ("reason", text reason) ∷ ("task_type", text (task_value task.task_type)) ∷ []

  unfoldable pub enqueue_with_delay : ℕ → String → ℕ → Exec (Unit {0})
  unfolding get_task Repository.add update_status
  enqueue_with_delay now task_id time = do
    task ← current task_id
    add_task (record task { scheduled_at = time })
    on_repository (update_status task_id queued now)
    later ← current task_id
    enqueue_task later time

  -- The call of the handler, which is noted.
  unfoldable pub execute_task : TaskSpec → Exec Outcome
  execute_task task s =
      if is_firecrawl task.task_type
      then (ok (handler task), record s { handled = s.handled ++ task.task_id ∷ [] })
      else (ok done, s)

  abbrev pub try_again : ℕ → TaskSpec → Option String → String → String → ℕ → Exec (Unit {0})
  try_again now task policy_id error_class reason cooldown = do
    enqueue_with_delay now task.task_id cooldown
    log_outcome task.task_id "failed" policy_id (some error_class) (failure_params reason task)

  abbrev pub give_up : ℕ → TaskSpec → Option String → String → String → Exec (Unit {0})
  give_up now task policy_id error_class reason = do
    on_repository (update_status task.task_id failed now)
    log_outcome task.task_id "failed" policy_id (some error_class) (failure_params reason task)

  -- `except UpstreamRateLimitError` and `except TransientNetworkError`: the error is registered, the
  -- slot given back, and the task tried again later while it has attempts left.
  unfoldable pub retry_or_fail :
      (ℕ → ℕ) → TaskSpec → Option String → ℕ → String → String → Exec (Unit {0})
  retry_or_fail clock task policy_id attempt error_class reason = do
    answer ← on_limiter task.domain (λ policy. register_error policy (clock 5))
    cooldown ← or_overflow answer
    on_limiter task.domain (quietly (release false))
    if ltb attempt task.max_attempts
        then try_again (clock 6) task policy_id error_class reason cooldown
        else give_up (clock 6) task policy_id error_class reason

  -- The `except` clauses, and what follows the `try`.
  unfoldable pub conclude : (ℕ → ℕ) → TaskSpec → Option String → ℕ → Outcome → Exec (Unit {0})
  conclude clock task policy_id attempt done = do
    on_limiter task.domain (quietly (release true))
    on_repository (update_status task.task_id succeeded (clock 5))
    log_outcome task.task_id "succeeded" policy_id none (plain_params task)
  conclude clock task policy_id attempt (adapter_invalid reason) = do
    on_repository (update_status task.task_id failed (clock 5))
    on_limiter task.domain (quietly (release false))
    log_outcome task.task_id "failed" policy_id (some "AdapterValidationError")
        (failure_params reason task)
  conclude clock task policy_id attempt (upstream_limited reason) =
      retry_or_fail clock task policy_id attempt "UpstreamRateLimitError" reason
  conclude clock task policy_id attempt (transient reason) =
      retry_or_fail clock task policy_id attempt "TransientNetworkError" reason
  conclude clock task policy_id attempt (other error_class reason) = do
    on_limiter task.domain (quietly (release false))
    on_repository (update_status task.task_id failed (clock 5))
    log_outcome task.task_id "failed" policy_id (some error_class) (failure_params reason task)

  -- With a slot taken.
  unfoldable pub attempt_task : (ℕ → ℕ) → TaskSpec → Option String → Exec (Unit {0})
  attempt_task clock task policy_id = do
    on_repository (update_status task.task_id running (clock 4))
    attempt ← on_repository (increment_attempt task.task_id)
    started ← current task.task_id
    outcome ← execute_task started
    conclude clock started policy_id attempt outcome

  abbrev pub after_acquire : (ℕ → ℕ) → TaskSpec → Option String → Option ℕ → Exec (Unit {0})
  after_acquire clock task policy_id none = attempt_task clock task policy_id
  after_acquire clock task policy_id (some delay_until) =
      enqueue_with_delay (clock 4) task.task_id delay_until

  -- From the answer of the gate on; the task's policy id is brought up to date first.
  unfoldable pub process_decided :
      (ℕ → ℕ) → TaskSpec → Bool × Option String × String → Exec (Unit {0})
  process_decided clock task (false, policy_id, reason) = do
    add_task (record task { policy_id = text_or policy_id task.policy_id })
    on_repository (update_status task.task_id denied (clock 0))
    log_outcome task.task_id "denied" policy_id (some "PolicyDenied") (plain_params task)
  process_decided clock task (true, policy_id, reason) = do
    let tagged = record task { policy_id = text_or policy_id task.policy_id }
    add_task tagged
    delay_until ← on_limiter task.domain (λ policy. acquire policy clock)
    after_acquire clock tagged policy_id delay_until

  abbrev pub process_found : (ℕ → ℕ) → Option TaskSpec → Exec (Unit {0})
  process_found clock none = pure tt
  process_found clock (some task) = do
    decision ← policy_decision show_task task
    process_decided clock task decision

  unfoldable pub process_task : (ℕ → ℕ) → String → Exec (Unit {0})
  unfolding policy_decision get_task
  process_task clock task_id = do
    found ← gets (λ s. get_task s.repository task_id)
    process_found clock found
