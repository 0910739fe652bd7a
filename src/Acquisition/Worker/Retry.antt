-- ===== src/Acquisition/Worker/Retry.antt =====
-- The two errors after which a task is tried again while it has attempts left.
use apartment_finder.Acquisition.Worker.Attempt.{
  recorded, settled, outcome_text, Concluded, inflight-limited, final_status, limited,
}
use apartment_finder.Acquisition.RateLimiter.Domains.{state_for-on_domain}
use apartment_finder.Prelude.{
  ◌-◌, Bool-cases, ℕ, ◌≡◌, refl, sym, inl, inr, String, true, false, Option, some, arith, ltb,
  string_eq,
}
use apartment_finder.Prelude.Result.{ok}
use apartment_finder.Common.Enums.{TaskType}
use apartment_finder.Acquisition.Models.{TaskSpec, queued, failed}
use apartment_finder.Acquisition.RateLimiter.{
  on_domain, release, register_error, state_for, policy_for,
}
use apartment_finder.Acquisition.System.{System, Stamp}
use apartment_finder.Acquisition.Worker.{
  Outcome, upstream_limited, transient, conclude, retry_or_fail, failure_params,
}
use apartment_finder.Acquisition.Worker.Steps.{
  with_task, marked, marked-Holds, Holds, update_status_held, log_outcome_held,
  enqueue_with_delay_held, requeued, entry_of,
}

module _ (show_task : TaskType → String) (handler : TaskSpec → Outcome) (stamps : ℕ → Stamp) where
  module _ (clock : ℕ → ℕ) (task : TaskSpec) (policy_id : Option String) (s : System)
      (held : Holds task.task_id task s) where
    module _ (cooldown : ℕ)
        (counted : (register_error
            (policy_for s.limiter task.domain)
            (clock 5)
            (state_for s.limiter task.domain)).0
          ≡ some cooldown) where
      -- The limiter after the error and the release.
      abbrev cooled : System
      cooled = limited task.domain (release false) (record s {
        limiter = (on_domain task.domain (λ policy. register_error policy (clock 5)) s.limiter).1;
      })

      inflight-cooled :
          (state_for cooled.limiter task.domain).inflight
          ≡ (state_for s.limiter task.domain).inflight - 1
      unfolding register_error
      inflight-cooled =
          rw (inflight-limited show_task handler stamps, state_for-on_domain) (ground arith)

      retry_fails :
          (result : Outcome) (c m : String)
          → ltb task.attempt task.max_attempts ≡ false
          → final_status result task.attempt task.max_attempts ≡ failed
          → outcome_text result ≡ "failed"
          → Concluded show_task handler stamps task result
              (clock 6)
              s
              (retry_or_fail show_task handler stamps clock task policy_id task.attempt c m s)
      unfolding retry_or_fail on_domain
      retry_fails result c m spent final text =
          let s2 = marked task.task_id task failed (clock 6) cooled in
          let left = record task { status = failed } in
          let params = failure_params show_task handler stamps m task in
          let entry =
            entry_of show_task handler stamps left s2 "failed" policy_id (some c) params in
          settled show_task handler stamps task result (clock 6) s cooled.limiter entry _ (sym text)
            inflight-cooled (λ e. cc (final, e))
            (ground (
              arith,
              update_status_held task.task_id task failed (clock 6) cooled held,
              log_outcome_held show_task handler stamps task.task_id left s2 "failed" policy_id
                  (some c) params (marked-Holds task.task_id task failed (clock 6) cooled),
            ))

      retry_again :
          (result : Outcome) (c m : String)
          → ltb task.attempt task.max_attempts ≡ true
          → final_status result task.attempt task.max_attempts ≡ queued
          → outcome_text result ≡ "failed"
          → Concluded show_task handler stamps task result
              (clock 6)
              s
              (retry_or_fail show_task handler stamps clock task policy_id task.attempt c m s)
      unfolding retry_or_fail on_domain
      retry_again result c m more final text =
          let s2 = requeued show_task handler stamps task (clock 6) cooldown cooled in
          let left = record task { status = queued; scheduled_at = cooldown } in
          let params = failure_params show_task handler stamps m task in
          let entry =
            entry_of show_task handler stamps left s2 "failed" policy_id (some c) params in
          let e : retry_or_fail show_task handler stamps clock task policy_id task.attempt c m s
              ≡ (ok tt, recorded show_task handler stamps entry s2) =
            ground (
              arith,
              enqueue_with_delay_held show_task handler stamps task (clock 6) cooldown cooled held,
              log_outcome_held show_task handler stamps task.task_id left s2 "failed" policy_id
                  (some c) params
                  (marked-Holds task.task_id (record task { scheduled_at = cooldown }) queued
                    (clock 6)
                    (with_task task.task_id (record task { scheduled_at = cooldown }) cooled)),
            ) in
          rw e (record {
            left = left;
            entry = entry;
            returned = refl;
            stored =
                marked-Holds task.task_id (record task { scheduled_at = cooldown }) queued (clock 6)
                  (with_task task.task_id (record task { scheduled_at = cooldown }) cooled);
            status = sym final;
            attempt = refl;
            logged = rw final refl;
            audited = refl;
            outcome = sym text;
            queue = inl (refl, refl);
            handled = refl;
            slots = inflight-cooled;
          })

      pub conclude_upstream_limited :
          (m : String)
          → Concluded show_task handler stamps task (upstream_limited m) (clock 6) s (
              conclude show_task handler stamps clock task policy_id task.attempt
                (upstream_limited m)
                s)
      unfolding conclude
      conclude_upstream_limited m = elim (Bool-cases (ltb task.attempt task.max_attempts)) [
        | inl more ↦
            retry_again (upstream_limited m) "UpstreamRateLimitError" m more (rw more refl) refl
        | inr spent ↦
            retry_fails (upstream_limited m) "UpstreamRateLimitError" m spent (rw spent refl) refl
      ]

      pub conclude_transient :
          (m : String)
          → Concluded show_task handler stamps task
              (transient m)
              (clock 6)
              s
              (conclude show_task handler stamps clock task policy_id task.attempt (transient m) s)
      unfolding conclude
      conclude_transient m = elim (Bool-cases (ltb task.attempt task.max_attempts)) [
        | inl more ↦ retry_again (transient m) "TransientNetworkError" m more (rw more refl) refl
        | inr spent ↦ retry_fails (transient m) "TransientNetworkError" m spent (rw spent refl) refl
      ]
