-- ===== src/Acquisition/RateLimiter/Window.antt =====
-- The budget of a window, and the limit on concurrent requests.
use apartment_finder.Prelude.{ℕ, ◌≤◌, ◌<◌, Bool, arith}
use apartment_finder.Acquisition.RateLimiter.{
  DomainPolicy, DomainState, initial_state, next_available_time, acquire, release, register_error,
}

-- Neither the slots nor the budget of the window are overdrawn.
pub record IsWithin (policy : DomainPolicy) (s : DomainState) : Type 0 where
  pub slots : s.inflight ≤ policy.concurrency_cap
  pub budget : s.window_count ≤ policy.budget_per_window

pub initial_state-IsWithin : (policy : DomainPolicy) → IsWithin policy initial_state
initial_state-IsWithin policy = record { slots = omega arith; budget = omega arith }

-- Under a policy whose window has a length, and with readings that do not go back, `acquire` keeps
-- the domain within its slots and the budget of its window.
pub acquire-IsWithin :
    (policy : DomainPolicy) (clock : ℕ → ℕ) (s : DomainState)
    → 0 < policy.window
    → clock 0 ≤ clock 1
    → clock 1 ≤ clock 2
    → IsWithin policy s
    → IsWithin policy (acquire policy clock s).1
unfolding acquire next_available_time
acquire-IsWithin policy clock s pos h01 h12 v = ground arith

pub release-IsWithin :
    (policy : DomainPolicy) (success : Bool) (s : DomainState)
    → IsWithin policy s
    → IsWithin policy (release success s)
unfolding release
release-IsWithin policy success s v = ground arith

pub register_error-IsWithin :
    (policy : DomainPolicy) (now : ℕ) (s : DomainState)
    → IsWithin policy s
    → IsWithin policy (register_error policy now s).1
unfolding register_error
register_error-IsWithin policy now s v = ground arith

pub next_available_time-IsWithin :
    (policy : DomainPolicy) (now : ℕ) (s : DomainState)
    → IsWithin policy s
    → IsWithin policy (next_available_time policy now s).1
unfolding next_available_time
next_available_time-IsWithin policy now s v = ground arith
