-- ===== src/Acquisition/RateLimiter.antt =====
-- services/acquisition/rate_limiter.py. Times and durations are whole microseconds, the resolution
-- of Python's `datetime`; a `clock` gives the successive readings that one call makes.
pub mod Grants
pub mod Window
pub mod Backoff
pub mod Domains
pub mod Trace
use apartment_finder.Prelude.{
  ℕ, ◌+◌, ◌-◌, ◌*◌, ◌^◌, min, max, String, Bool, true, false, Option, none, some, if◌then◌else◌,
  leb, ltb, or_else, string_eq,
}
use apartment_finder.Prelude.Dict.{Dict, get, put}

pub record DomainPolicy : Type 0 where
  pub concurrency_cap : ℕ
  pub min_delay : ℕ
  pub error_backoff : ℕ
  pub max_backoff : ℕ
  pub budget_per_window : ℕ
  pub window : ℕ

-- `DomainPolicy()`
abbrev pub default_policy : DomainPolicy
default_policy = record {
  concurrency_cap = 1;
  min_delay = 1_000_000;
  error_backoff = 5_000_000;
  max_backoff = 60_000_000;
  budget_per_window = 60;
  window = 60_000_000;
}

pub record DomainState : Type 0 where
  pub inflight : ℕ
  pub last_request_at : Option ℕ
  pub error_count : ℕ
  pub cooldown_until : Option ℕ
  pub window_start : Option ℕ
  pub window_count : ℕ

-- `DomainState()`
abbrev pub initial_state : DomainState
initial_state = record {
  inflight = 0;
  last_request_at = none;
  error_count = 0;
  cooldown_until = none;
  window_start = none;
  window_count = 0;
}

-- A fresh window at its first use, and whenever the old one has run its length.
unfoldable pub refresh_window : DomainPolicy → ℕ → DomainState → DomainState
refresh_window policy now s = elim s.window_start [
  | none ↦ record s { window_start = some now; window_count = 0 }
  | some start ↦
      if leb (start + policy.window) now
      then record s { window_start = some now; window_count = 0 }
      else s
]

-- The later of a candidate time and an optional bound.
abbrev pub no_earlier : Option ℕ → ℕ → ℕ
no_earlier none candidate = candidate
no_earlier (some t) candidate = max candidate t

abbrev pub after_delay : DomainPolicy → Option ℕ → ℕ → ℕ
after_delay policy none candidate = candidate
after_delay policy (some last) candidate = max candidate (last + policy.min_delay)

abbrev pub after_window : DomainPolicy → DomainState → Option ℕ → ℕ → ℕ
after_window policy s none candidate = candidate
after_window policy s (some start) candidate =
    if leb policy.budget_per_window s.window_count
    then max candidate (start + policy.window)
    else candidate

unfoldable pub next_available_time : DomainPolicy → ℕ → DomainState → ℕ × DomainState
unfolding refresh_window
next_available_time policy now s =
    let s' = refresh_window policy now s in
    (
      after_window policy s' s'.window_start
          (no_earlier s'.cooldown_until (after_delay policy s'.last_request_at now)),
      s',
    )

-- Two readings: the test's own, and then the one of `next_available_time`.
unfoldable pub can_acquire : DomainPolicy → ℕ → ℕ → DomainState → Bool × DomainState
unfolding next_available_time
can_acquire policy now later s =
    let (candidate, s') = next_available_time policy later s in
    if leb policy.concurrency_cap s.inflight then (false, s) else (leb candidate now, s')

-- `none` is a grant, `some t` the time from which to try again. The readings, in order: the call's
-- own, the two of `can_acquire`, and that of a refusal.
unfoldable pub acquire : DomainPolicy → (ℕ → ℕ) → DomainState → Option ℕ × DomainState
unfolding can_acquire
acquire policy clock s =
    let (free, s') = can_acquire policy (clock 1) (clock 2) s in
    if free
    then granted (refresh_window policy (clock 0) s')
    else refused (next_available_time policy (clock 3) s')
  where
    granted : DomainState → Option ℕ × DomainState
    granted r = (
      none,
      record r {
        inflight = r.inflight + 1;
        last_request_at = some (clock 0);
        window_count = r.window_count + 1;
      },
    )

    refused : ℕ × DomainState → Option ℕ × DomainState
    refused r = (some r.0, r.1)

unfoldable pub release : Bool → DomainState → DomainState
release success s =
    let less = record s { inflight = s.inflight - 1 } in
    if success then record less { error_count = 0; cooldown_until = none } else less

-- `error_backoff * 2 ** (error_count - 1)` converts the power to a float, which raises
-- OverflowError from 2 ** 1024 on; the count has been raised by then. `none` is that exception. The
-- error backoff is a float here, as `DomainPolicy` declares it; an int would be multiplied as an int.
abbrev pub float_overflow : ℕ
float_overflow = 1024

unfoldable pub register_error : DomainPolicy → ℕ → DomainState → Option ℕ × DomainState
register_error policy now s =
    let counted = record s { error_count = s.error_count + 1 } in
    let cooldown = now + min (policy.error_backoff * 2 ^ s.error_count) policy.max_backoff in
    if leb float_overflow s.error_count
    then (none, counted)
    else (some cooldown, record counted { cooldown_until = some cooldown })

pub record RateLimiter : Type 0 where
  pub policies : Dict String DomainPolicy
  pub state : Dict String DomainState

unfoldable pub policy_for : RateLimiter → String → DomainPolicy
unfolding get
policy_for l domain = or_else (get l.policies domain) default_policy

unfoldable pub set_policy : String → DomainPolicy → RateLimiter → RateLimiter
set_policy domain policy l = record l { policies = put l.policies domain policy }

-- The state object of a domain, made on first use.
unfoldable pub state_for : RateLimiter → String → DomainState
unfolding get
state_for l domain = or_else (get l.state domain) initial_state

-- A method of the limiter works in place on the state of one domain.
unfoldable pub on_domain :
    {A : Type 0}
    → String
    → (DomainPolicy → DomainState → A × DomainState)
    → RateLimiter
    → A × RateLimiter
on_domain domain method l =
    let (a, s) = method (policy_for l domain) (state_for l domain) in
    (a, record l { state = put l.state domain s })
