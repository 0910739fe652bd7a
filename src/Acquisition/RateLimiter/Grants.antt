-- ===== src/Acquisition/RateLimiter/Grants.antt =====
-- When `acquire` grants, and when it refuses.
use apartment_finder.Prelude.{
  ℕ, ◌+◌, ◌≤◌, ◌<◌, ◌≡◌, ◌≢◌, sym, ◌⊎◌, inl, inr, Option, none, some, arith, Option-cases,
  Bool-cases,
}
use mathlib.Core.Path.{subst}
use apartment_finder.Acquisition.RateLimiter.{
  DomainPolicy, DomainState, refresh_window, next_available_time, can_acquire, acquire,
  after_window, after_delay, no_earlier,
}

-- A bound that is not set holds of every time.
abbrev pub IsPast : ℕ → Option ℕ → ℕ → Type 0
IsPast delay none now = Unit {0}
IsPast delay (some t) now = t + delay ≤ now

refresh_window_keeps :
    (policy : DomainPolicy) (now : ℕ) (s : DomainState)
    → let r = refresh_window policy now s in
      (r.inflight ≡ s.inflight)
      × (r.last_request_at ≡ s.last_request_at)
      × (r.error_count ≡ s.error_count)
      × (r.cooldown_until ≡ s.cooldown_until)
      × (r.window_start ≢ none)
unfolding refresh_window
refresh_window_keeps policy now s = ground arith

-- The time is never before the present, and every bound has passed by then.
pub next_available_time_bounds :
    (policy : DomainPolicy) (now : ℕ) (s : DomainState)
    → let t = (next_available_time policy now s).0 in
      (now ≤ t) × IsPast policy.min_delay s.last_request_at t × IsPast 0 s.cooldown_until t
unfolding next_available_time
next_available_time_bounds policy now s = ground (arith, refresh_window_keeps policy now s)

-- If `acquire` grants and the readings do not go back, then a slot was free, the two readings of
-- the test were the same, the minimum delay and the cooldown had passed, and the grant takes a slot
-- and records the request.
pub acquire_granted :
    (policy : DomainPolicy) (clock : ℕ → ℕ) (s : DomainState)
    → clock 1 ≤ clock 2
    → (acquire policy clock s).0 ≡ none
    → let s' = (acquire policy clock s).1 in
      (s.inflight < policy.concurrency_cap)
      × (clock 1 ≡ clock 2)
      × IsPast policy.min_delay s.last_request_at (clock 1)
      × IsPast 0 s.cooldown_until (clock 1)
      × (s'.inflight ≡ s.inflight + 1)
      × (s'.last_request_at ≡ some (clock 0))
      × (s'.error_count ≡ s.error_count)
      × (s'.cooldown_until ≡ s.cooldown_until)
unfolding acquire next_available_time
acquire_granted policy clock s mono e = ground (
  arith,
  next_available_time_bounds policy (clock 2) s,
  refresh_window_keeps policy (clock 2) s,
  refresh_window_keeps policy (clock 0) (refresh_window policy (clock 2) s),
)

-- If the clock moves between the two readings of the test, `acquire` refuses in every state and
-- under every policy: it answers with a time, takes no slot and records no request.
pub acquire_refused_by_tick :
    (policy : DomainPolicy) (clock : ℕ → ℕ) (s : DomainState)
    → clock 1 < clock 2
    → (t : ℕ) × ((acquire policy clock s).0 ≡ some t)
      × (clock 3 ≤ t)
      × ((acquire policy clock s).1.inflight ≡ s.inflight)
      × ((acquire policy clock s).1.last_request_at ≡ s.last_request_at)
unfolding acquire next_available_time
acquire_refused_by_tick policy clock s tick =
    let s' = (can_acquire policy (clock 1) (clock 2) s).1 in
    let r = next_available_time policy (clock 3) s' in
    let first = next_available_time_bounds policy (clock 2) s in
    let last = next_available_time_bounds policy (clock 3) s' in
    let kept = refresh_window_keeps policy (clock 2) s in
    let again = refresh_window_keeps policy (clock 3) s' in
    (
      r.0,
      ground (arith, first),
      last.0,
      ground (arith, first, kept, again),
      ground (arith, first, kept, again),
    )

-- A refusal leaves the slots and the last request alone.
pub acquire_refused :
    (policy : DomainPolicy) (clock : ℕ → ℕ) (s : DomainState) {t : ℕ}
    → (acquire policy clock s).0 ≡ some t
    → ((acquire policy clock s).1.inflight ≡ s.inflight)
      × ((acquire policy clock s).1.last_request_at ≡ s.last_request_at)
unfolding acquire next_available_time
acquire_refused policy clock s e = ground arith

-- The budget is not used up, or its window is over.
abbrev pub IsRefilled : DomainPolicy → ℕ → Option ℕ → ℕ → Type 0
IsRefilled policy count none now = Unit {0}
IsRefilled policy count (some start) now =
    (count < policy.budget_per_window) ⊎ (start + policy.window ≤ now)

-- Nothing but the slots holds back a request at the time.
abbrev pub IsOpen : DomainPolicy → DomainState → ℕ → Type 0
IsOpen policy s now =
    IsPast policy.min_delay s.last_request_at now
    × IsPast 0 s.cooldown_until now
    × IsRefilled policy s.window_count s.window_start now

after_window-IsRefilled :
    (policy : DomainPolicy) (s : DomainState) (start : Option ℕ) (candidate : ℕ)
    → IsRefilled policy s.window_count start (after_window policy s start candidate)
after_window-IsRefilled policy s none candidate = tt
after_window-IsRefilled policy s (some start) candidate = ground arith

next_available_time-IsOpen :
    (policy : DomainPolicy) (now : ℕ) (s : DomainState)
    → IsOpen policy (next_available_time policy now s).1 (next_available_time policy now s).0
unfolding next_available_time
next_available_time-IsOpen policy now s =
    let kept = refresh_window_keeps policy now s in
    let bounds = next_available_time_bounds policy now s in
    let r = refresh_window policy now s in
    let t = (next_available_time policy now s).0 in
    (
      subst (λ x. IsPast policy.min_delay x t) (sym kept.1) bounds.1,
      subst (λ x. IsPast 0 x t) (sym kept.3) bounds.2,
      after_window-IsRefilled policy r r.window_start _,
    )

IsPast-mono :
    (delay : ℕ) (bound : Option ℕ) (t later : ℕ)
    → t ≤ later
    → IsPast delay bound t
    → IsPast delay bound later
IsPast-mono delay none t later h p = tt
IsPast-mono delay (some b) t later h p = omega (arith, h, p)

IsRefilled-mono :
    (policy : DomainPolicy) (count : ℕ) (start : Option ℕ) (t later : ℕ)
    → t ≤ later
    → IsRefilled policy count start t
    → IsRefilled policy count start later
IsRefilled-mono policy count none t later h p = tt
IsRefilled-mono policy count (some w) t later h p = ground arith

IsOpen-mono :
    (policy : DomainPolicy) (s : DomainState) (t later : ℕ)
    → t ≤ later
    → IsOpen policy s t
    → IsOpen policy s later
IsOpen-mono policy s t later h (delay, cooldown, window) = (
  IsPast-mono policy.min_delay s.last_request_at t later h delay,
  IsPast-mono 0 s.cooldown_until t later h cooldown,
  IsRefilled-mono policy s.window_count s.window_start t later h window,
)

refresh_window-IsRefilled :
    (policy : DomainPolicy) (now : ℕ) (s : DomainState)
    → 1 ≤ policy.budget_per_window
    → IsRefilled policy s.window_count s.window_start now
    → let r = refresh_window policy now s in IsRefilled policy r.window_count r.window_start now
unfolding refresh_window
refresh_window-IsRefilled policy now s budget h = elim (Option-cases s.window_start) [
  | inl e ↦ rw e (inl (omega (arith, budget)))
  | inr (w, e) ↦ ground (arith, e, h)
]

waits_of :
    (policy : DomainPolicy) (r : DomainState) (now : ℕ) (last cooldown start : Option ℕ)
    → IsPast policy.min_delay last now
    → IsPast 0 cooldown now
    → IsRefilled policy r.window_count start now
    → after_window policy r start (no_earlier cooldown (after_delay policy last now)) ≤ now
waits_of policy r now last cooldown start p q w = ground arith

no_wait :
    (policy : DomainPolicy) (now : ℕ) (s : DomainState)
    → 1 ≤ policy.budget_per_window
    → IsOpen policy s now
    → (next_available_time policy now s).0 ≤ now
unfolding next_available_time
no_wait policy now s budget (delay, cooldown, window) =
    let kept = refresh_window_keeps policy now s in
    let r = refresh_window policy now s in
    waits_of policy r now r.last_request_at r.cooldown_until r.window_start (rw kept.1 delay)
      (rw kept.3 cooldown) (refresh_window-IsRefilled policy now s budget window)

-- A refusal answers for the state that it leaves.
refusal :
    (policy : DomainPolicy) (clock : ℕ → ℕ) (s : DomainState) {t : ℕ}
    → (acquire policy clock s).0 ≡ some t
    → let s' = (acquire policy clock s).1 in IsOpen policy s' t
unfolding acquire
refusal policy clock s {t} e =
    let seen = can_acquire policy (clock 1) (clock 2) s in
    let opened = next_available_time-IsOpen policy (clock 3) seen.1 in
    elim (Bool-cases seen.0) [
      | inl free ↦ absurd (ground (arith, e, free))
      | inr taken ↦
          let answer : (next_available_time policy (clock 3) seen.1).0 ≡ t =
            ground (arith, e, taken) in
          rw (taken, sym answer) opened
    ]

granted_lem :
    (policy : DomainPolicy) (clock : ℕ → ℕ) (s : DomainState)
    → s.inflight < policy.concurrency_cap
    → (next_available_time policy (clock 2) s).0 ≤ clock 1
    → (acquire policy clock s).0 ≡ none
unfolding acquire can_acquire
granted_lem policy clock s slot free = ground arith

-- With a slot free and a budget of at least one, a caller that was refused, at any readings of the
-- clock, and that comes back at the time it was given, or later, is granted if the clock stands still
-- between the two readings of the second call's test.
pub acquire_retry :
    (policy : DomainPolicy) (clock again : ℕ → ℕ) (t : ℕ) (s : DomainState)
    → s.inflight < policy.concurrency_cap
    → 1 ≤ policy.budget_per_window
    → (acquire policy clock s).0 ≡ some t
    → t ≤ again 1
    → again 1 ≡ again 2
    → (acquire policy again (acquire policy clock s).1).0 ≡ none
acquire_retry policy clock again t s slot budget refused wait still =
    let s' = (acquire policy clock s).1 in
    let same = (acquire_refused policy clock s refused).0 in
    let later : t ≤ again 2 = omega (arith, wait, still) in
    let opened = IsOpen-mono policy s' t (again 2) later (refusal policy clock s refused) in
    let free = no_wait policy (again 2) s' budget opened in
    granted_lem policy again s' (omega (arith, slot, same)) (omega (arith, free, still))
