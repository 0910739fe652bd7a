-- ===== src/Acquisition/RateLimiter/Trace.antt =====
-- A whole history of calls on one domain, at any readings of the clock.
use apartment_finder.Prelude.{
  ℕ, ◌+◌, ◌≤◌, ◌<◌, ◌≡◌, refl, ◌∙◌, inl, inr, Bool, Option, none, some, List, [], ◌∷◌, All, arith,
  Option-cases,
}
use apartment_finder.Acquisition.RateLimiter.{
  DomainPolicy, DomainState, initial_state, next_available_time, acquire, release, register_error,
}
use apartment_finder.Acquisition.RateLimiter.Grants.{acquire_granted, acquire_refused, IsPast}
use apartment_finder.Acquisition.RateLimiter.Window.{
  IsWithin, initial_state-IsWithin, acquire-IsWithin, release-IsWithin, register_error-IsWithin,
  next_available_time-IsWithin,
}

-- A call on the domain, with the readings of the clock that it makes.
pub data Call : Type 0 where
  acquires : (ℕ → ℕ) → Call
  releases : Bool → Call
  fails : ℕ → Call
  queries : ℕ → Call

-- A grant has two times: the one that it records, which `acquire` reads first, and the one at which
-- it was tested.
pub record Grant : Type 0 where
  pub recorded_at : ℕ
  pub tested_at : ℕ

abbrev pub on_grant : Option ℕ → Grant → List Grant → List Grant
on_grant none grant grants = grant ∷ grants
on_grant (some t) grant grants = grants

abbrev pub grant_at : (ℕ → ℕ) → Grant
grant_at clock = record { recorded_at = clock 0; tested_at = clock 1 }

-- The readings of `acquire` up to its test do not go back.
abbrev pub IsForward : Call → Type 0
IsForward (acquires clock) = (clock 0 ≤ clock 1) × (clock 1 ≤ clock 2)
IsForward call = Unit {0}

-- The state, and the grants, newest first.
unfoldable pub step : DomainPolicy → Call → DomainState × List Grant → DomainState × List Grant
step policy (acquires clock) (s, grants) =
    let (answer, s') = acquire policy clock s in (s', on_grant answer (grant_at clock) grants)
step policy (releases success) (s, grants) = (release success s, grants)
step policy (fails now) (s, grants) = ((register_error policy now s).1, grants)
step policy (queries now) (s, grants) = ((next_available_time policy now s).1, grants)

unfoldable pub run : DomainPolicy → List Call → DomainState × List Grant → DomainState × List Grant
run policy [] r = r
run policy (c ∷ cs) r = run policy cs (step policy c r)

-- Each grant is tested at least the delay after the time that the one before it recorded.
abbrev pub Spaced : ℕ → List Grant → Type 0
Spaced delay [] = Unit {0}
Spaced delay (t ∷ []) = Unit {0}
Spaced delay (t ∷ u ∷ ts) = (u.recorded_at + delay ≤ t.tested_at) × Spaced delay (u ∷ ts)

abbrev pub head_of : List Grant → Option ℕ
head_of [] = none
head_of (t ∷ ts) = some t.recorded_at

-- The state remembers the newest grant, and is within its limits.
pub record IsKept (policy : DomainPolicy) (r : DomainState × List Grant) : Type 0 where
  pub within : IsWithin policy r.0
  pub newest : r.0.last_request_at ≡ head_of r.1
  pub spaced : Spaced policy.min_delay r.1

Spaced-cons :
    (delay : ℕ) (t : Grant) (last : Option ℕ) (ts : List Grant)
    → last ≡ head_of ts
    → IsPast delay last t.tested_at
    → Spaced delay ts
    → Spaced delay (t ∷ ts)
Spaced-cons delay t last [] e p s = tt
Spaced-cons delay t last (u ∷ ts) e p s = ground arith

acquires-IsKept :
    (policy : DomainPolicy) (clock : ℕ → ℕ) (s : DomainState) (grants : List Grant)
    → 0 < policy.window
    → IsForward (acquires clock)
    → IsKept policy (s, grants)
    → IsKept policy (step policy (acquires clock) (s, grants))
unfolding step
acquires-IsKept policy clock s grants pos (h01, h12) v =
    let within = acquire-IsWithin policy clock s pos h01 h12 v.within in
    elim (Option-cases (acquire policy clock s).0) [
      | inl granted ↦
          let facts = acquire_granted policy clock s h12 granted in
          rw granted (record {
            within = within;
            newest = facts.5;
            spaced =
                Spaced-cons policy.min_delay (grant_at clock) s.last_request_at grants v.newest
                  facts.2 v.spaced;
          })
      | inr (t, refused) ↦
          let facts = acquire_refused policy clock s refused in
          rw refused (record { within = within; newest = facts.1 ∙ v.newest; spaced = v.spaced })
    ]

pub step-IsKept :
    (policy : DomainPolicy) (c : Call) (r : DomainState × List Grant)
    → 0 < policy.window
    → IsForward c
    → IsKept policy r
    → IsKept policy (step policy c r)
unfolding step
step-IsKept policy (acquires clock) (s, grants) pos forward v =
    acquires-IsKept policy clock s grants pos forward v
step-IsKept policy (releases success) (s, grants) pos forward v = record {
  within = release-IsWithin policy success s v.within;
  newest = unfold release in (ground (arith, v.newest));
  spaced = v.spaced;
}
step-IsKept policy (fails now) (s, grants) pos forward v = record {
  within = register_error-IsWithin policy now s v.within;
  newest = unfold register_error in (ground (arith, v.newest));
  spaced = v.spaced;
}
step-IsKept policy (queries now) (s, grants) pos forward v = record {
  within = next_available_time-IsWithin policy now s v.within;
  newest = unfold next_available_time in (ground (arith, v.newest));
  spaced = v.spaced;
}

run-IsKept :
    (policy : DomainPolicy) (cs : List Call) (r : DomainState × List Grant)
    → 0 < policy.window
    → All IsForward cs
    → IsKept policy r
    → IsKept policy (run policy cs r)
unfolding run
run-IsKept policy [] r pos forward v = v
run-IsKept policy (c ∷ cs) r pos (first, forward) v =
    run-IsKept policy cs (step policy c r) pos forward (step-IsKept policy c r pos first v)

-- After any history of calls on a new domain, under one policy whose window has a length, where the
-- readings of each `acquire` up to its test do not go back, each grant was tested at least the
-- minimum delay after the time that the grant before it recorded, the requests in flight fit the
-- slots, and the grants counted in the window fit its budget.
pub run_limits :
    (policy : DomainPolicy) (cs : List Call)
    → 0 < policy.window
    → All IsForward cs
    → let (s, grants) = run policy cs (initial_state, []) in
      Spaced policy.min_delay grants
      × (s.inflight ≤ policy.concurrency_cap)
      × (s.window_count ≤ policy.budget_per_window)
run_limits policy cs pos forward =
    let v =
      run-IsKept policy cs (initial_state, []) pos forward
        (record { within = initial_state-IsWithin policy; newest = refl; spaced = tt }) in
    (v.spaced, v.within.slots, v.within.budget)
