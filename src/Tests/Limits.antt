-- ===== src/Tests/Limits.antt =====
-- The theorems on the rate limiter, the queue and the alerts at concrete values.
use mathlib.Core.List.{Perm}
use apartment_finder.Prelude.{
  ℕ, arith, ◌+◌, zero, suc, ◌≤◌, ◌<◌, ◌≡◌, refl, some, none, [], ◌∷◌, ◌++◌, true, false, All, List,
}
use apartment_finder.Prelude.Order.{IsSorted, nat_order, text_order, pair_order}
use apartment_finder.Common.Enums.{local}
use apartment_finder.Acquisition.RateLimiter.{acquire, initial_state, default_policy}
use apartment_finder.Acquisition.RateLimiter.Grants.{
  acquire_granted, acquire_refused_by_tick, acquire_retry, IsPast,
}
use apartment_finder.Acquisition.RateLimiter.Window.{IsWithin, acquire-IsWithin}
use apartment_finder.Acquisition.RateLimiter.Trace.{
  Call, acquires, releases, fails, run, Spaced, run_limits,
}
use apartment_finder.Acquisition.Queue.{QueueItem, queue_key, enqueue, pop_due}
use apartment_finder.Acquisition.Queue.Sorting.{enqueue_lem, pop_due_lem}
use apartment_finder.Alerts.Models.{AlertRecord, DispatchResult, answers}
use apartment_finder.Alerts.Repository.{AlertRepository, Ids}
use apartment_finder.Alerts.Delivery.{Request, serve, attempts_of, deliveries_of, serve_limits}
use apartment_finder.Tests.Data.{tight, recent, still, ticking, crawl}

granted : (acquire tight (λ n. 110) recent).0 ≡ none
unfolding acquire
granted = refl

acquire_granted_example :
    let s' = (acquire tight (λ n. 110) recent).1 in
    (0 < 2)
    × (◌≡◌ {A = ℕ} 110 110)
    × IsPast 10 (some 95) 110
    × IsPast 0 none 110
    × (s'.inflight ≡ 0 + 1)
    × (s'.last_request_at ≡ some 110)
    × (s'.error_count ≡ 0)
    × (s'.cooldown_until ≡ none)
acquire_granted_example = acquire_granted tight (λ n. 110) recent (omega arith) granted

acquire_refused_by_tick_example :
    (t : ℕ) × ((acquire default_policy ticking initial_state).0 ≡ some t)
    × (3 ≤ t)
    × ((acquire default_policy ticking initial_state).1.inflight ≡ 0)
    × ((acquire default_policy ticking initial_state).1.last_request_at ≡ none)
acquire_refused_by_tick_example =
    acquire_refused_by_tick default_policy ticking initial_state (omega arith)

waits : (acquire tight (λ n. 100) recent).0 ≡ some 105
unfolding acquire
waits = refl

acquire_retry_example : (acquire tight (λ n. 107) (acquire tight (λ n. 100) recent).1).0 ≡ none
acquire_retry_example =
    acquire_retry tight (λ n. 100) (λ n. 107) 105 recent (omega arith) (omega arith) waits
      (omega arith) refl

acquire-IsWithin_example : IsWithin tight (acquire tight still recent).1
acquire-IsWithin_example =
    acquire-IsWithin tight still recent (omega arith) (omega arith) (omega arith)
      (record { slots = omega arith; budget = omega arith })

-- The clock moves on before the test.
abbrev late : ℕ → ℕ
late zero = 9
late (suc n) = 10

abbrev calls : List Call
calls =
    acquires (λ _. 0)
    ∷ acquires ticking
    ∷ acquires late
    ∷ releases true
    ∷ fails 11
    ∷ acquires (λ _. 20)
    ∷ []

run_limits_example :
    let (s, grants) = run tight calls (initial_state, []) in
    Spaced 10 grants × (s.inflight ≤ 2) × (s.window_count ≤ 3)
run_limits_example = run_limits tight calls (omega arith) (
  (omega arith, omega arith),
  (
    (omega arith, omega arith),
    ((omega arith, omega arith), (tt, (tt, ((omega arith, omega arith), tt)))),
  ),
)

abbrev first : QueueItem
first = record { job_id = "t0"; task_id = "t0"; scheduled_at = 5 }

abbrev second : QueueItem
second = record { job_id = "t2"; task_id = "t2"; scheduled_at = 9 }

abbrev items : List QueueItem
items = first ∷ second ∷ []

enqueue_lem_example :
    IsSorted queue_key (enqueue crawl 5 items).1
    × Perm
        (enqueue crawl 5 items).1
        (record { job_id = "t1"; task_id = "t1"; scheduled_at = 5 } ∷ items)
enqueue_lem_example = enqueue_lem crawl 5 items

items-IsSorted : IsSorted queue_key items
items-IsSorted = ((refl, tt), (tt, tt))

pop_due_lem_example :
    let (due, remaining) = pop_due 7 items in
    Perm items (due ++ remaining)
    × All (λ item. item.scheduled_at ≤ 7) due
    × All (λ item. 7 < item.scheduled_at) remaining
    × IsSorted queue_key due
    × IsSorted queue_key remaining
pop_due_lem_example = pop_due_lem 7 items items-IsSorted

abbrev ids : Ids
ids = record {
  alert = λ spec change. change;
  attempt = λ key n. key;
  result = λ key n status. key;
  payload = λ alert channel. alert.alert_id;
}

abbrev alert : AlertRecord
alert = record {
  alert_id = "a1";
  search_spec_id = "s1";
  listing_id = "l1";
  listing_change_id = "c1";
  created_at = 0;
}

abbrev alerts : AlertRepository
alerts = record {
  alerts = ("a1", alert) ∷ [];
  by_key = [];
  dispatch_log = [];
  dispatch_state = [];
  match_log = [];
}

abbrev sent : DispatchResult
sent = record { success = true; retryable = false; error = none }

-- A channel that is missing at first, and then works.
abbrev requests : List Request
requests =
    record { channel = local; adapter = none; now = 1; alert_ids = "a1" ∷ "a1" ∷ [] }
    ∷ record {
      channel = local;
      adapter = some (λ n a. answers sent);
      now = 2;
      alert_ids = "a1" ∷ "a1" ∷ [];
    }
    ∷ []

serve_limits_example :
    let log = (serve ids 3 requests alerts).dispatch_log in
    (attempts_of "a1:local" log ≤ 3) × (deliveries_of "a1:local" log ≤ 1)
serve_limits_example = serve_limits ids 3 requests alerts "a1:local" refl refl
