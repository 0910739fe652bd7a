-- ===== src/Tests/Data.antt =====
-- Test data: a crawlable source, a task, a policy, and concrete functions for what the code calls.
use apartment_finder.Prelude.{ℕ, String, List, [], ◌∷◌, some}
use apartment_finder.Prelude.Dict.{Dict}
use apartment_finder.Prelude.Result.{Result, err}
use apartment_finder.Common.Enums.{crawl_allowed, manual_only, crawl_task}
use apartment_finder.Common.Json.{Json}
use apartment_finder.PolicyGate.Repository.{SourcePolicyRecord, PolicyRepository}
use apartment_finder.Acquisition.Models.{TaskSpec, queued}
use apartment_finder.Acquisition.RateLimiter.{DomainPolicy, DomainState, initial_state}
use apartment_finder.Acquisition.System.{System, Stamp}
use apartment_finder.Acquisition.Worker.{Outcome, transient}

abbrev pub crawlable : SourcePolicyRecord
crawlable = record { policy_id = "p1"; source_id = "zillow"; policy_status = crawl_allowed }

abbrev pub by_hand : SourcePolicyRecord
by_hand = record { policy_id = "p2"; source_id = "craigslist"; policy_status = manual_only }

abbrev pub policies : PolicyRepository
policies = ("zillow", crawlable) ∷ ("craigslist", by_hand) ∷ []

-- A task of a source that may be crawled, on its first attempt of three.
abbrev pub crawl : TaskSpec
crawl = record {
  task_id = "t1";
  task_type = crawl_task;
  source_id = "zillow";
  policy_id = "p1";
  domain = "zillow.com";
  payload = [];
  status = queued;
  attempt = 0;
  max_attempts = 3;
  scheduled_at = 5;
  created_at = 1;
}

abbrev pub forbidden : TaskSpec
forbidden = record crawl { source_id = "craigslist" }

-- A domain with a slot taken and 1024 errors in a row.
abbrev pub worn : DomainState
worn = record initial_state { error_count = 1024 }

abbrev pub system : TaskSpec → DomainState → System
system task domain_state = record {
  repository = record { tasks = (task.task_id, task) ∷ []; transitions = [] };
  queue = [];
  audit = [];
  limiter = record { policies = []; state = ("zillow.com", domain_state) ∷ [] };
  policies = policies;
  handled = [];
}

abbrev pub busy : DomainState
busy = record initial_state { inflight = 1 }

abbrev pub tight : DomainPolicy
tight = record {
  concurrency_cap = 2;
  min_delay = 10;
  error_backoff = 5;
  max_backoff = 60;
  budget_per_window = 3;
  window = 60;
}

abbrev pub recent : DomainState
recent = record initial_state {
  last_request_at = some 95;
  window_start = some 90;
  window_count = 1;
}

abbrev pub stamps : ℕ → Stamp
stamps n = record { audit_id = "audit"; created_at = n }

abbrev pub fails : TaskSpec → Outcome
fails task = transient "timeout"

abbrev pub show_names : List String → String
show_names names = "Unsupported format field(s)"

abbrev pub parse_task : Dict String Json → Result String TaskSpec
parse_task payload = err "not parsed"

-- A clock that stands still, and one that moves on at each reading.
abbrev pub still : ℕ → ℕ
still n = 100

abbrev pub ticking : ℕ → ℕ
ticking n = n
