-- ===== src/Alerts/Models.antt =====
-- services/alerts/models.py, dispatchers.py and the records of repository.py.
use apartment_finder.Prelude.{ℕ, String, Bool, true, false, Option, List}
use apartment_finder.Common.Enums.{AlertChannel}

pub data DispatchStatus : Type 0 where
  pending succeeded retrying failed : DispatchStatus

abbrev pub is_pending : DispatchStatus → Bool
is_pending pending = true
is_pending _ = false

abbrev pub is_succeeded : DispatchStatus → Bool
is_succeeded succeeded = true
is_succeeded _ = false

-- Times are microseconds.
pub record AlertRecord : Type 0 where
  pub alert_id : String
  pub search_spec_id : String
  pub listing_id : String
  pub listing_change_id : String
  pub created_at : ℕ

pub record DispatchLogEntry : Type 0 where
  pub dispatch_id : String
  pub alert_id : String
  pub listing_change_id : String
  pub search_spec_id : String
  pub channel : AlertChannel
  pub payload_hash : String
  pub idempotency_key : String
  pub status : DispatchStatus
  pub attempt : ℕ
  pub error : Option String
  pub created_at : ℕ

pub record MatchLogEntry : Type 0 where
  pub listing_change_id : String
  pub listing_id : String
  pub search_spec_id : String
  pub status : String
  pub reasons : List String
  pub created_at : ℕ

pub record DispatchState : Type 0 where
  pub attempts : ℕ
  pub succeeded : Bool
  pub terminal_failure : Bool

-- `DispatchState()`
abbrev pub initial_state : DispatchState
initial_state = record { attempts = 0; succeeded = false; terminal_failure = false }

pub record DispatchReservation : Type 0 where
  pub idempotency_key : String
  pub attempt : ℕ

pub record DispatchResult : Type 0 where
  pub success : Bool
  pub retryable : Bool
  pub error : Option String

-- How a channel's adapter ends: a result, an AlertDispatchError, or another exception.
pub data Answer : Type 0 where
  answers : DispatchResult → Answer
  raises_dispatch_error : String → Bool → Answer
  raises : String → Answer
