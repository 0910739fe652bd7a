-- ===== src/Acquisition/Models.antt =====
-- services/acquisition/models.py and errors.py.
use apartment_finder.Prelude.{ℕ, String, Option}
use apartment_finder.Prelude.Dict.{Dict}
use apartment_finder.Common.Enums.{TaskType}
use apartment_finder.Common.Json.{Json}

pub data TaskStatus : Type 0 where
  queued running succeeded failed denied : TaskStatus

-- Times are microseconds.
pub record TaskSpec : Type 0 where
  pub task_id : String
  pub task_type : TaskType
  pub source_id : String
  pub policy_id : String
  pub domain : String
  pub payload : Dict String Json
  pub status : TaskStatus
  pub attempt : ℕ
  pub max_attempts : ℕ
  pub scheduled_at : ℕ
  pub created_at : ℕ

pub record TaskTransition : Type 0 where
  pub task_id : String
  pub from_status : TaskStatus
  pub to_status : TaskStatus
  pub changed_at : ℕ

-- The raw payload of a rejected submission may put any value where a text is meant.
pub record AuditLogRecord : Type 0 where
  pub audit_id : String
  pub task_id : Json
  pub policy_id : Json
  pub outcome : String
  pub params : Dict String Json
  pub error_class : Option String
  pub attempt : ℕ
  pub source_id : Json
  pub domain : Json
  pub created_at : ℕ

-- The exceptions that travel through the acquisition code.
pub data Exn : Type 0 where
  key_error : Exn
  overflow_error : Exn
  value_error : String → Exn
  task_validation_error : String → Exn
  queue_payload_error : String → Exn
  adapter_validation_error : String → Exn
  upstream_rate_limit_error : String → Exn
  transient_network_error : String → Exn
  other_error : String → String → Exn
