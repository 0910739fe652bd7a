-- ===== src/Common/Enums.antt =====
-- services/common/enums.py: the enumerations, and their equality tests.
use Prim.Native.Nat.{ℕ}
use apartment_finder.Prelude.{◌≡◌, ◌↔◌, Bool, true, String, arith, Eq, nat_beq}

pub data PolicyStatus : Type 0 where
  crawl_allowed partner_required manual_only unknown : PolicyStatus

pub data TaskType : Type 0 where
  search_task map_task crawl_task scrape_task import_task : TaskType

pub data EvidenceKind : Type 0 where
  text_span image_region : EvidenceKind

pub data CommuteMode : Type 0 where
  transit walk bike drive : CommuteMode

pub data AlertChannel : Type 0 where
  local smtp : AlertChannel

abbrev status_code : PolicyStatus → ℕ
status_code crawl_allowed = 0
status_code partner_required = 1
status_code manual_only = 2
status_code unknown = 3

abbrev task_code : TaskType → ℕ
task_code search_task = 0
task_code map_task = 1
task_code crawl_task = 2
task_code scrape_task = 3
task_code import_task = 4

abbrev pub status_beq : PolicyStatus → PolicyStatus → Bool
status_beq a b = nat_beq (status_code a) (status_code b)

abbrev pub task_beq : TaskType → TaskType → Bool
task_beq a b = nat_beq (task_code a) (task_code b)

pub status_beq_iff : (a b : PolicyStatus) → (status_beq a b ≡ true) ↔ (a ≡ b)
status_beq_iff a b = ground arith

pub task_beq_iff : (a b : TaskType) → (task_beq a b ≡ true) ↔ (a ≡ b)
task_beq_iff a b = ground arith

instance abbrev pub status_eq : Eq PolicyStatus
status_eq = record { beq = status_beq; beq_iff = status_beq_iff }

instance abbrev pub task_eq : Eq TaskType
task_eq = record { beq = task_beq; beq_iff = task_beq_iff }

-- `.value`
abbrev pub status_value : PolicyStatus → String
status_value crawl_allowed = "crawl_allowed"
status_value partner_required = "partner_required"
status_value manual_only = "manual_only"
status_value unknown = "unknown"

abbrev pub task_value : TaskType → String
task_value search_task = "SearchTask"
task_value map_task = "MapTask"
task_value crawl_task = "CrawlTask"
task_value scrape_task = "ScrapeTask"
task_value import_task = "ImportTask"

abbrev pub mode_value : CommuteMode → String
mode_value transit = "transit"
mode_value walk = "walk"
mode_value bike = "bike"
mode_value drive = "drive"

abbrev pub channel_value : AlertChannel → String
channel_value local = "local"
channel_value smtp = "smtp"
