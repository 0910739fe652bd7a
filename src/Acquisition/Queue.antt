-- ===== src/Acquisition/Queue.antt =====
-- services/acquisition/queue.py: the in-memory queue, kept in the order of (scheduled_at, task_id).
pub mod Sorting
use apartment_finder.Prelude.{ℕ, String, List, [], ◌∷◌, ◌++◌, leb, not, keep}
use apartment_finder.Prelude.Order.{nat_order, text_order, pair_order, sort_by}
use apartment_finder.Acquisition.Models.{TaskSpec}

pub record QueueItem : Type 0 where
  pub job_id : String
  pub task_id : String
  pub scheduled_at : ℕ

abbrev pub queue_key : QueueItem → ℕ × String
queue_key item = (item.scheduled_at, item.task_id)

unfoldable pub enqueue : TaskSpec → ℕ → List QueueItem → String × List QueueItem
unfolding sort_by
enqueue task scheduled_at items = (task.task_id, sort_by queue_key (items ++ item ∷ []))
  where
    item : QueueItem
    item = record { job_id = task.task_id; task_id = task.task_id; scheduled_at = scheduled_at }

-- What is due, and what remains.
unfoldable pub pop_due : ℕ → List QueueItem → List QueueItem × List QueueItem
unfolding keep
pop_due now items = (
  keep (λ item. leb item.scheduled_at now) items,
  keep (λ item. not (leb item.scheduled_at now)) items,
)
