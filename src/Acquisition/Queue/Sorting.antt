-- ===== src/Acquisition/Queue/Sorting.antt =====
-- The queue is always in order, and nothing is lost or made up.
use mathlib.Core.List.{Perm, perm_append_singleton}
use mathlib.Core.List.Perm
use apartment_finder.Prelude.{
  ℕ, ◌≤◌, ◌<◌, List, [], ◌∷◌, ◌++◌, arith, leb, Bool, not, keep, keep-All, keep_mono,
  partition-perm, All, All-mono, leb→le, Bool-cases, inl, inr,
}
use apartment_finder.Prelude.Order.{
  nat_order, text_order, pair_order, Before, IsSorted, sort_by-IsSorted, sort_by-perm,
}
use apartment_finder.Acquisition.Models.{TaskSpec}
use apartment_finder.Acquisition.Queue.{QueueItem, queue_key, enqueue, pop_due}

-- The queue after an enqueue is in order and holds the old items and the new one, which carries the
-- task's id and the given time.
pub enqueue_lem :
    (task : TaskSpec) (time : ℕ) (items : List QueueItem)
    → IsSorted queue_key (enqueue task time items).1
      × Perm
          (enqueue task time items).1
          (record { job_id = task.task_id; task_id = task.task_id; scheduled_at = time } ∷ items)
unfolding enqueue
enqueue_lem task time items =
    let item : QueueItem = record {
      job_id = task.task_id;
      task_id = task.task_id;
      scheduled_at = time;
    } in
    (
      sort_by-IsSorted queue_key (items ++ item ∷ []),
      Perm.trans (sort_by-perm queue_key (items ++ item ∷ [])) (perm_append_singleton item items),
    )

keep-IsSorted :
    (p : QueueItem → Bool) (xs : List QueueItem)
    → IsSorted queue_key xs
    → IsSorted queue_key (keep p xs)
unfolding keep
keep-IsSorted p [] h = tt
keep-IsSorted p (x ∷ xs) h =
    let rest = keep-IsSorted p xs h.1 in
    let first = keep_mono p (Before queue_key x) xs h.0 in
    elim (Bool-cases (p x)) [ inl t ↦ rw t (first, rest) | inr f ↦ rw f rest ]

-- Popping splits an ordered queue into what is due and what is not: both parts are in order, every
-- item is in one of them, everything handed out is due and everything kept is later.
pub pop_due_lem :
    (now : ℕ) (items : List QueueItem)
    → IsSorted queue_key items
    → let (due, remaining) = pop_due now items in
      Perm items (due ++ remaining)
      × All (λ item. item.scheduled_at ≤ now) due
      × All (λ item. now < item.scheduled_at) remaining
      × IsSorted queue_key due
      × IsSorted queue_key remaining
unfolding pop_due
pop_due_lem now items sorted =
    let p : QueueItem → Bool = λ item. leb item.scheduled_at now in
    (
      partition-perm p items,
      All-mono _ _ (keep p items) (λ x h. leb→le x.scheduled_at now h) (keep-All p items),
      All-mono _ _ (keep (λ x. not (p x)) items) (λ x h. ground arith)
          (keep-All (λ x. not (p x)) items),
      keep-IsSorted p items sorted,
      keep-IsSorted (λ x. not (p x)) items sorted,
    )
