-- ===== src/Acquisition/Repository.antt =====
-- services/acquisition/repository.py: the tasks by id, and the log of their status changes. A task
-- object is reached through its id, so that a change of the object is a change of the table.
use apartment_finder.Prelude.{ℕ, ◌+◌, String, Option, none, some, List, [], ◌∷◌, ◌++◌, string_eq}
use apartment_finder.Prelude.Dict.{Dict, get, put}
use apartment_finder.Prelude.Result.{Result, ok, err}
use apartment_finder.Acquisition.Models.{TaskSpec, TaskStatus, TaskTransition, Exn, key_error}

pub record TaskRepository : Type 0 where
  pub tasks : Dict String TaskSpec
  pub transitions : List TaskTransition

unfoldable pub add : TaskSpec → TaskRepository → TaskRepository
add task r = record r { tasks = put r.tasks task.task_id task }

unfoldable pub get_task : TaskRepository → String → Option TaskSpec
get_task r task_id = get r.tasks task_id

-- `self._tasks[task_id]`
abbrev pub or_key_error : {A : Type 0} → Option A → Result Exn A
or_key_error none = err key_error
or_key_error (some a) = ok a

abbrev pub transition : TaskSpec → String → TaskStatus → ℕ → TaskTransition
transition task task_id status changed_at = record {
  task_id = task_id;
  from_status = task.status;
  to_status = status;
  changed_at = changed_at;
}

unfoldable pub update_status :
    String → TaskStatus → ℕ → TaskRepository → Result Exn (Unit {0}) × TaskRepository
unfolding get_task
update_status task_id status changed_at r = elim (get_task r task_id) [
  | none ↦ (err key_error, r)
  | some task ↦ (
    ok tt,
    record {
      tasks = put r.tasks task_id (record task { status = status });
      transitions = r.transitions ++ transition task task_id status changed_at ∷ [];
    },
  )
]

unfoldable pub increment_attempt : String → TaskRepository → Result Exn ℕ × TaskRepository
unfolding get_task
increment_attempt task_id r = elim (get_task r task_id) [
  | none ↦ (err key_error, r)
  | some task ↦ (
    ok (task.attempt + 1),
    record r { tasks = put r.tasks task_id (record task { attempt = task.attempt + 1 }) },
  )
]
