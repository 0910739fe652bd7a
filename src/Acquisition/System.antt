-- ===== src/Acquisition/System.antt =====
-- What the scheduler and the worker share: the task repository, the queue, the audit log, the rate
-- limiter and the policies. A method is an action on this state that may raise; what was written
-- before a raise stays written.
use apartment_finder.Prelude.{ℕ, String, Option, List, [], ◌∷◌, ◌++◌, length, string_eq}
use apartment_finder.Prelude.Dict.{Dict}
use apartment_finder.Prelude.Result.{Result, ok, err}
use apartment_finder.Common.Json.{Json}
use apartment_finder.PolicyGate.Repository.{PolicyRepository}
use apartment_finder.Acquisition.Models.{TaskSpec, AuditLogRecord, Exn}
use apartment_finder.Acquisition.Queue.{QueueItem}
use apartment_finder.Acquisition.Queue as Queue
use apartment_finder.Acquisition.Repository.{TaskRepository}
use apartment_finder.Acquisition.Repository as Repository
use apartment_finder.Acquisition.RateLimiter.{RateLimiter, DomainPolicy, DomainState, on_domain}

-- `handled` lists the ids of the tasks that the handler was called with; the program keeps no such
-- list, and nothing reads it.
pub record System : Type 0 where
  pub repository : TaskRepository
  pub queue : List QueueItem
  pub audit : List AuditLogRecord
  pub limiter : RateLimiter
  pub policies : PolicyRepository
  pub handled : List String

abbrev pub Exec : Type 0 → Type 0
Exec A = System → Result Exn A × System

module _ {A : Type 0} where
  abbrev pub pure : A → Exec A
  pure a s = (ok a, s)

  abbrev pub raise : Exn → Exec A
  raise e s = (err e, s)

  abbrev pub gets : (System → A) → Exec A
  gets f s = (ok (f s), s)

infixl 5 ◌>>=◌ ◌>>◌
abbrev pub ◌>>=◌ : {A B : Type 0} → Exec A → (A → Exec B) → Exec B
◌>>=◌ m f s = let (r, s') = m s in elim r [ ok a ↦ f a s' | err e ↦ (err e, s') ]

abbrev pub ◌>>◌ : {A B : Type 0} → Exec A → Exec B → Exec B
m >> k = m >>= λ _. k

-- The calls on the parts of the state.
abbrev pub on_repository : {A : Type 0} → (TaskRepository → Result Exn A × TaskRepository) → Exec A
on_repository method s =
    let (r, repository) = method s.repository in (r, record s { repository = repository })

abbrev pub on_limiter :
    {A : Type 0} → String → (DomainPolicy → DomainState → A × DomainState) → Exec A
on_limiter domain method s =
    let (a, limiter) = on_domain domain method s.limiter in (ok a, record s { limiter = limiter })

abbrev pub add_task : TaskSpec → Exec (Unit {0})
add_task task s = (ok tt, record s { repository = Repository.add task s.repository })

abbrev pub enqueue_task : TaskSpec → ℕ → Exec (Unit {0})
enqueue_task task time s = (ok tt, record s { queue = (Queue.enqueue task time s.queue).1 })

-- What `uuid4()` and `datetime.now()` give for the n-th record of the log.
pub record Stamp : Type 0 where
  pub audit_id : String
  pub created_at : ℕ

abbrev pub new_entry :
    Stamp
    → (task_id policy_id : Json) (outcome : String) (params : Dict String Json) (attempt : ℕ)
      (error_class : Option String) (source_id domain : Json)
    → AuditLogRecord
new_entry stamp task_id policy_id outcome params attempt error_class source_id domain = record {
  audit_id = stamp.audit_id;
  task_id = task_id;
  policy_id = policy_id;
  outcome = outcome;
  params = params;
  error_class = error_class;
  attempt = attempt;
  source_id = source_id;
  domain = domain;
  created_at = stamp.created_at;
}

-- services/acquisition/audit.py
unfoldable pub log :
    (ℕ → Stamp)
    → (task_id policy_id : Json) (outcome : String) (params : Dict String Json) (attempt : ℕ)
      (error_class : Option String) (source_id domain : Json)
    → Exec (Unit {0})
log stamps task_id policy_id outcome params attempt error_class source_id domain s =
    let new =
      new_entry (stamps (length s.audit)) task_id policy_id outcome params attempt error_class
        source_id domain in
    (ok tt, record s { audit = s.audit ++ new ∷ [] })
