-- ===== src/Acquisition/Validation.antt =====
-- services/acquisition/validation.py: what may enter the queue.
use apartment_finder.Prelude.{
  String, Bool, true, false, not, ◌||◌, List, [], ◌∷◌, ◌==◌, string_eq, if◌then◌else◌,
}
use apartment_finder.Prelude.Dict.{get}
use apartment_finder.Prelude.Result.{Result, ok, err, raise_if, ◌>>◌}
use apartment_finder.Common.Enums.{TaskType, crawl_task, scrape_task, task_eq}
use apartment_finder.Common.Json.{Json, null, obj, Fields, is_truthy, get_field, keys, or_null}
use apartment_finder.Common.Text.{truthy}
use apartment_finder.Acquisition.Models.{TaskSpec, Exn, queue_payload_error}

-- `task_type in FIRECRAWL_TASKS`
abbrev pub is_firecrawl : TaskType → Bool
is_firecrawl t = t == crawl_task || t == scrape_task

-- `key in ALLOWED_FORMATS`
abbrev pub is_allowed_format : String → Bool
is_allowed_format k = k == "html" || (k == "markdown" || k == "screenshot")

-- The keys that are not allowed formats.
unfoldable pub unknown_formats : List String → List String
unknown_formats [] = []
unknown_formats (k ∷ ks) =
    let rest = unknown_formats ks in if is_allowed_format k then rest else k ∷ rest

abbrev pub is_null : Json → Bool
is_null null = true
is_null _ = false

-- How a set of field names prints inside the message.
module _ (show_names : List String → String) where
  unfoldable pub validate_formats : Fields → Result Exn (Unit {0})
  unfolding unknown_formats
  validate_formats formats = elim (unknown_formats (keys formats)) [
    | [] ↦ ok tt
    | k ∷ ks ↦ err (queue_payload_error (show_names (k ∷ ks)))
  ]

  -- The tests on the payload of a Firecrawl task, from `payload.get("formats")` on.
  unfoldable pub validate_firecrawl : Json → Json → Result Exn (Unit {0})
  unfolding validate_formats get_field is_truthy
  validate_firecrawl (obj formats) change_tracking = do
    validate_formats formats
    raise_if (is_null change_tracking)
        (queue_payload_error "payload.change_tracking is required for Firecrawl tasks")
    raise_if (not (is_truthy (or_null (get_field formats "markdown"))))
        (queue_payload_error "change_tracking requires markdown format")
  validate_firecrawl _ change_tracking =
      err (queue_payload_error "payload.formats is required for Firecrawl tasks")

  unfoldable pub validate_queue_payload : TaskSpec → Result Exn (Unit {0})
  unfolding validate_firecrawl
  validate_queue_payload task = do
    raise_if (not (truthy task.policy_id))
        (queue_payload_error "policy_id is required before enqueue")
    raise_if (not (truthy task.domain)) (queue_payload_error "domain is required before enqueue")
    if is_firecrawl task.task_type
        then validate_firecrawl (or_null (get task.payload "formats"))
            (or_null (get task.payload "change_tracking"))
        else ok tt
