-- ===== src/Alerts/Run.antt =====
-- `run` of services/alerts/service.py.
use apartment_finder.Prelude.{
  ℕ, ◌+◌, String, Bool, true, false, not, ◌||◌, Option, none, some, List, [], ◌∷◌, leb, ltb,
  if◌then◌else◌, string_eq,
}
use apartment_finder.Prelude.Dict.{values}
use apartment_finder.Prelude.Order.{sort_by, nat_order, text_order, pair_order}
use apartment_finder.Common.Text.{truthy}
use apartment_finder.Dedupe.Changes.{ListingChange, ListingChangeStore}
use apartment_finder.Alerts.Models.{AlertRecord, MatchLogEntry}
use apartment_finder.Alerts.Repository.{AlertRepository, Ids, add, record_match}

-- What is decided about a change: passed over, refused by the hard constraints, or a match.
pub data Verdict : Type 0 where
  skipped : String → Verdict
  filtered : List String → Verdict
  matched : List String → Verdict

-- One turn of the loop: on to the next change, a match with a new alert or not, or a KeyError.
pub data Turn : Type 0 where
  passed : Turn
  alerted : Bool → Turn
  crashed : Turn

abbrev pub turn_of : Option (AlertRecord × Bool) → Turn
turn_of none = crashed
turn_of (some (alert, is_new)) = alerted is_new

abbrev pub flags_or : List String → List String
flags_or [] = "hard_constraints_failed" ∷ []
flags_or (f ∷ fs) = f ∷ fs

-- `evaluate` stands for the ranking service's `evaluate_hard_constraints` on the search, and
-- `listing_of` for the table of listings.
module _ {Listing : Type 0} (ids : Ids) (listing_of : String → Option Listing)
    (evaluate : Listing → Bool × List String) (search_spec_id : String)
    (since now alert_limit : ℕ) where
  abbrev pub constrained : Bool × List String → Verdict
  constrained (true, flags) = matched flags
  constrained (false, flags) = filtered (flags_or flags)

  abbrev pub judged : Option Listing → Verdict
  judged none = skipped "listing_missing"
  judged (some listing) = constrained (evaluate listing)

  unfoldable pub verdict : ListingChange → Verdict
  verdict change =
      if ltb change.changed_at since
      then skipped "before_since"
      else if not (truthy change.change_id) || not (truthy change.listing_id)
      then skipped "invalid_listing_change"
      else judged (listing_of change.listing_id)

  abbrev pub entry : ListingChange → String → List String → MatchLogEntry
  entry change status reasons = record {
    listing_change_id = change.change_id;
    listing_id = change.listing_id;
    search_spec_id = search_spec_id;
    status = status;
    reasons = reasons;
    created_at = now;
  }

  -- A match is logged after its alert has been added, which may raise.
  abbrev pub log_matched :
      ListingChange
      → List String
      → Option (AlertRecord × Bool) × AlertRepository
      → Turn × AlertRepository
  log_matched change flags (none, r) = (crashed, r)
  log_matched change flags (some (alert, is_new), r) =
      (alerted is_new, record_match (entry change "matched" flags) r)

  abbrev pub act : ListingChange → Verdict → AlertRepository → Turn × AlertRepository
  act change (skipped reason) r = (passed, record_match (entry change "skipped" (reason ∷ [])) r)
  act change (filtered reasons) r = (passed, record_match (entry change "filtered" reasons) r)
  act change (matched flags) r =
      log_matched change flags (add ids search_spec_id change.listing_id change.change_id now r)

  unfoldable pub turn : ListingChange → AlertRepository → Turn × AlertRepository
  turn change r = act change (verdict change) r

  abbrev pub Loop : Type 0
  Loop = Option ℕ × AlertRepository

  abbrev pub counted : ℕ → Bool → ℕ
  counted created is_new = if is_new then created + 1 else created

  -- The limit is looked at after a match only.
  abbrev pub go_on : Turn → ℕ → AlertRepository → (ℕ → Loop) → Loop
  go_on passed created r rest = rest created
  go_on crashed created r rest = (none, r)
  go_on (alerted is_new) created r rest =
      if leb alert_limit (counted created is_new)
      then (some (counted created is_new), r)
      else rest (counted created is_new)

  unfoldable pub run_changes : List ListingChange → ℕ → AlertRepository → Loop
  unfolding turn
  run_changes [] created r = (some created, r)
  run_changes (change ∷ changes) created r =
      let (t, r') = turn change r in go_on t created r' (λ n. run_changes changes n r')

  abbrev pub change_key : ListingChange → ℕ × String
  change_key change = (change.changed_at, change.change_id)

  -- `known` says whether the search is there; a run of an unknown search raises KeyError too.
  unfoldable pub run : Bool → ListingChangeStore → AlertRepository → Loop
  unfolding run_changes
  run known changes r =
      if known
      then run_changes (sort_by {K = ℕ × String} change_key (values changes)) 0 r
      else (none, r)
