-- ===== src/Dedupe/Bands.antt =====
-- The thresholds and the decisions of DedupeService in services/dedupe/service.py. A score is a value
-- of any ordered type, `zero` and `one` its bounds.
pub mod Exact
use apartment_finder.Prelude.{
  ℕ, String, Bool, true, false, not, ◌&&◌, ◌==◌, List, [], ◌∷◌, keep, map, if◌then◌else◌, string_eq,
}
use apartment_finder.Prelude.Order.{Order, text_order, pair_order, sort_by}
use apartment_finder.Prelude.Dict.{Dict}
use apartment_finder.Prelude.Result.{Result, raise_if}

-- `DedupeConfig.thresholds`
pub record Thresholds (Score : Type 0) : Type 0 where
  pub auto_merge : Score
  pub review : Score

pub record ScoredPair (Score : Type 0) : Type 0 where
  pub left_id : String
  pub right_id : String
  pub features : Dict String Score
  pub score : Score
  pub model_version : String

pub record PairDecision (Score : Type 0) : Type 0 where
  pub left_id : String
  pub right_id : String
  pub score : Score
  pub band : String

pub record ReviewQueueItem (Score : Type 0) : Type 0 where
  pub left_id : String
  pub right_id : String
  pub score : Score

module _ {Score : Type 0} ⦃o : Order Score⦄ (zero one : Score) (thresholds : Thresholds Score) where
  unfoldable pub validate_thresholds : Result String (Unit {0})
  validate_thresholds =
      raise_if
        (not (
          o.le? zero thresholds.review
          && (o.le? thresholds.review thresholds.auto_merge && o.le? thresholds.auto_merge one)))
        "Threshold bands must satisfy 0 <= review <= auto_merge <= 1"

  unfoldable pub band_for_score : Score → String
  band_for_score score =
      if o.le? thresholds.auto_merge score
      then "auto_merge"
      else if o.le? thresholds.review score
      then "review"
      else "auto_separate"

  abbrev pub decision_for : ScoredPair Score → PairDecision Score
  decision_for pair = record {
    left_id = pair.left_id;
    right_id = pair.right_id;
    score = pair.score;
    band = band_for_score pair.score;
  }

  unfoldable pub decide : List (ScoredPair Score) → List (PairDecision Score)
  unfolding band_for_score
  decide pairs =
      sort_by {K = String × String} (λ d. (d.left_id, d.right_id)) (map decision_for pairs)

  -- `review_queue` of `run`.
  unfoldable pub review_queue : List (PairDecision Score) → List (ReviewQueueItem Score)
  review_queue decisions =
      map (λ d. record { left_id = d.left_id; right_id = d.right_id; score = d.score })
        (keep (λ d. d.band == "review") decisions)
