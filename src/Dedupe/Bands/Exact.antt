-- ===== src/Dedupe/Bands/Exact.antt =====
-- Which scores fall into which band.
use apartment_finder.Prelude.{
  Bool, true, false, ◌≡◌, refl, ◌↔◌, String, string_eq, ◌==◌, arith, if◌then◌else◌, eq_iff,
}
use apartment_finder.Prelude.Order.{Order}
use apartment_finder.Prelude.Result.{ok}
use apartment_finder.Dedupe.Bands.{Thresholds, validate_thresholds, band_for_score}

abbrev pub band_of : Bool → Bool → String
band_of merge look = if merge then "auto_merge" else if look then "review" else "auto_separate"

-- The band of a score that reaches both thresholds, the lower one only, or none.
abbrev IsBand : String → Bool → Bool → Type 0
IsBand band merge look =
    ((band ≡ "auto_merge") ↔ (merge ≡ true))
    × ((band ≡ "review") ↔ ((look ≡ true) × (merge ≡ false)))
    × ((band ≡ "auto_separate") ↔ (look ≡ false))

differ : (a b : String) → (a == b) ≡ false → a ≡ b → ⊥
differ a b other e = ground (arith, other, (eq_iff a b).1 e)

band_of-IsBand :
    (merge look : Bool) → (merge ≡ true → look ≡ true) → IsBand (band_of merge look) merge look
band_of-IsBand true true h = (
  (λ e. refl, λ e. refl),
  (λ e. absurd (differ "auto_merge" "review" refl e), λ e. absurd (ground (arith, e))),
  (λ e. absurd (differ "auto_merge" "auto_separate" refl e), λ e. absurd (ground (arith, e))),
)
band_of-IsBand true false h = absurd (ground (arith, h refl))
band_of-IsBand false true h = (
  (λ e. absurd (differ "review" "auto_merge" refl e), λ e. absurd (ground (arith, e))),
  (λ e. (refl, refl), λ e. refl),
  (λ e. absurd (differ "review" "auto_separate" refl e), λ e. absurd (ground (arith, e))),
)
band_of-IsBand false false h = (
  (λ e. absurd (differ "auto_separate" "auto_merge" refl e), λ e. absurd (ground (arith, e))),
  (λ e. absurd (differ "auto_separate" "review" refl e), λ e. absurd (ground (arith, e))),
  (λ e. refl, λ e. refl),
)

-- With thresholds that the service accepts, each band is the one its threshold names: a score is
-- merged exactly if it reaches the threshold of a merge, it is left to a review exactly if it
-- reaches the threshold of a review and not the one of a merge, and it is kept separate exactly if
-- it does not reach the threshold of a review.
pub band_for_score_lem :
    {Score : Type 0} ⦃o : Order Score⦄ (zero one : Score) (thresholds : Thresholds Score)
    (score : Score)
    → validate_thresholds zero one thresholds ≡ ok tt
    → let band = band_for_score zero one thresholds score in
      ((band ≡ "auto_merge") ↔ (o.le? thresholds.auto_merge score ≡ true))
      × ((band ≡ "review")
          ↔ ((o.le? thresholds.review score ≡ true) × (o.le? thresholds.auto_merge score ≡ false)))
      × ((band ≡ "auto_separate") ↔ (o.le? thresholds.review score ≡ false))
unfolding validate_thresholds band_for_score
band_for_score_lem ⦃o⦄ zero one thresholds score valid =
    band_of-IsBand (o.le? thresholds.auto_merge score) (o.le? thresholds.review score) (λ merges.
      o.le_trans thresholds.review thresholds.auto_merge score (ground (arith, valid)) merges)
