-- ===== src/Dedupe/Canonical/Winner.antt =====
-- No candidate ranks above the one that is chosen.
use mathlib.Core.Path.{subst}
use apartment_finder.Prelude.{
  ℕ, ◌≡◌, String, true, some, List, [], ◌∷◌, All, arith, Eq, string_eq, Option-cases, inl, inr,
}
use apartment_finder.Prelude.Dict.{Dict}
use apartment_finder.Prelude.Order.{
  Order, nat_order, text_order, pair_order, sort_by, IsSorted, Before, sort_by-IsSorted,
  All-of_sort_by,
}
use apartment_finder.Dedupe.Canonical.{Candidate, CanonicalField, last, choose, ranking_tuple}

last-All : {A : Type 0} (P : A → Type 0) (xs : List A) {w : A} → last xs ≡ some w → All P xs → P w
unfolding last
last-All P [] e h = cc
last-All P (x ∷ []) e h = ground (arith, h.0)
last-All P (x ∷ y ∷ ys) e h = last-All P (y ∷ ys) e h.1

module _ {A K : Type 0} ⦃o : Order K⦄ where
  last-IsSorted :
      (key : A → K) (xs : List A) {w : A}
      → last xs ≡ some w
      → IsSorted key xs
      → All (λ d. Before key d w) xs
  unfolding last
  last-IsSorted key [] e h = tt
  last-IsSorted key (x ∷ []) {w} e h = (ground (arith, o.le_total (key x) (key x)), tt)
  last-IsSorted key (x ∷ y ∷ ys) e h =
      (last-All (Before key x) (y ∷ ys) e h.0, last-IsSorted key (y ∷ ys) e h.1)

module _ {Score : Type 0} ⦃o : Order Score⦄ ⦃e : Eq Score⦄ (no_trust : Score)
    (to_score : String → Score) (source_trust : Dict String Score) where
  -- The tuple by which a canonical field was ranked.
  abbrev pub rank_of : CanonicalField Score → Score × (ℕ × (Score × String))
  rank_of f = (f.trust_score, (f.observed_at, (f.confidence, f.fact_id)))

  -- No candidate for a field ranks above the one that is chosen, by trust, then by the time of the
  -- observation, then by confidence, then by the fact's id.
  pub choose_lem :
      (path : String) (candidates : List (Candidate Score)) {f : CanonicalField Score}
      → choose no_trust to_score source_trust path candidates ≡ some f
      → All
          (λ c. pair_order.le? (ranking_tuple no_trust to_score source_trust c) (rank_of f) ≡ true)
          candidates
  unfolding choose
  choose_lem path candidates {f} chosen =
      let key = ranking_tuple no_trust to_score source_trust in
      let ordered = sort_by {K = Score × (ℕ × (Score × String))} key candidates in
      elim (Option-cases (last ordered)) [
        | inl missing ↦ absurd (ground (arith, missing))
        | inr (w, found) ↦
            let ranked : key w ≡ rank_of f = ground (arith, found) in
            All-of_sort_by (λ c. pair_order.le? (key c) (rank_of f) ≡ true) key candidates
              (subst (λ r. All (λ c. pair_order.le? (key c) r ≡ true) ordered) ranked
                (last-IsSorted key ordered found (sort_by-IsSorted key candidates)))
      ]
