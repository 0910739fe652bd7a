-- ===== src/Dedupe/Canonical.antt =====
-- CanonicalizationService of services/dedupe/service.py. Trust and confidence are floats in the code:
-- here any type with an order and a test of equality, so that a float that is not a number is not
-- modelled. The ids of changes and Python's `==` and `str` of a value are functions that stay open.
pub mod Winner
use text.Mathlib.Text.{starts_with}
use apartment_finder.Prelude.{
  ℕ, String, Bool, true, false, not, ◌&&◌, Option, none, some, List, [], ◌∷◌, ◌++◌, or_else,
  is_none, keep, if◌then◌else◌, ◌==◌, Eq, string_eq, nat_eq, map,
}
use apartment_finder.Prelude.Dict.{Dict, get, put}
use apartment_finder.Prelude.Order.{Order, nat_order, text_order, pair_order, sort_by}
use apartment_finder.Common.Json.{Json, null}
use apartment_finder.Facts.Store.{FactRecord, FactEvidenceLink}
use apartment_finder.Dedupe.Changes.{ListingChange, ListingChangeStore, record_change}

-- What canonicalization reads of a `ListingInput`.
pub record ListingInput : Type 0 where
  pub listing_id : String
  pub observation_id : String
  pub source_id : String
  pub observed_at : ℕ
  pub facts : List FactRecord
  pub evidence_links : List FactEvidenceLink

pub record Cluster : Type 0 where
  pub cluster_id : String
  pub members : List String

-- The tuple that is kept for a fact.
pub record Candidate (Score : Type 0) : Type 0 where
  pub trust : Score
  pub observed_at : ℕ
  pub confidence : Score
  pub fact_id : String
  pub value_json : Json

pub record CanonicalField (Score : Type 0) : Type 0 where
  pub field_path : String
  pub fact_id : String
  pub value_json : Json
  pub reason : String
  pub trust_score : Score
  pub observed_at : ℕ
  pub confidence : Score

-- `ordered[-1]`
unfoldable pub last : {A : Type 0} → List A → Option A
last [] = none
last (x ∷ []) = some x
last (x ∷ y ∷ ys) = last (y ∷ ys)

-- `ordered[-2] if len(ordered) > 1 else None`
unfoldable pub second_last : {A : Type 0} → List A → Option A
second_last [] = none
second_last (x ∷ []) = none
second_last (x ∷ y ∷ []) = some x
second_last (x ∷ y ∷ z ∷ zs) = second_last (y ∷ z ∷ zs)

-- `mapping.setdefault(k, []).append(v)`
abbrev pub append_to : {V : Type 0} → Dict String (List V) → String → V → Dict String (List V)
append_to d k v = put d k (or_else (get d k) [] ++ v ∷ [])

unfoldable pub add_links :
    List FactEvidenceLink → Dict String (List String) → Dict String (List String)
add_links [] mapping = mapping
add_links (link ∷ links) mapping = add_links links (append_to mapping link.fact_id link.evidence_id)

unfoldable pub evidence_map :
    List ListingInput → Dict String (List String) → Dict String (List String)
unfolding add_links
evidence_map [] mapping = mapping
evidence_map (listing ∷ listings) mapping =
    evidence_map listings (add_links listing.evidence_links mapping)

-- `not evidence_map.get(fact_id)`, negated.
abbrev pub has_evidence : Option (List String) → Bool
has_evidence none = false
has_evidence (some []) = false
has_evidence (some (e ∷ es)) = true

abbrev pub is_value : Json → Bool
is_value null = false
is_value _ = true

-- `{listing.listing_id: listing for listing in listing_inputs}`
unfoldable pub listing_map : List ListingInput → Dict String ListingInput → Dict String ListingInput
listing_map [] mapping = mapping
listing_map (listing ∷ listings) mapping =
    listing_map listings (put mapping listing.listing_id listing)

module _ {Score : Type 0} ⦃o : Order Score⦄ ⦃e : Eq Score⦄ (no_trust : Score)
    (to_score : String → Score) (source_trust : Dict String Score) where
  abbrev pub Rank : Type 0
  Rank = Score × (ℕ × (Score × String))

  abbrev pub ranking_tuple : Candidate Score → Rank
  ranking_tuple c = (c.trust, (c.observed_at, (c.confidence, c.fact_id)))

  abbrev pub ByField : Type 0
  ByField = Dict String (List (Candidate Score))

  abbrev pub candidate_of : ListingInput → FactRecord → String → Candidate Score
  candidate_of listing fact confidence = record {
    trust = or_else (get source_trust listing.source_id) no_trust;
    observed_at = fact.extracted_at;
    confidence = to_score confidence;
    fact_id = fact.fact_id;
    value_json = fact.value_json;
  }

  abbrev pub collect_confident :
      Dict String (List String) → ListingInput → FactRecord → Option String → ByField → ByField
  collect_confident evidence listing fact none fields = fields
  collect_confident evidence listing fact (some confidence) fields =
      if has_evidence (get evidence fact.fact_id)
      then append_to fields fact.field_path (candidate_of listing fact confidence)
      else fields

  unfoldable pub collect_fact :
      Dict String (List String) → ListingInput → FactRecord → ByField → ByField
  collect_fact evidence listing fact fields =
      if starts_with fact.field_path "/listing/" && is_value fact.value_json
      then collect_confident evidence listing fact fact.confidence fields
      else fields

  unfoldable pub collect_facts :
      Dict String (List String) → ListingInput → List FactRecord → ByField → ByField
  collect_facts evidence listing [] fields = fields
  collect_facts evidence listing (fact ∷ facts) fields =
      collect_facts evidence listing facts (collect_fact evidence listing fact fields)

  -- `none` is the KeyError of a member that is not among the listings.
  unfoldable pub collect_members :
      Dict String (List String) → Dict String ListingInput → List String → ByField → Option ByField
  collect_members evidence listings [] fields = some fields
  collect_members evidence listings (member ∷ members) fields = elim (get listings member) [
    | none ↦ none
    | some listing ↦
        collect_members evidence listings members
          (collect_facts evidence listing listing.facts fields)
  ]

  abbrev pub winner_reason : Candidate Score → Option (Candidate Score) → String
  winner_reason winner none = "only"
  winner_reason winner (some runner_up) =
      if not (winner.trust == runner_up.trust)
      then "trust"
      else if not (winner.observed_at == runner_up.observed_at)
      then "recency"
      else if not (winner.confidence == runner_up.confidence)
      then "confidence"
      else "tie_breaker"

  abbrev pub won :
      String → Option (Candidate Score) → Option (Candidate Score) → Option (CanonicalField Score)
  won field_path none runner_up = none
  won field_path (some winner) runner_up = some (record {
    field_path = field_path;
    fact_id = winner.fact_id;
    value_json = winner.value_json;
    reason = winner_reason winner runner_up;
    trust_score = winner.trust;
    observed_at = winner.observed_at;
    confidence = winner.confidence;
  })

  -- `none` is the IndexError of a field without candidates.
  unfoldable pub choose : String → List (Candidate Score) → Option (CanonicalField Score)
  choose field_path candidates =
      let ordered = sort_by {K = Rank} ranking_tuple candidates in
      won field_path (last ordered) (second_last ordered)

  abbrev pub with_field :
      String
      → Option (CanonicalField Score)
      → Option (Dict String (CanonicalField Score))
      → Option (Dict String (CanonicalField Score))
  with_field field_path none rest = none
  with_field field_path (some f) none = none
  with_field field_path (some f) (some rest) = some ((field_path, f) ∷ rest)

  unfoldable pub choose_all : ByField → Option (Dict String (CanonicalField Score))
  choose_all [] = some []
  choose_all ((field_path, candidates) ∷ fields) =
      with_field field_path (choose field_path candidates) (choose_all fields)

  unfoldable pub canonical_fields :
      Cluster → List ListingInput → Option (Dict String (CanonicalField Score))
  unfolding evidence_map listing_map collect_members collect_facts collect_fact choose_all choose
  canonical_fields cluster inputs =
      elim (collect_members (evidence_map inputs []) (listing_map inputs []) cluster.members []) [
        | none ↦ none
        | some fields ↦ choose_all fields
      ]
