-- ===== src/SearchSpecs/Models.antt =====
-- services/searchspec/models.py, over any type `F` of floats and `D` of dates.
use apartment_finder.Prelude.{String, Bool, Option, List}
use apartment_finder.Prelude.Dict.{Dict}
use apartment_finder.Common.Enums.{CommuteMode}

pub record CommuteMax (F : Type 0) : Type 0 where
  pub target_label : String
  pub mode : CommuteMode
  pub max_min : F

pub record SearchSpecHard (F D : Type 0) : Type 0 where
  pub price_max : Option F
  pub price_min : Option F
  pub beds_min : Option F
  pub baths_min : Option F
  pub neighborhoods_include : List String
  pub neighborhoods_exclude : List String
  pub commute_max : List (CommuteMax F)
  pub must_have : List String
  pub exclude : List String
  pub available_now : Option Bool
  pub move_in_after : Option D

pub record SearchSpecSoft (F : Type 0) : Type 0 where
  pub weights : Dict String F
  pub nice_to_have : List String
  pub vibe : List String

pub record SearchSpecExploration (F : Type 0) : Type 0 where
  pub pct : F
  pub rules : List String

-- `created_on` is `created_at.date()`.
pub record SearchSpec (F D : Type 0) : Type 0 where
  pub schema_version : String
  pub search_spec_id : String
  pub created_on : D
  pub raw_prompt : Option String
  pub hard : SearchSpecHard F D
  pub soft : SearchSpecSoft F
  pub exploration : SearchSpecExploration F
