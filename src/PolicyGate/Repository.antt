-- ===== src/PolicyGate/Repository.antt =====
-- services/policy_gate/repository.py: the registered policies, one for each source.
use apartment_finder.Prelude.{String, Option, string_eq}
use apartment_finder.Prelude.Dict.{Dict, get, put}
use apartment_finder.Common.Enums.{PolicyStatus}
use apartment_finder.Common.Text.{text_or}

pub record SourcePolicyRecord : Type 0 where
  pub policy_id : String
  pub source_id : String
  pub policy_status : PolicyStatus

abbrev pub PolicyRepository : Type 0
PolicyRepository = Dict String SourcePolicyRecord

-- `fresh` is what `str(uuid4())` returns.
unfoldable pub upsert_policy :
    String
    → String
    → PolicyStatus
    → Option String
    → PolicyRepository
    → SourcePolicyRecord × PolicyRepository
upsert_policy fresh source_id policy_status policy_id policies = (new, put policies source_id new)
  where
    new : SourcePolicyRecord
    new = record {
      policy_id = text_or policy_id fresh;
      source_id = source_id;
      policy_status = policy_status;
    }

unfoldable pub get_policy : PolicyRepository → String → Option SourcePolicyRecord
get_policy policies source_id = get policies source_id
