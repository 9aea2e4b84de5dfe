-- ===== src/Policy/Info.antt =====
-- The records of a policy, and its etag.
use policy_conditions.Base.{ℕ, Option, none, some, List, [], ◌∷◌, ◌++◌, ◌==◌, if◌then◌else◌}
use policy_conditions.Base.Lists.{length, slice}
use policy_conditions.Base.Text.{Text, codes, join}
use policy_conditions.Base.Dict.{Dict}
use policy_conditions.Policy.Json.{json_string, json_strings, json_field}

-- A Go slice, nil or a list.
abbrev pub Slice {ℓ} : Type ℓ → Type ℓ
Slice A = Option (List A)

abbrev pub elements {ℓ} : {A : Type ℓ} → Slice A → List A
elements none = []
elements (some xs) = xs

-- `ConditionInfo`
pub record ConditionInfo : Type 0 where
  pub rule : Text
  pub action : Text

-- `ScopeInfo`
pub record ScopeInfo : Type 0 where
  pub filter : Option Text
  pub attributes : Slice Text

-- `MetaInfo`. The times are numbers, and the values of `SourceData` their texts.
pub record MetaInfo : Type 0 where
  pub version : Text
  pub source_data : Dict Text
  pub description : Text
  pub created : Option ℕ
  pub modified : Option ℕ
  pub etag : Text
  pub policy_id : Option Text
  pub pap_id : Option Text
  pub provider_type : Text

-- `PolicyInfo`
pub record PolicyInfo : Type 0 where
  pub meta : MetaInfo
  pub subjects : Slice Text
  pub actions : Slice Text
  pub object : Text
  pub condition : Option ConditionInfo
  pub scope : Option ScopeInfo

abbrev pub no_meta : MetaInfo
no_meta = record {
  version = [];
  source_data = [];
  description = [];
  created = none;
  modified = none;
  etag = [];
  policy_id = none;
  pap_id = none;
  provider_type = [];
}

-- `json.Marshal(p.Condition)`
condition_json : Option ConditionInfo → Text
condition_json none = codes "null"
condition_json (some c) =
    b'{'
    ∷ (join (codes ",") (json_field (codes "Rule") c.rule ++ json_field (codes "Action") c.action)
        ++ codes "}")

condition_bytes : Option ConditionInfo → Text
unfolding condition_json
condition_bytes none = []
condition_bytes (some c) = condition_json (some c)

-- `scopeBytes`: where there is a scope, the source marshals the condition once more.
scope_bytes : Option ScopeInfo → Option ConditionInfo → Text
unfolding condition_json
scope_bytes none c = []
scope_bytes (some s) c = condition_json c

-- `policyBytes`
unfoldable pub policy_bytes : PolicyInfo → Text
unfolding condition_bytes scope_bytes
policy_bytes p =
    json_strings p.subjects
    ++ (json_strings p.actions
        ++ (json_string p.object
            ++ (condition_bytes p.condition ++ scope_bytes p.scope p.condition)))

-- A quoted text without its quotes.
unquoted_etag : Text → Text
unquoted_etag [] = []
unquoted_etag (c ∷ cs) = if c == b'"' then slice (c ∷ cs) 1 (length cs) else c ∷ cs

-- `generate` stands for `etag.Generate(bytes, false)`, of another package.
module _ (generate : Text → Text) where
  -- The value that `CalculateEtag` returns
  unfoldable pub calculate_etag : PolicyInfo → Text
  unfolding unquoted_etag
  calculate_etag p = unquoted_etag (generate (policy_bytes p))

  -- The policy that it leaves
  unfoldable pub with_etag : PolicyInfo → PolicyInfo
  with_etag p = record p { meta = record p.meta { etag = calculate_etag p } }

  -- `Policies.CalculateEtags`
  unfoldable pub calculate_etags : List PolicyInfo → List PolicyInfo
  unfolding with_etag
  calculate_etags [] = []
  calculate_etags (p ∷ ps) = with_etag p ∷ calculate_etags ps
