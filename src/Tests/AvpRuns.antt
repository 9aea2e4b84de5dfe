-- ===== src/Tests/AvpRuns.antt =====
-- The properties of the provider for Amazon Verified Permissions at a store with one policy.
use policy_conditions.Base.{ℕ, ◌+◌, ◌≤◌, Bool, false, ◌≡◌, refl, Option, none, some, List, [], ◌∷◌}
use policy_conditions.Base.Lists.{all}
use policy_conditions.Base.Text.{Text, codes}
use policy_conditions.Base.Except.{Except, raise, done}
use policy_conditions.Conditions.Walk.{AttributeMap}
use policy_conditions.Policy.Info.{PolicyInfo, MetaInfo, no_meta, with_etag}
use policy_conditions.Cedar.Scope
use policy_conditions.Cedar.Policies.{forbid, Annotations, no_annotations, CedarPolicy}
use policy_conditions.Avp.{static, PolicyItem, PolicyOutput, Client}
use policy_conditions.Avp.Reading.{map_avp_meta, get_policy_info}
use policy_conditions.Base.Dict
use policy_conditions.Base.Dict.{Dict}
use policy_conditions.Avp.Setting.{set_policy_info}
use policy_conditions.Avp.Unchanged.{set_policy_info-get_policy_info}
use policy_conditions.Tests.Sample.{sample}

abbrev first_bytes : Text → Text
first_bytes t = codes "x"

abbrev nothing_read : Text → Option Text
nothing_read t = none

abbrev own_names : AttributeMap
own_names = record { forward = []; reverse = [] }

abbrev without_annotations : MetaInfo → Annotations
without_annotations m = no_annotations

abbrev any_policy : CedarPolicy
any_policy = record {
  effect = forbid;
  annotations = [];
  principal_scope = Scope.all;
  action_scope = Scope.all;
  resource_scope = Scope.all;
  conditions = [];
}

abbrev parse_one : Text → Text → Except Text (List CedarPolicy)
parse_one location bytes = done (any_policy ∷ [])

abbrev item : PolicyItem
item = record {
  policy_id = codes "p1";
  store_id = some (codes "s");
  type = static;
  template_id = [];
  principal = [];
  resource = [];
  created = none;
  modified = none;
}

-- a store whose state counts the changing calls
abbrev one_policy : Client ℕ Text
one_policy = record {
  list_policies = λ s. done (item ∷ []);
  get_policy = λ s i. done (record { statement = codes "permit"; description = some (codes "d") });
  get_template_policy = λ s i. raise (codes "missing");
  create_policy = λ s input. (s + 1, done (codes "p2"));
  update_policy = λ s input. (s + 1, none);
  delete_policy = λ s input. (s + 1, none);
}

abbrev read_one : PolicyInfo
read_one = record {
  meta = record (map_avp_meta item) { description = codes "d" };
  subjects = some (codes "any" ∷ []);
  actions = some [];
  object = [];
  condition = none;
  scope = none;
}

one-is_read :
    get_policy_info sample first_bytes nothing_read ℕ Text parse_one (done one_policy) (codes "s") 0
    ≡ some (done (with_etag first_bytes read_one ∷ []))
unfolding get_policy_info policy_conditions.Cedar.Policies.map_cedar_policy
    policy_conditions.Cedar.FromCedar.map_cedar_condition_to_hexa
    policy_conditions.Cedar.Scope.map_cedar_scope policy_conditions.Avp.Reading.map_items
    policy_conditions.Avp.Reading.map_avp_policy_to_hexa
    policy_conditions.Cedar.Policies.map_cedar_policy_bytes
    policy_conditions.Cedar.Policies.map_until_error
one-is_read = refl

set_policy_info-get_policy_info_example :
    set_policy_info sample first_bytes nothing_read nothing_read own_names without_annotations ℕ
      Text parse_one
      (done one_policy)
      (codes "s")
      0
      (with_etag first_bytes read_one ∷ [])
    ≡ some (0, 200)
unfolding with_etag map_avp_meta
set_policy_info-get_policy_info_example =
    set_policy_info-get_policy_info sample first_bytes nothing_read nothing_read own_names
      without_annotations ℕ Text parse_one one_policy (codes "s") 0
      (with_etag first_bytes read_one ∷ []) one-is_read (codes "p1", refl, refl, tt)

abbrev other_policy : PolicyInfo
other_policy = record read_one { meta = no_meta }
