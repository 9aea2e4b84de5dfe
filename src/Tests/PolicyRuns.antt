-- ===== src/Tests/PolicyRuns.antt =====
-- The properties of policies at concrete policies.
use policy_conditions.Base.{
  Bool, true, false, ◌&&◌, ◌≡◌, refl, Option, none, some, List, [], ◌∷◌, if◌then◌else◌,
}
use policy_conditions.Base.Text.{Text, codes, text_eq, equal_fold}
use policy_conditions.Base.Dict
use policy_conditions.Policy.Info.{
  PolicyInfo, no_meta, ConditionInfo, ScopeInfo, calculate_etag, policy_bytes,
}
use policy_conditions.Policy.Equality.{
  Difference, equal, subject, action, object, condition, subjects_equal, actions_equal,
  object_equal, conditions_equal, policies_equal, compare,
}
use policy_conditions.Policy.Compare.{compare_added_condition, policies_equal_scopes}
use policy_conditions.Policy.Reconcile.{PolicyDif, reconcile}
use policy_conditions.Policy.Reconcile.Report.{
  HasSameEntries, changes, on_entries, reported, reconcile-diffs_only, reconcile-reported,
}
use policy_conditions.Policy.Reconcile.Same.{reconcile_self}
use policy_conditions.Tests.Sample.{sample}

abbrev same_bytes : Text → Text
same_bytes t = t

abbrev with_id : Text → Text → PolicyInfo
with_id i o = record {
  meta = record no_meta { policy_id = some i };
  subjects = some (codes "any" ∷ []);
  actions = some (codes "get" ∷ []);
  object = o;
  condition = none;
  scope = none;
}

abbrev without_id : PolicyInfo
without_id = record (with_id [] (codes "c")) { meta = no_meta }

abbrev before : List PolicyInfo
before = with_id (codes "1") (codes "a") ∷ with_id (codes "2") (codes "b") ∷ []

abbrev later : List PolicyInfo
later = with_id (codes "1") (codes "z") ∷ without_id ∷ []

abbrev entries : Option (List PolicyDif) → List PolicyDif
entries none = []
entries (some ds) = ds

report : List PolicyDif
unfolding reconcile
report = entries (reconcile sample same_bytes before later false)

report-reconcile : reconcile sample same_bytes before later false ≡ some report
unfolding report reconcile Dict.get Dict.put text_eq compare policies_equal calculate_etag
    policy_bytes policy_conditions.Policy.Json.json_strings policy_conditions.Base.Text.join
    subjects_equal equal_fold actions_equal object_equal
report-reconcile = refl

reconcile-reported_example : reported report ≡ later
unfolding report
reconcile-reported_example = reconcile-reported sample same_bytes before later report-reconcile

reconcile-diffs_only_example :
    HasSameEntries
      (reconcile sample same_bytes before later true)
      (on_entries changes (reconcile sample same_bytes before later false))
reconcile-diffs_only_example = reconcile-diffs_only sample same_bytes before later

reconcile_self_example : reconcile sample same_bytes before before true ≡ some []
unfolding text_eq
reconcile_self_example =
    reconcile_self sample same_bytes before (codes "1", refl, refl, (codes "2", refl, refl, tt))

abbrev rule_a : ConditionInfo
rule_a = record { rule = codes "a pr"; action = codes "allow" }

abbrev first : PolicyInfo
first = record (with_id (codes "1") (codes "a")) { condition = some rule_a }

abbrev second : PolicyInfo
second = record (with_id (codes "1") (codes "b")) { condition = some rule_a }

first-second-policies_equal : policies_equal sample same_bytes first second ≡ some false
unfolding policies_equal text_eq calculate_etag policy_bytes
    policy_conditions.Policy.Json.json_strings policy_conditions.Base.Text.join subjects_equal
    equal_fold actions_equal object_equal
first-second-policies_equal = refl

first-second-compare : compare sample same_bytes first second ≡ some (object ∷ [])
unfolding compare policies_equal text_eq calculate_etag policy_bytes
    policy_conditions.Policy.Json.json_strings policy_conditions.Base.Text.join subjects_equal
    equal_fold actions_equal object_equal policy_conditions.Policy.Equality.differences
    conditions_equal
first-second-compare = refl

subjects-same : subjects_equal without_id.subjects first.subjects ≡ true
unfolding subjects_equal equal_fold
subjects-same = refl

actions-same : actions_equal without_id.actions first.actions ≡ true
unfolding actions_equal equal_fold
actions-same = refl

object-same : object_equal (codes "a") first.object ≡ true
unfolding object_equal equal_fold
object-same = refl

compare_added_condition_example :
    compare sample same_bytes (with_id (codes "1") (codes "a")) first ≡ some (equal ∷ [])
compare_added_condition_example =
    compare_added_condition sample same_bytes (with_id (codes "1") (codes "a")) first rule_a refl
      refl subjects-same actions-same object-same

abbrev scope_a : ScopeInfo
scope_a = record { filter = some (codes "sql:a = 1"); attributes = none }

abbrev scope_b : ScopeInfo
scope_b = record { filter = some (codes "sql:b = 2"); attributes = none }

policies_equal_scopes_example :
    (calculate_etag same_bytes (record first { scope = some scope_a })
      ≡ calculate_etag same_bytes (record first { scope = some scope_b }))
    × (policies_equal sample same_bytes
          (record first { scope = some scope_a })
          (record first { scope = some scope_b })
        ≡ some true)
policies_equal_scopes_example = policies_equal_scopes sample same_bytes first scope_a scope_b
