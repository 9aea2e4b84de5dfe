-- ===== src/Cedar/Policies.antt =====
-- models/formats/cedar/cedar_mapper.go: whole policies, between Cedar and IDQL. The parser of Cedar, of another
-- package, gives the policies as their JSON trees; the annotations of a policy stand in the order of the map's iteration.
pub mod Dropped
pub mod Written
use policy_conditions.Base.{ℕ, Option, none, some, List, [], ◌∷◌, ◌++◌, map, if◌then◌else◌}
use policy_conditions.Base.Text.{Text, codes, equal_fold}
use policy_conditions.Base.Except.{Except, raise, done}
use policy_conditions.Types.Platform.{Platform}
use policy_conditions.Conditions.Walk.{AttributeMap}
use policy_conditions.Policy.Info.{Slice, ConditionInfo, PolicyInfo, MetaInfo, no_meta, elements}
use policy_conditions.Cedar.Conditions.{map_condition_to_cedar}
use policy_conditions.Gcp.Cel.{MapError}
use policy_conditions.Cedar.FromCedar.Tree.{ConditionJson}
use policy_conditions.Cedar.FromCedar.Leaves.{CedarError}
use policy_conditions.Cedar.FromCedar.{map_cedar_condition_to_hexa}
use policy_conditions.Cedar.Scope.{
  Verb, principal, action, resource, Scope, map_cedar_scope, map_hexa_value,
}

-- `PolicyJSON`; the annotations are a part of the policy beside it.
pub data Effect : Type 0 where
  permit forbid : Effect

pub record CedarPolicy : Type 0 where
  pub effect : Effect
  pub annotations : List (Text × Text)
  pub principal_scope : Scope
  pub action_scope : Scope
  pub resource_scope : Scope
  pub conditions : List ConditionJson

-- `mapCedarSubject`
unfoldable map_cedar_subject : Scope → List Text
unfolding map_cedar_scope
map_cedar_subject s = elim (map_cedar_scope principal s) [ [] ↦ codes "any" ∷ [] | t ∷ ts ↦ t ∷ ts ]

abbrev first_or_empty : List Text → Text
first_or_empty [] = []
first_or_empty (t ∷ ts) = t

-- `mapCedarResource`
unfoldable map_cedar_resource : Scope → Text
unfolding map_cedar_scope
map_cedar_resource s = first_or_empty (map_cedar_scope resource s)

-- What `SourceData` holds under `annotations`: nothing, the map of a Cedar policy as `mapCedarAnnotations`
-- stores it, or a `map[string]interface{}`, such as one that JSON is read into, with its values as `%s`
-- prints them.
pub data Annotations : Type 0 where
  no_annotations : Annotations
  of_cedar of_json : List (Text × Text) → Annotations

-- `mapCedarAnnotations`
unfoldable pub map_cedar_annotations : List (Text × Text) → Annotations
map_cedar_annotations [] = no_annotations
map_cedar_annotations (a ∷ as') = of_cedar (a ∷ as')

unfoldable annotation_lines : List (Text × Text) → Text
annotation_lines [] = []
annotation_lines ((k, v) ∷ rest) =
    codes "@" ++ (k ++ (codes "(\"" ++ (v ++ (codes "\")\n" ++ annotation_lines rest))))

-- `mapHexaAnnotations`. The assertion that the value is a `map[string]interface{}` fails for the map of a
-- Cedar policy, which is of a type of its own.
unfoldable pub annotation_texts : Annotations → Text
unfolding annotation_lines
annotation_texts no_annotations = []
annotation_texts (of_cedar as') = []
annotation_texts (of_json as') = annotation_lines as'

-- `mapHexaSubjects`
unfoldable pub map_hexa_subjects : Slice Text → List Text
unfolding map_hexa_value
map_hexa_subjects none = []
map_hexa_subjects (some []) = codes "principal," ∷ []
map_hexa_subjects (some (m ∷ ms)) =
    if equal_fold m (codes "any")
    then codes "principal," ∷ []
    else map (map_hexa_value principal) (m ∷ ms)

abbrev actions_after : List Text → Text
actions_after [] = []
actions_after (a ∷ rest) = codes "," ++ (map_hexa_value action a ++ actions_after rest)

-- `mapHexaAction`
unfoldable pub map_hexa_action : Slice Text → Text
unfolding map_hexa_value
map_hexa_action none = codes "action,"
map_hexa_action (some []) = codes "action,"
map_hexa_action (some (a ∷ [])) = codes "action == " ++ (map_hexa_value action a ++ codes ",")
map_hexa_action (some (a ∷ b ∷ rest)) =
    codes "action in [" ++ (map_hexa_value action a ++ (actions_after (b ∷ rest) ++ codes "],"))

abbrev below : Text → Text
below [] = []
below (c ∷ cs) = codes "\n" ++ (c ∷ cs)

-- `writeCedarPolicy`
unfoldable pub write_cedar_policy : Text → Text → Text → Text → Text → Text
write_cedar_policy annotations subject actions object conditions =
    annotations
    ++ (codes "permit (\n  "
        ++ (subject
            ++ (codes "\n  "
                ++ (actions
                    ++ (codes "\n  "
                        ++ (object ++ (codes "\n)" ++ (below conditions ++ codes ";\n"))))))))

-- one policy for each subject
unfoldable write_all : Text → List Text → Text → Text → Text → Text
unfolding write_cedar_policy
write_all annotations [] actions object conditions = []
write_all annotations (s ∷ ss) actions object conditions =
    write_cedar_policy annotations s actions object conditions
    ++ write_all annotations ss actions object conditions

-- A policy with the annotations that `SourceData` has for it
abbrev pub Annotated : Type 0
Annotated = PolicyInfo × Annotations

-- `unquote` stands for `strconv.Unquote`, none for its error.
module _ (P : Platform) (unquote : Text → Option Text) where
  -- `MapCedarPolicy`, none where it panics. The effect is not read.
  unfoldable pub map_cedar_policy : CedarPolicy → Option (Except CedarError Annotated)
  unfolding map_cedar_condition_to_hexa map_cedar_subject map_cedar_scope map_cedar_resource
      map_cedar_annotations
  map_cedar_policy c = elim (map_cedar_condition_to_hexa P unquote c.conditions) [
    | none ↦ none
    | some (condition, some e) ↦ some (raise e)
    | some (condition, none) ↦ some (
        done (
          record {
            meta = record no_meta { version = codes "0.7" };
            subjects = some (map_cedar_subject c.principal_scope);
            actions = some (map_cedar_scope action c.action_scope);
            object = map_cedar_resource c.resource_scope;
            condition = condition;
            scope = none;
          },
          map_cedar_annotations c.annotations,
        ))
  ]

  -- The loop of `MapCedarPolicyBytes`. It ends at the first error, which is of a variable of the loop.
  unfoldable pub map_until_error : List CedarPolicy → Option (List Annotated)
  unfolding map_cedar_policy
  map_until_error [] = some []
  map_until_error (c ∷ cs) =
      let rest = map_until_error cs in
      elim (map_cedar_policy c) [
        | none ↦ none
        | some (raise e) ↦ some []
        | some (done p) ↦ elim rest [ none ↦ none | some ps ↦ some (p ∷ ps) ]
      ]

  -- `MapCedarPolicyBytes`, with the location of the application; `parse` stands for
  -- `cedar.NewPolicyListFromBytes`.
  unfoldable pub map_cedar_policy_bytes :
      {Error : Type 0}
      → (Text → Text → Except Error (List CedarPolicy))
      → Text
      → Text
      → Option (Except Error (List Annotated × Text))
  unfolding map_until_error
  map_cedar_policy_bytes parse location bytes = elim (parse location bytes) [
    | raise e ↦ some (raise e)
    | done cs ↦ elim (map_until_error cs) [ none ↦ none | some ps ↦ some (done (ps, location)) ]
  ]

-- `unquote` stands for `strconv.Unquote`, none for its error, and `decimal` for `types.ParseDecimal` of
-- cedar-go, with the text of the decimal.
module _ (P : Platform) (unquote decimal : Text → Option Text) (n : AttributeMap) where
  -- `MapHexaPolicy`, none where it panics
  unfoldable pub map_hexa_policy : Annotated → Option (Except MapError Text)
  unfolding map_condition_to_cedar annotation_texts map_hexa_subjects map_hexa_action map_hexa_value
      write_all
  map_hexa_policy (p, stored) = elim (map_condition_to_cedar unquote decimal P n p.condition) [
    | none ↦ none
    | some (raise e) ↦ some (raise e)
    | some (done conditions) ↦ some (
        done (
          write_all (annotation_texts stored) (map_hexa_subjects p.subjects)
            (map_hexa_action p.actions) (map_hexa_value resource p.object) conditions))
  ]

  -- `MapHexaPolicies`
  unfoldable pub map_hexa_policies : List Annotated → Option (Except MapError Text)
  unfolding map_hexa_policy
  map_hexa_policies [] = some (done [])
  map_hexa_policies (p ∷ ps) =
      let rest = map_hexa_policies ps in
      elim (map_hexa_policy p) [
        | none ↦ none
        | some (raise e) ↦ some (raise e)
        | some (done t) ↦ elim rest [
          | none ↦ none
          | some (raise e) ↦ some (raise e)
          | some (done ts) ↦ some (done (t ++ ts))
        ]
      ]
