-- ===== src/Policy/Equality.antt =====
-- `Equals` and `Compare` of policies and of their parts.
pub mod Rules
use policy_conditions.Base.{
  ℕ, Bool, true, false, not, ◌&&◌, ◌||◌, Option, none, some, List, [], ◌∷◌, ◌++◌, ◌==◌,
  if◌then◌else◌,
}
use policy_conditions.Base.Lists.{length, is_empty, any, all, drop}
use policy_conditions.Base.Sort.{sort_texts}
use policy_conditions.Base.Text.{Text, codes, text_eq, equal_fold, to_lower, split}
use policy_conditions.Types.Platform.{Platform}
use policy_conditions.Conditions.Walk.{compare_walk}
use policy_conditions.Parser.Result.{Result, ok, err}
use policy_conditions.Conditions.Ast.{Expression}
use policy_conditions.Parser.Loop.{parse_filter}
use policy_conditions.Policy.Info.{
  Slice, elements, ConditionInfo, ScopeInfo, PolicyInfo, calculate_etag,
}

-- Each element of the first list has its like among the second, up to case.
unfoldable pub all_matched : List Text → List Text → Bool
all_matched xs ys = all (λ x. any (λ y. equal_fold x y) ys) xs

-- `SubjectInfo.Equals`
unfoldable pub subjects_equal : Slice Text → Slice Text → Bool
unfolding all_matched
subjects_equal s t =
    length (elements s) == length (elements t) && all_matched (elements s) (elements t)

-- `ActionsEqual`
unfoldable pub actions_equal : Slice Text → Slice Text → Bool
unfolding all_matched
actions_equal s none = false
actions_equal s (some ts) = length (elements s) == length ts && all_matched (elements s) ts

-- `ObjectInfo.equals`
unfoldable pub object_equal : Text → Text → Bool
object_equal = equal_fold

-- The constants `ScopeType*`
pub data ScopeType : Type 0 where
  sql idql unassigned : ScopeType

head_text : List Text → Text
head_text [] = []
head_text (t ∷ ts) = t

filter_type : Text → ScopeType
unfolding head_text
filter_type f =
    let first = to_lower (head_text (split b':' f)) in
    if text_eq first (codes "sql")
    then sql
    else if text_eq first (codes "idql")
    then idql
    else unassigned

-- `ScopeInfo.Type`
unfoldable pub scope_type : ScopeInfo → ScopeType
unfolding filter_type
scope_type s = elim s.filter [
  | none ↦ unassigned
  | some f ↦ if is_empty f then unassigned else filter_type f
]

filter_value : ScopeType → Text → Text
filter_value sql f = drop 4 f
filter_value idql f = drop 5 f
filter_value unassigned f = f

-- `ScopeInfo.Value`; none where the source reads through a nil pointer
unfoldable pub scope_value : ScopeInfo → Option Text
unfolding filter_value
scope_value s = elim s.filter [ none ↦ none | some f ↦ some (filter_value (scope_type s) f) ]

abbrev same_type : ScopeType → ScopeType → Bool
same_type sql sql = true
same_type idql idql = true
same_type unassigned unassigned = true
same_type _ _ = false

-- The test of the filters; none is a read through a nil pointer.
filters_equal : Option Text → Option Text → Option Bool
filters_equal none t = some true
filters_equal (some f) none = none
filters_equal (some f) (some g) = some (text_eq f g)

-- `ScopeInfo.Equals`; none is a panic
unfoldable pub scopes_equal : ScopeInfo → ScopeInfo → Option Bool
unfolding filters_equal all_matched
scopes_equal s t =
    if same_type (scope_type s) (scope_type t)
    then elim (filters_equal s.filter t.filter) [
      | none ↦ none
      | some false ↦ some false
      | some true ↦ some (
          length (elements s.attributes) == length (elements t.attributes)
          && all_matched (elements s.attributes) (elements t.attributes))
    ]
    else some false

-- `slicesAreEqual`
unfoldable slices_equal : List Text → List Text → Bool
slices_equal [] [] = true
slices_equal (x ∷ xs) (y ∷ ys) = equal_fold x y && slices_equal xs ys
slices_equal _ _ = false

-- The comparison of two rules by the nodes of their syntax trees
unfoldable rules_equal : {P : Platform} → Result (Expression P) → Result (Expression P) → Bool
unfolding slices_equal
rules_equal (ok e) (ok f) = slices_equal (sort_texts (compare_walk e)) (sort_texts (compare_walk f))
rules_equal _ _ = false

-- The constants `Compare*`
pub data Difference : Type 0 where
  equal action subject object condition : Difference

module _ (P : Platform) (generate : Text → Text) where
  -- `ConditionInfo.Equals`
  unfoldable pub conditions_equal : ConditionInfo → ConditionInfo → Bool
  unfolding rules_equal
  conditions_equal c d =
      text_eq c.action d.action
      && (text_eq c.rule d.rule || rules_equal (parse_filter P c.rule) (parse_filter P d.rule))

  -- The part of `PolicyInfo.Equals` for the conditions
  same_condition : Option ConditionInfo → Option ConditionInfo → Bool
  same_condition none none = true
  same_condition (some c) (some d) = conditions_equal c d
  same_condition _ _ = false

  -- The part for the scopes
  same_scope : Option ScopeInfo → Option ScopeInfo → Option Bool
  same_scope none none = some true
  same_scope (some s) (some t) = scopes_equal s t
  same_scope _ _ = some false

  -- `PolicyInfo.Equals`; none is a panic in `ScopeInfo.Equals`
  unfoldable pub policies_equal : PolicyInfo → PolicyInfo → Option Bool
  unfolding same_condition same_scope
  policies_equal p q =
      if text_eq (calculate_etag generate p) (calculate_etag generate q)
      then some true
      else if not (
          subjects_equal p.subjects q.subjects
          && (actions_equal p.actions q.actions && object_equal p.object q.object))
      then some false
      else if same_condition p.condition q.condition
      then same_scope p.scope q.scope
      else some false

  -- The test of `Compare` for the conditions. Its second alternative asks for `p.Condition` to be nil
  -- and not nil.
  conditions_differ : Option ConditionInfo → Option ConditionInfo → Bool
  conditions_differ none d = false
  conditions_differ (some c) none = true
  conditions_differ (some c) (some d) = not (conditions_equal c d)

  unfoldable pub differences : PolicyInfo → PolicyInfo → List Difference
  unfolding conditions_differ
  differences p q =
      (if subjects_equal p.subjects q.subjects then [] else subject ∷ [])
      ++ ((if actions_equal p.actions q.actions then [] else action ∷ [])
          ++ ((if object_equal p.object q.object then [] else object ∷ [])
              ++ (if conditions_differ p.condition q.condition then condition ∷ [] else [])))

  or_equal : List Difference → List Difference
  or_equal [] = equal ∷ []
  or_equal (d ∷ ds) = d ∷ ds

  -- `PolicyInfo.Compare`; none is a panic
  unfoldable pub compare : PolicyInfo → PolicyInfo → Option (List Difference)
  unfolding or_equal
  compare p q = elim (policies_equal p q) [
    | none ↦ none
    | some true ↦ some (equal ∷ [])
    | some false ↦ some (or_equal (differences p q))
  ]
