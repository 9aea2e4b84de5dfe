-- ===== src/Pim/Validate.antt =====
-- pkg/hexapolicy/pimValidate/validate.go: ValidatePolicy and ValidatePolicies.
-- A result of none is a panic on a nil pointer, or a search for an attribute that does not end.
pub mod Returns
pub mod Reported
use policy_conditions.Base.{
  ℕ, suc, Bool, true, false, ◌&&◌, ◌||◌, Option, none, some, List, [], ◌∷◌, ◌++◌, if◌then◌else◌,
}
use policy_conditions.Base.Lists.{is_empty}
use policy_conditions.Base.Text.{Text, codes, text_eq, equal_fold, contains, to_lower}
use policy_conditions.Base.Dict
use policy_conditions.Base.Dict.{Dict}
use policy_conditions.Base.Except.{Except, raise, done}
use policy_conditions.Base.Maybe.{◌>>=◌}
use policy_conditions.Types.Platform.{Platform}
use policy_conditions.Types.Entity
use policy_conditions.Types.Entity.{
  RelType, any, any_authenticated, empty, Entity, parse_entity, get_type, get_namespace, is_path,
  id, id_text, rel_type,
}
use policy_conditions.Types.Value.{
  Comparable, string, number, date, boolean, unassigned, Value, variable, comparable, array, object,
}
use policy_conditions.Types.Value.Compare.{
  CompareOperator, pr, eq, ne, within, sw, ew, gt, lt, ge, le, is_type, co,
}
use policy_conditions.Conditions.Ast.{Expression, attribute, value_path}
use policy_conditions.Conditions.Walk.{find_entity_uses}
use policy_conditions.Parser.Result.{ParseError, ok, err}
use policy_conditions.Parser.Loop.{parse_filter}
use policy_conditions.Policy.Info.{Slice, elements, ConditionInfo, PolicyInfo}
use policy_conditions.Pim.Schema.{
  SchemaType, ActionType, AppliesType, AttrType, type_name, find_attr_type,
}
use policy_conditions.Pim.Entities.{
  Problem, Problems, append, check_subject, check_object, check_action, unknown_attribute,
  unknown_operand_type, invalid_operand, operand_namespace, requires_string,
  requires_entity_or_string, mismatched_types, value_path_unsupported, bad_rule, in_list,
  special_entities,
}
use policy_conditions.Pim.Operands.{check_conditions}

-- The key of a policy: its id, or else its position in decimal, which `decimal` writes.
unfoldable policy_key : Text → Option Text → Text
policy_key position none = codes "Policy-" ++ position
policy_key position (some []) = codes "Policy-" ++ position
policy_key position (some (c ∷ cs)) = codes "Policy-" ++ (c ∷ cs)

unfoldable add_problems : Text → List Problem → Dict (List Problem) → Dict (List Problem)
add_problems key [] m = m
add_problems key (e ∷ es) m = Dict.put key (e ∷ es) m

-- the fields of the validator
module _ (namespaces : Dict SchemaType) (def_namespace : Text) where
  -- `ValidatePolicy`, on fuel for each search for an attribute
  unfoldable pub validate_policy : (Text → Text) → Platform → ℕ → PolicyInfo → Problems
  unfolding check_subject check_object check_action check_conditions
  validate_policy unquote P n p =
      append (some (check_subject namespaces def_namespace (elements p.subjects))) (
        append (check_object namespaces def_namespace p.object) (
          append (some (check_action namespaces def_namespace unquote p))
            (check_conditions namespaces def_namespace P n p.condition)))

  -- the loop of `ValidatePolicies`, from the position
  unfoldable pub validate_each :
      (Text → Text)
      → Platform
      → (ℕ → Text)
      → ℕ
      → ℕ
      → Dict (List Problem)
      → List PolicyInfo
      → Option (Dict (List Problem))
  unfolding validate_policy policy_key add_problems
  validate_each unquote P decimal n i m [] = some m
  validate_each unquote P decimal n i m (p ∷ ps) = do
    es ← validate_policy unquote P n p
    validate_each unquote P decimal n (suc i)
        (add_problems (policy_key (decimal i) p.meta.policy_id) es m) ps

  -- `ValidatePolicies`
  unfoldable pub validate_policies :
      (Text → Text) → Platform → (ℕ → Text) → ℕ → List PolicyInfo → Option (Dict (List Problem))
  unfolding validate_each
  validate_policies unquote P decimal n ps = validate_each unquote P decimal n 0 [] ps
