-- ===== src/Pim/Operands.antt =====
-- pkg/hexapolicy/pimValidate/validate.go: the checks of a condition against the schemas.
-- A result of none is a panic on a nil pointer, or a search for an attribute that does not end.
pub mod Compared
pub mod Returns
use policy_conditions.Base.{
  ℕ, Bool, true, false, ◌||◌, Option, none, some, List, [], ◌∷◌, if◌then◌else◌,
}
use policy_conditions.Base.Text.{Text, codes, equal_fold, to_lower}
use policy_conditions.Base.Dict
use policy_conditions.Base.Dict.{Dict}
use policy_conditions.Base.Except.{Except, raise, done}
use policy_conditions.Base.Maybe.{◌>>=◌}
use policy_conditions.Types.Platform.{Platform}
use policy_conditions.Types.Entity
use policy_conditions.Types.Entity.{
  RelType, any, any_authenticated, empty, Entity, parse_entity, get_type, get_namespace, is_path,
  id, id_text, rel_type,
}
use policy_conditions.Types.Value.{
  Comparable, string, number, date, boolean, unassigned, Value, variable, comparable, array, object,
}
use policy_conditions.Types.Value.Compare.{CompareOperator, pr, within, sw, ew, is_type, co}
use policy_conditions.Conditions.Ast.{Expression, attribute, value_path}
use policy_conditions.Conditions.Walk.{find_entity_uses}
use policy_conditions.Parser.Result.{ok, err}
use policy_conditions.Parser.Loop.{parse_filter}
use policy_conditions.Policy.Info.{ConditionInfo}
use policy_conditions.Pim.Schema.{SchemaType, AttrType, type_name, find_attr_type}
use policy_conditions.Pim.Entities.{
  Problem, Problems, append, unknown_attribute, unknown_operand_type, invalid_operand,
  operand_namespace, requires_string, requires_entity_or_string, mismatched_types,
  value_path_unsupported, bad_rule, in_list, special_entities,
}

-- what `checkOperand` returns: a type and an error
abbrev pub Operand : Type 0
Operand = Option (Except Problem Text)

unfoldable pub found_type : Entity → Option (Option AttrType) → Operand
found_type e none = none
found_type e (some none) = some (raise (unknown_attribute (Entity.to_string e)))
found_type e (some (some a)) = some (done (type_name a))

unfoldable pub comparable_operand : {P : Platform} → Comparable P → Operand
comparable_operand (string s) = some (done (codes "String"))
comparable_operand (boolean b) = some (done (codes "Bool"))
comparable_operand (date d) = some (done (codes "Date"))
comparable_operand (number x raw) = some (done (codes "Long"))
comparable_operand (unassigned e) = some (raise invalid_operand)

-- an error whose text has that of the compared value
unfoldable pub printed : {P : Platform} → Option (Value P) → Problem → Problems
printed none e = none
printed (some w) e = some (e ∷ [])

unfoldable pub unless : {P : Platform} → Bool → Option (Value P) → Problem → Problems
unfolding printed
unless true w e = some []
unless false w e = printed w e

-- the cases of the operator, from the types of the two sides
unfoldable pub compared_types :
    {P : Platform} → CompareOperator → Option (Value P) → Text → Text → Problems
unfolding unless
compared_types pr w l r = some []
compared_types is_type w l r = some []
compared_types sw w l r =
    append (unless (equal_fold l (codes "String")) w (requires_string l))
      (unless (equal_fold r (codes "String")) w (requires_string r))
compared_types ew w l r =
    append (unless (equal_fold l (codes "String")) w (requires_string l))
      (unless (equal_fold r (codes "String")) w (requires_string r))
compared_types co w l r =
    append
      (unless (equal_fold l (codes "Record") || equal_fold r (codes "String")) w
        (requires_entity_or_string l))
      (unless (equal_fold r (codes "Record") || equal_fold l (codes "String")) w
        (requires_entity_or_string r))
compared_types within w l r =
    append
      (unless (equal_fold l (codes "Record") || equal_fold r (codes "String")) w
        (requires_entity_or_string l))
      (unless (equal_fold r (codes "Record") || equal_fold l (codes "String")) w
        (requires_entity_or_string r))
compared_types op w l r = unless (equal_fold l r) w (mismatched_types l r)

-- the checks of both sides, and of the operator where they give no error
unfoldable pub both_sides :
    {P : Platform}
    → CompareOperator
    → Option (Value P)
    → Except Problem Text
    → Except Problem Text
    → Problems
unfolding compared_types
both_sides op w (raise e) (raise f) = some (e ∷ f ∷ [])
both_sides op w (raise e) (done r) = some (e ∷ [])
both_sides op w (done l) (raise f) = some (f ∷ [])
both_sides op w (done l) (done r) = compared_types op w l r

-- the fields of the validator
module _ (namespaces : Dict SchemaType) (def_namespace : Text) where
  -- `checkOperand` of an entity in a schema; the identifier is that of the entity
  unfoldable pub operand_in : ℕ → SchemaType → Entity → Option Text → Operand
  unfolding found_type in_list
  operand_in n s e none = none
  operand_in n s e (some i) =
      if in_list (to_lower i) special_entities
      then some (done (codes "Record"))
      else elim (Dict.get (get_type e) s.entity_types) [
        | none ↦ some (raise (unknown_operand_type (Entity.to_string e)))
        | some t ↦
            if is_path i then found_type e (find_attr_type s n e) else some (done (codes "Record"))
      ]

  -- `checkOperand`
  unfoldable pub check_operand : {P : Platform} → ℕ → Value P → Operand
  unfolding operand_in comparable_operand
  check_operand n (variable e) = elim (Dict.get (get_namespace def_namespace e) namespaces) [
    | none ↦ some (raise (operand_namespace (get_namespace def_namespace e)))
    | some s ↦ operand_in n s e (id e)
  ]
  check_operand n (comparable v) = comparable_operand v
  check_operand n (array vs) = some (raise invalid_operand)
  check_operand n (object fs) = some (raise invalid_operand)

  unfoldable pub compare_operand : {P : Platform} → ℕ → Option (Value P) → Operand
  unfolding check_operand
  compare_operand n none = some (done (codes "na"))
  compare_operand n (some w) = check_operand n w

  -- `checkExpression`
  unfoldable pub check_expression : {P : Platform} → ℕ → Expression P → Problems
  unfolding check_operand compare_operand both_sides
  check_expression n (attribute v op w) = do
    l ← check_operand n v
    r ← compare_operand n w
    both_sides op w l r
  check_expression n (value_path a sub f op w) = some (value_path_unsupported ∷ [])
  check_expression n e = some []

  unfoldable pub check_expressions : {P : Platform} → ℕ → List (Expression P) → Problems
  unfolding check_expression
  check_expressions n [] = some []
  check_expressions n (e ∷ es) = append (check_expression n e) (check_expressions n es)

  -- `checkConditions`
  unfoldable pub check_conditions : Platform → ℕ → Option ConditionInfo → Problems
  unfolding check_expressions
  check_conditions P n none = some []
  check_conditions P n (some c) = elim (parse_filter P c.rule) [
    | err e ↦ some (bad_rule e ∷ [])
    | ok e ↦ check_expressions n (find_entity_uses e)
  ]
