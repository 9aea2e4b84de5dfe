-- ===== src/Gcp/FromCel.antt =====
-- models/conditionLangs/gcpcel/gcp_condition_mapper.go, from CEL to IDQL. The parser of CEL, of
-- another package, is a parameter: it gives a syntax tree.
pub mod Tree
pub mod Meaning
use policy_conditions.Base.{
  Bool, true, false, not, ◌&&◌, ◌||◌, Option, none, some, List, [], ◌∷◌, ◌++◌, if◌then◌else◌,
}
use policy_conditions.Base.Lists.{is_empty}
use policy_conditions.Base.Text.{Text, codes, text_eq}
use policy_conditions.Base.Except.{Except, raise, done, ◌>>=◌}
use policy_conditions.Types.Entity.{parse_entity}
use policy_conditions.Types.Platform.{Platform}
use policy_conditions.Types.Quote.{quote}
use policy_conditions.Types.Value.{Comparable, string, date, boolean, Value, variable, comparable}
use policy_conditions.Types.Value.Compare.{
  CompareOperator, pr, eq, ne, within, sw, ew, gt, lt, ge, le, co,
}
use policy_conditions.Types.Value.Parse.{new_string, new_numeric, parse_value}
use policy_conditions.Conditions.Ast.{
  LogicalOperator, both, either, Expression, logical, negation, attribute,
}
use policy_conditions.Conditions.Serialize.{serialize}
use policy_conditions.Conditions.Walk.{AttributeMap, get_hexa_filter_attribute_path}
use policy_conditions.Policy.Info.{ConditionInfo}
use policy_conditions.Gcp.FromCel.Tree.{
  Constant, string_value, bool_value, int64_value, double_value, other_constant, Cel, call, select,
  ident, constant, other_kind, Target, no_target, target, Args, no_args, arg, ident_name, string_of,
}

-- The errors of the mapper; `panic` is a nil pointer followed or an index out of range.
pub data CelError : Type 0 where
  panic bad_syntax bad_value bad_date unimplemented_expression : CelError
  unimplemented_operand unimplemented_function unsupported_function : Text → CelError

abbrev pub or_raise : {P : Platform} → CelError → Option (Value P) → Except CelError (Value P)
or_raise e none = raise e
or_raise e (some v) = done v

abbrev pub first_arg : Args → Except CelError Cel
first_arg no_args = raise panic
first_arg (arg c cs) = done c

abbrev pub second_arg : Args → Except CelError Cel
second_arg no_args = raise panic
second_arg (arg c cs) = first_arg cs

-- A tree that `mapCelExpr` returns; none is a tree with a nil expression or a missing value in it,
-- which panics as soon as it is written as text.
abbrev pub Result : Platform → Type 0
Result P = Except CelError (Option (Expression P))

abbrev pub logical_some :
    {P : Platform}
    → LogicalOperator
    → Option (Expression P)
    → Option (Expression P)
    → Option (Expression P)
logical_some op (some l) (some r) = some (logical op l r)
logical_some op _ _ = none

-- What a call of a logical function or of another function stands for.
pub data Kind : Type 0 where
  conjunction disjunction opposite comparison : Kind

abbrev pub kind_of : Text → Kind
kind_of f =
    if text_eq f (codes "_&&_")
    then conjunction
    else if text_eq f (codes "_||_")
    then disjunction
    else if text_eq f (codes "_!_") || text_eq f (codes "!_")
    then opposite
    else comparison

module _ (P : Platform) (n : AttributeMap) where
  new_date : Text → Except CelError (Value P)
  new_date s = elim (P.parse_time s) [ none ↦ raise bad_date | some d ↦ done (comparable (date d)) ]

  -- `convertConstExpr`
  unfoldable pub convert_const_expr : Constant → Except CelError (Value P)
  convert_const_expr (string_value s) = elim (P.parse_time s) [
    | none ↦ elim (new_string P s) [ none ↦ raise panic | some v ↦ done (comparable v) ]
    | some d ↦ done (comparable (date d))
  ]
  convert_const_expr (bool_value b) = done (comparable (boolean b))
  convert_const_expr (int64_value t) = or_raise bad_value (new_numeric P t)
  convert_const_expr (double_value t) = or_raise bad_value (new_numeric P t)
  convert_const_expr other_constant = or_raise bad_value (parse_value P [])

  -- `mapSelectExpr`
  unfoldable pub map_select_expr : Cel → Text → Result P
  map_select_expr operand field = do
    v ← or_raise bad_value (
        parse_value P
          (get_hexa_filter_attribute_path n (ident_name operand ++ (codes "." ++ field))))
    done (some (attribute v pr none))

  -- the path of the target of a method
  function_path : Target → Text
  function_path (target (select operand field)) =
      if is_empty (ident_name operand)
      then get_hexa_filter_attribute_path n []
      else get_hexa_filter_attribute_path n (ident_name operand ++ (codes "." ++ field))
  function_path (target c) = get_hexa_filter_attribute_path n (ident_name c)
  function_path no_target = get_hexa_filter_attribute_path n []

  -- the expression for a function
  function_expression : Text → Value P → Value P → Result P
  function_expression function left right =
      if text_eq function (codes "startsWith")
      then done (some (attribute left sw (some right)))
      else if text_eq function (codes "endsWith")
      then done (some (attribute left ew (some right)))
      else if text_eq function (codes "contains")
      then done (some (attribute left co (some right)))
      else raise (unimplemented_function function)

  -- `mapCelAttrFunction`
  unfoldable pub map_cel_attr_function : Text → Target → Args → Result P
  unfolding function_path function_expression
  map_cel_attr_function function t args = do
    left ← or_raise bad_value (parse_value P (function_path t))
    a ← first_arg args
    right ← or_raise bad_value (parse_value P (quote (string_of a)))
    function_expression function left right

  -- The left side of a comparison without its `!`, and whether it has one.
  left_side : Cel → Except CelError (Bool × Cel)
  left_side (call f t args) =
      if text_eq f (codes "!_")
      then (do c ← first_arg args; done (true, c))
      else raise (unimplemented_function f)
  left_side c = done (false, c)

  -- the path that the left side names
  left_path : Cel → Except CelError Text
  left_path (ident x) = done x
  left_path (select (ident x) field) = done (x ++ (codes "." ++ field))
  left_path c = raise panic

  -- The value of the right side; none where the kind of the expression is none of those mapped.
  right_side : Cel → Except CelError (Option (Value P))
  unfolding new_date
  right_side (constant k) = do v ← convert_const_expr k; done (some v)
  right_side (ident x) = done (some (variable (parse_entity x)))
  right_side (call f t args) =
      if text_eq f (codes "timestamp")
      then (do a ← first_arg args; d ← new_date (string_of a); done (some d))
      else raise (unsupported_function f)
  right_side (select c field) = done none
  right_side other_kind = done none

  negated_if : Bool → Expression P → Expression P
  negated_if true e = negation e
  negated_if false e = e

  compared_with : Bool → Value P → CompareOperator → Option (Value P) → Option (Expression P)
  unfolding negated_if
  compared_with is_not left op none = none
  compared_with is_not left op (some right) =
      some (negated_if is_not (attribute left op (some right)))

  -- `mapCelAttrCompare`
  unfoldable pub map_cel_attr_compare : Args → CompareOperator → Result P
  unfolding left_side left_path right_side compared_with
  map_cel_attr_compare args op = do
    l ← first_arg args
    (is_not, c) ← left_side l
    path ← left_path c
    r ← second_arg args
    right ← right_side r
    left ← or_raise bad_value (parse_value P (get_hexa_filter_attribute_path n path))
    done (compared_with is_not left op right)

  -- The comparisons and functions among the cases of `mapCallExpr`.
  unfoldable pub map_comparison : Text → Target → Args → Result P
  map_comparison f t args =
      if text_eq f (codes "_==_")
      then map_cel_attr_compare args eq
      else if text_eq f (codes "_!=_")
      then map_cel_attr_compare args ne
      else if text_eq f (codes "_>_")
      then map_cel_attr_compare args gt
      else if text_eq f (codes "_<_")
      then map_cel_attr_compare args lt
      else if text_eq f (codes "_<=_")
      then map_cel_attr_compare args le
      else if text_eq f (codes "_>=_")
      then map_cel_attr_compare args ge
      else if text_eq f (codes "@in")
      then map_cel_attr_compare args within
      else if text_eq f (codes "startsWith")
          || (text_eq f (codes "endsWith")
              || (text_eq f (codes "contains") || text_eq f (codes "has")))
      then map_cel_attr_function f t args
      else raise (unimplemented_operand f)

  -- `mapCelNot`, from what `mapCelExpr` returns for the operand: an error of it is dropped.
  unfoldable pub map_cel_not : Result P → Result P
  map_cel_not (done (some e)) = done (some (negation e))
  map_cel_not (done none) = done none
  map_cel_not (raise panic) = raise panic
  map_cel_not (raise e) = done none

  unfoldable mutual
    -- `mapCelExpr` with `mapCallExpr`
    pub map_cel_expr : Cel → Result P
    map_cel_expr (call f t args) = elim (kind_of f) [
      | conjunction ↦ map_cel_logical both args
      | disjunction ↦ map_cel_logical either args
      | opposite ↦ map_first args
      | comparison ↦ map_comparison f t args
    ]
    map_cel_expr (select operand field) = map_select_expr operand field
    map_cel_expr c = raise unimplemented_expression

    -- `mapCelNot` of the first argument
    map_first : Args → Result P
    map_first no_args = raise panic
    map_first (arg c cs) = map_cel_not (map_cel_expr c)

    -- `mapCelLogical`: the last two expressions are joined until one is left.
    pub map_cel_logical : LogicalOperator → Args → Result P
    map_cel_logical op no_args = raise panic
    map_cel_logical op (arg c no_args) = map_cel_expr c
    map_cel_logical op (arg c (arg d cs)) = do
      e ← map_cel_expr c
      es ← map_cel_logical op (arg d cs)
      done (logical_some op e es)

  written : Option (Expression P) → Except CelError ConditionInfo
  written none = raise panic
  written (some e) = done (record { rule = serialize e; action = codes "allow" })

  -- `MapProviderToCondition`; `parse_cel` is the parser of CEL.
  unfoldable pub map_provider_to_condition :
      (Text → Option Cel) → Text → Except CelError ConditionInfo
  unfolding map_cel_expr written
  map_provider_to_condition parse_cel text = elim (parse_cel text) [
    | none ↦ raise bad_syntax
    | some c ↦ map_cel_expr c >>= written
  ]
