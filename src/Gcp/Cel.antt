-- ===== src/Gcp/Cel.antt =====
-- models/conditionLangs/gcpcel/gcp_condition_mapper.go, from IDQL to CEL.
pub mod Grammar
pub mod Levels
pub mod Meaning
pub mod Total
use policy_conditions.Base.{
  Bool, true, false, not, ◌&&◌, ◌||◌, Option, none, some, List, [], ◌∷◌, ◌++◌, if◌then◌else◌,
}
use policy_conditions.Base.Text.{Text, codes}
use policy_conditions.Base.Except.{Except, raise, done}
use policy_conditions.Base.Maybe.{◌>>=◌}
use policy_conditions.Types.Platform.{Platform}
use policy_conditions.Types.Value.{Comparable, date, Value, comparable, value_string}
use policy_conditions.Types.Value.Compare.{
  CompareOperator, pr, eq, ne, within, sw, ew, gt, lt, ge, le, is_type, co,
}
use policy_conditions.Conditions.Ast.{
  LogicalOperator, both, either, Expression, logical, negation, precedence, attribute, value_path,
}
use policy_conditions.Conditions.Shape.{is_logical}
use policy_conditions.Conditions.Serialize.{same_operator}
use policy_conditions.Conditions.Walk.{AttributeMap, get_provider_attribute_name}
use policy_conditions.Parser.Result.{ParseError, ok, err}
use policy_conditions.Parser.Loop.{parse_filter}
use policy_conditions.Policy.Info.{ConditionInfo}

-- The errors of `MapConditionToProvider`
pub data MapError : Type 0 where
  bad_rule : ParseError → MapError
  value_path_unsupported : MapError

-- the flag `isDouble`
unfoldable pub is_double : {P : Platform} → LogicalOperator → Expression P → Bool
is_double op (logical o l r) = same_operator o op
is_double op e = false

abbrev pub bracketed : Text → Text
bracketed t = codes "(" ++ (t ++ codes ")")

-- Brackets around the text of a logical expression, and of no other.
abbrev pub wrap_logical : {P : Platform} → Expression P → Text → Text
wrap_logical e t = if is_logical e then bracketed t else t

-- `mapFilterNot`, from the text of the expression inside
unfoldable pub map_filter_not : {P : Platform} → Expression P → Text → Text
map_filter_not e t = codes "!" ++ wrap_logical e t

-- `mapFilterPrecedence`, from the text of the expression inside
unfoldable pub map_filter_precedence : {P : Platform} → Expression P → Text → Text
map_filter_precedence e t = wrap_logical e t

-- what `mapFilterLogical` makes of the texts of its sides
unfoldable pub map_filter_logical : LogicalOperator → Bool → Text → Text → Text
map_filter_logical both child l r = l ++ (codes " && " ++ r)
map_filter_logical either true l r = bracketed (l ++ (codes " || " ++ r))
map_filter_logical either false l r = l ++ (codes " || " ++ r)

-- The text of the compared value; a date is quoted for `timestamp`.
unfoldable pub compare_text : {P : Platform} → Option (Value P) → Text
compare_text none = []
compare_text {P} (some (comparable (date d))) =
    codes "timestamp('" ++ (P.format_time d ++ codes "')")
compare_text (some v) = value_string v

-- The text of a comparison of a mapped path with a value.
unfoldable pub comparison : Text → CompareOperator → Text → Text
comparison path ne value = path ++ (codes " != " ++ value)
comparison path lt value = path ++ (codes " < " ++ value)
comparison path le value = path ++ (codes " <= " ++ value)
comparison path gt value = path ++ (codes " > " ++ value)
comparison path ge value = path ++ (codes " >= " ++ value)
comparison path sw value = path ++ (codes ".startsWith(" ++ (value ++ codes ")"))
comparison path ew value = path ++ (codes ".endsWith(" ++ (value ++ codes ")"))
comparison path pr value = codes "has(" ++ (path ++ codes ")")
comparison path co value = path ++ (codes ".contains(" ++ (value ++ codes ")"))
comparison path within value = path ++ (codes " in " ++ value)
comparison path eq value = path ++ (codes " == " ++ value)
comparison path is_type value = path ++ (codes " == " ++ value)

-- `mapFilterAttrExpr`
unfoldable pub map_filter_attr_expr :
    {P : Platform} → AttributeMap → Value P → CompareOperator → Option (Value P) → Text
unfolding compare_text comparison
map_filter_attr_expr n v op w =
    comparison (get_provider_attribute_name n (value_string v)) op (compare_text w)

-- `mapFilterInternal`. None stands for the panic on a value path, which is no `AttributeExpression`.
unfoldable pub map_filter_internal :
    {P : Platform} → AttributeMap → Bool → Expression P → Option Text
unfolding is_double map_filter_not map_filter_precedence map_filter_logical map_filter_attr_expr
map_filter_internal n child (negation e) = do
  t ← map_filter_internal n false e
  some (map_filter_not e t)
map_filter_internal n child (precedence e) = do
  t ← map_filter_internal n false e
  some (map_filter_precedence e t)
map_filter_internal n child (logical op l r) = do
  s ← map_filter_internal n (not (is_double op l)) l
  t ← map_filter_internal n (not (is_double op l)) r
  some (map_filter_logical op child s t)
map_filter_internal n child (attribute v op w) = some (map_filter_attr_expr n v op w)
map_filter_internal n child (value_path a sub f op w) = none

-- `checkCompatibility`: whether it returns nil
unfoldable pub check_compatibility : {P : Platform} → Expression P → Bool
check_compatibility (logical op l r) = check_compatibility l && check_compatibility r
check_compatibility (negation e) = check_compatibility e
check_compatibility (precedence e) = check_compatibility e
check_compatibility (value_path a sub f op w) = false
check_compatibility (attribute v op w) = true

-- `MapFilter`; none is a panic
unfoldable pub map_filter :
    {P : Platform} → AttributeMap → Expression P → Option (Except MapError Text)
unfolding check_compatibility map_filter_internal
map_filter n e =
    if check_compatibility e
    then (do t ← map_filter_internal n false e; some (done t))
    else some (raise value_path_unsupported)

-- `MapConditionToProvider`
unfoldable pub map_condition_to_provider :
    (P : Platform) → AttributeMap → ConditionInfo → Option (Except MapError Text)
unfolding map_filter
map_condition_to_provider P n c = elim (parse_filter P c.rule) [
  | err e ↦ some (raise (bad_rule e))
  | ok e ↦ map_filter n e
]
