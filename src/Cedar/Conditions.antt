-- ===== src/Cedar/Conditions.antt =====
-- models/conditionLangs/cedarConditions/map_hexa.go: the clauses of Cedar for a condition.
-- A result of none is a panic: a failed type assertion, or a slice with a negative bound.
pub mod Flatten
pub mod Grammar
pub mod Texts
pub mod Parts
pub mod Clauses
pub mod Panics
pub use policy_conditions.Cedar.Flat.{Flat, Flats, one, multi, nil, cons}
unfoldable pub use policy_conditions.Cedar.Flat.{join_flats, flat_side, check_and_flatten}
unfoldable pub use policy_conditions.Cedar.Comparison.{map_filter_attr_expr}
use policy_conditions.Base.{
  ℕ, Bool, true, false, not, ◌&&◌, Option, none, some, List, [], ◌∷◌, ◌++◌, ◌==◌, if◌then◌else◌,
}
use policy_conditions.Base.Text.{Text, codes, text_eq, has_prefix, has_suffix}
use policy_conditions.Base.Except.{Except, raise, done}
use policy_conditions.Base.Maybe.{◌>>=◌}
use policy_conditions.Types.Platform.{Platform}
use policy_conditions.Types.Value.{Value, value_string}
use policy_conditions.Types.Value.Compare.{
  CompareOperator, pr, eq, ne, within, sw, ew, gt, lt, ge, le, is_type, co,
}
use policy_conditions.Conditions.Ast.{
  LogicalOperator, both, either, Expression, logical, negation, precedence, attribute, value_path,
}
use policy_conditions.Conditions.Shape.{is_logical}
use policy_conditions.Conditions.Serialize.{same_operator}
use policy_conditions.Conditions.Walk.{AttributeMap, get_provider_attribute_name}
use policy_conditions.Parser.Result.{ok, err}
use policy_conditions.Parser.Loop.{parse_filter}
use policy_conditions.Policy.Info.{ConditionInfo}
use policy_conditions.Gcp.Cel.{
  MapError, bad_rule, value_path_unsupported, is_double, map_filter_logical,
}

-- `checkCompatibility`: whether it returns nil
unfoldable pub check_compatibility : {P : Platform} → Expression P → Bool
check_compatibility (logical op l r) = check_compatibility l && check_compatibility r
check_compatibility (negation e) = check_compatibility e
check_compatibility (precedence e) = check_compatibility e
check_compatibility (value_path a sub f op w) = false
check_compatibility (attribute v op w) = true

-- `mapFilterNot`, from the text of the expression inside
unfoldable pub map_filter_not : Text → Text
map_filter_not t = codes "!( " ++ (t ++ codes " )")

-- `mapFilterPrecedence`, from the expression inside and its text
unfoldable pub map_filter_precedence : {P : Platform} → Expression P → Text → Text
map_filter_precedence e t = if is_logical e then codes "(" ++ (t ++ codes ")") else t

-- a clause, `unless` where the flag is set
unfoldable pub clause : Bool → Text → Text
clause true t = codes "unless { " ++ (t ++ codes " }")
clause false t = codes "when { " ++ (t ++ codes " }")

-- `unquote` stands for `strconv.Unquote`, none for its error, and `decimal` for `types.ParseDecimal` of
-- cedar-go, with the text of the decimal.
module _ (unquote decimal : Text → Option Text) where
  -- `mapFilterExpression`, with the cases of `mapFilterNot`, `mapFilterPrecedence` and `mapFilterLogical`
  unfoldable pub map_filter_expression :
      {P : Platform} → AttributeMap → Bool → Expression P → Option Text
  unfolding map_filter_attr_expr is_double map_filter_logical map_filter_not map_filter_precedence
  map_filter_expression n child (negation e) = do
    t ← map_filter_expression n false e
    some (map_filter_not t)
  map_filter_expression n child (precedence e) = do
    t ← map_filter_expression n false e
    some (map_filter_precedence e t)
  map_filter_expression n child (logical op l r) = do
    s ← map_filter_expression n (not (is_double op l)) l
    t ← map_filter_expression n (not (is_double op l)) r
    some (map_filter_logical op child s t)
  map_filter_expression n child (attribute v op w) = map_filter_attr_expr unquote decimal n v op w
  map_filter_expression n child (value_path a sub f op w) = none

  -- `mapToConditionClause`
  unfoldable pub map_to_condition_clause :
      {P : Platform} → AttributeMap → Expression P → Bool → Option Text
  unfolding map_filter_expression clause
  map_to_condition_clause n (precedence e) is_unless = do
    t ← map_filter_expression n false e
    some (clause is_unless t)
  map_to_condition_clause n (negation e) is_unless = do
    t ← map_filter_expression n false e
    some (clause (not is_unless) t)
  map_to_condition_clause n e is_unless = do
    t ← map_filter_expression n false e
    some (clause is_unless t)

  -- the clause of an expression inside brackets; one that is flattened itself is no `parser.Expression`
  unfoldable pub inner_clause : {P : Platform} → AttributeMap → Flat P → Option Text
  unfolding map_filter_expression
  inner_clause n (one e) = map_filter_expression n true e
  inner_clause n (multi op fs) = none

  unfoldable pub joined_inner : {P : Platform} → AttributeMap → Flats P → Option Text
  unfolding inner_clause
  joined_inner n nil = some []
  joined_inner n (cons f nil) = inner_clause n f
  joined_inner n (cons f (cons g fs)) = do
    s ← inner_clause n f
    t ← joined_inner n (cons g fs)
    some (s ++ (codes " && " ++ t))

  -- a part of the clause of an `or`
  unfoldable pub or_part : {P : Platform} → AttributeMap → Flat P → Option Text
  unfolding map_filter_expression joined_inner
  or_part n (one e) = map_filter_expression n true e
  or_part n (multi op fs) = do t ← joined_inner n fs; some (codes " (" ++ (t ++ codes ")"))

  unfoldable pub joined_parts : {P : Platform} → AttributeMap → Flats P → Option Text
  unfolding or_part
  joined_parts n nil = some []
  joined_parts n (cons f nil) = or_part n f
  joined_parts n (cons f (cons g fs)) = do
    s ← or_part n f
    t ← joined_parts n (cons g fs)
    some (s ++ (codes " || " ++ t))

  unfoldable mutual
    unfolding map_to_condition_clause joined_parts clause

    -- `mapFlattenedClause`
    pub map_flattened_clause : {P : Platform} → AttributeMap → Flat P → Bool → Option Text
    map_flattened_clause n (one e) is_unless = map_to_condition_clause n e is_unless
    map_flattened_clause n (multi both fs) is_unless = clause_lines n fs is_unless
    map_flattened_clause n (multi either fs) is_unless = do
      t ← joined_parts n fs
      some (clause is_unless t)

    -- the lines of the parts of an `and`
    pub clause_lines : {P : Platform} → AttributeMap → Flats P → Bool → Option Text
    clause_lines n nil is_unless = some []
    clause_lines n (cons f nil) is_unless = map_flattened_clause n f is_unless
    clause_lines n (cons f (cons g fs)) is_unless = do
      s ← map_flattened_clause n f is_unless
      t ← clause_lines n (cons g fs) is_unless
      some (s ++ (10 ∷ t))

  -- the cases of `MapConditionToCedar` by the tree
  unfoldable pub top_clauses : {P : Platform} → AttributeMap → Expression P → Bool → Option Text
  unfolding check_and_flatten map_flattened_clause
  top_clauses n (negation e) is_unless =
      map_flattened_clause n (check_and_flatten e) (not is_unless)
  top_clauses n (precedence e) is_unless = map_flattened_clause n (check_and_flatten e) is_unless
  top_clauses n (logical op l r) is_unless =
      map_flattened_clause n (check_and_flatten (logical op l r)) is_unless
  top_clauses n e is_unless = map_to_condition_clause n e is_unless

  unfoldable finished : Option Text → Option (Except MapError Text)
  finished none = none
  finished (some t) = some (done t)

  -- `MapConditionToCedar`
  unfoldable pub map_condition_to_cedar :
      (P : Platform) → AttributeMap → Option ConditionInfo → Option (Except MapError Text)
  unfolding check_compatibility top_clauses finished
  map_condition_to_cedar P n none = some (done [])
  map_condition_to_cedar P n (some c) = elim (parse_filter P c.rule) [
    | err e ↦ some (raise (bad_rule e))
    | ok e ↦
        if check_compatibility e
        then finished (top_clauses n e (text_eq c.action (codes "deny")))
        else some (raise value_path_unsupported)
  ]
