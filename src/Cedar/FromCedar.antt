-- ===== src/Cedar/FromCedar.antt =====
-- models/conditionLangs/cedarConditions/map_cedar.go, from Cedar to IDQL. The parser of Cedar, of another
-- package, gives the JSON trees.
pub mod Tree
pub mod Leaves
pub mod Meaning
use policy_conditions.Base.{
  ℕ, Bool, true, false, not, Option, none, some, List, [], ◌∷◌, ◌++◌, if◌then◌else◌,
}
use policy_conditions.Base.Text.{Text, codes}
use policy_conditions.Base.Except.{Except, raise, done, ◌>>=◌}
use policy_conditions.Types.Platform.{Platform}
use policy_conditions.Types.Value.Compare.{eq, ne, within, gt, lt, ge, le, co}
use policy_conditions.Conditions.Ast.{
  both, either, Expression, logical, negation, precedence, attribute, spaced, logical_string,
  to_string,
}
use policy_conditions.Policy.Info.{ConditionInfo}
use policy_conditions.Cedar.FromCedar.Tree
use policy_conditions.Cedar.FromCedar.Tree.{Node, Kind, when, unless, other_kind, ConditionJson}
use policy_conditions.Cedar.FromCedar.Leaves.{
  CedarError, panicked, if_then_else_unsupported, calculation_unsupported, unsupported_expression,
  relation_operator, method_operator, map_relation, map_cedar_func, map_is, map_is_in, map_has,
  map_like,
}

-- a clause's text with the error that comes with it
abbrev pub Clause : Type 0
Clause = Text × Option CedarError

module _ (P : Platform) (unquote : Text → Option Text) where
  -- a node that is no `&&`, `||` or `!`
  unfoldable pub map_leaf : Node → Except CedarError (Expression P)
  unfolding map_relation map_cedar_func map_is map_is_in map_has map_like
  map_leaf (Tree.relation r left right) = map_relation P (relation_operator r) left right
  map_leaf (Tree.method m ns) = map_cedar_func P (method_operator m) ns
  map_leaf (Tree.is n type) = map_is P n type
  map_leaf (Tree.is_and_in n type m) = do
    is_exp ← map_is P n type
    in_exp ← map_is_in P n m
    done (logical both is_exp in_exp)
  map_leaf (Tree.has n attr) = map_has P n attr
  map_leaf (Tree.like n pattern) = map_like P unquote n pattern
  map_leaf (Tree.if_then_else c t e) = raise if_then_else_unsupported
  map_leaf Tree.calculation = raise calculation_unsupported
  map_leaf n = raise unsupported_expression

  -- `mapCedarNode`, `mapCedarOr` and `mapCedarAnd`; the flag is `isNested`. No expression is nil, for which
  -- `makeLogical` has two cases.
  unfoldable pub map_cedar_node : Bool → Node → Except CedarError (Expression P)
  unfolding map_leaf
  map_cedar_node nested (Tree.conjunction l r) = do
    lh ← map_cedar_node true l
    rh ← map_cedar_node true r
    done (logical both lh rh)
  map_cedar_node nested (Tree.disjunction l r) = do
    lh ← map_cedar_node nested l
    rh ← map_cedar_node nested r
    done (if nested then precedence (logical either lh rh) else logical either lh rh)
  map_cedar_node nested (Tree.negation n) = do e ← map_cedar_node nested n; done (negation e)
  map_cedar_node nested n = map_leaf n

  -- the text of a `when` clause, and of an only `unless` clause
  unfoldable plain_clause : Except CedarError (Expression P) → Option Clause
  unfolding to_string
  plain_clause (raise panicked) = none
  plain_clause (raise e) = some ([], some e)
  plain_clause (done e) = some (to_string e, none)

  -- The text of an `unless` clause among several: of no expression, `String` panics.
  unfoldable negated_clause : Except CedarError (Expression P) → Option Clause
  unfolding to_string
  negated_clause (raise e) = none
  negated_clause (done e) = some (to_string (negation e), none)

  -- `mapConditionClause`, none where it panics
  unfoldable pub map_condition_clause : Bool → ConditionJson → Option Clause
  unfolding map_cedar_node plain_clause negated_clause
  map_condition_clause single c = elim c.kind [
    | when ↦ plain_clause (map_cedar_node (not single) c.body)
    | unless ↦
        if single
        then plain_clause (map_cedar_node (not single) c.body)
        else negated_clause (map_cedar_node (not single) c.body)
    | other_kind ↦ some ([], none)
  ]

  -- The loop over the clauses behind the first one, from the text so far. The error of a clause replaces
  -- the one before it.
  unfoldable pub merge_clauses : Text → Option CedarError → List ConditionJson → Option Clause
  unfolding map_condition_clause logical_string
  merge_clauses merge err [] = some (merge, err)
  merge_clauses merge err (c ∷ cs) = elim (map_condition_clause false c) [
    | none ↦ none
    | some (t, e) ↦ merge_clauses (spaced merge (logical_string both) t) e cs
  ]

  abbrev allowed : Clause → Option ConditionInfo × Option CedarError
  allowed (t, err) = (some (record { rule = t; action = codes "allow" }), err)

  abbrev single_action : Kind → Text
  single_action when = codes "allow"
  single_action k = codes "deny"

  -- `MapCedarConditionToHexa`, none where it panics
  unfoldable pub map_cedar_condition_to_hexa :
      List ConditionJson → Option (Option ConditionInfo × Option CedarError)
  unfolding map_condition_clause merge_clauses
  map_cedar_condition_to_hexa [] = some (none, none)
  map_cedar_condition_to_hexa (c ∷ []) = elim (map_condition_clause true c) [
    | none ↦ none
    | some (t, err) ↦ some (some (record { rule = t; action = single_action c.kind }), err)
  ]
  map_cedar_condition_to_hexa (c ∷ d ∷ cs) = elim (map_condition_clause false c) [
    | none ↦ none
    | some (t, err) ↦ elim (merge_clauses t err (d ∷ cs)) [
      | none ↦ none
      | some clause ↦ some (allowed clause)
    ]
  ]
