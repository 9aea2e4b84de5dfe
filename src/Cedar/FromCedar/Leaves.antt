-- ===== src/Cedar/FromCedar/Leaves.antt =====
-- models/conditionLangs/cedarConditions/map_cedar.go: the comparisons of a Cedar tree.
pub mod Attributes
pub mod Operands
use policy_conditions.Base.{
  ℕ, Bool, true, false, not, ◌&&◌, ◌||◌, Option, none, some, List, [], ◌∷◌, ◌++◌, ◌==◌,
  if◌then◌else◌,
}
use policy_conditions.Base.Lists.{length, take, drop}
use policy_conditions.Base.Text.{Text, codes, join, contains, has_prefix, has_suffix}
use policy_conditions.Base.Except.{Except, raise, done, ◌>>=◌}
use policy_conditions.Types.Platform.{Platform}
use policy_conditions.Types.Quote.{quote}
use policy_conditions.Types.Value.{Value}
use policy_conditions.Types.Value.Compare.{
  CompareOperator, pr, eq, ne, within, sw, ew, gt, lt, ge, le, is_type, co,
}
use policy_conditions.Types.Value.Parse.{parse_value}
use policy_conditions.Conditions.Ast.{
  LogicalOperator, both, either, Expression, logical, negation, precedence, attribute, to_string,
}
use policy_conditions.Policy.Info.{ConditionInfo}
use policy_conditions.Cedar.Comparison.{remove_quotes}
use policy_conditions.Cedar.FromCedar.Tree
use policy_conditions.Cedar.FromCedar.Tree.{
  CedarValue, Relation, Method, Node, Nodes, nil, cons, Kind, ConditionJson,
}

-- The errors of the mapper, and a panic
pub data CedarError : Type 0 where
  panicked bad_value if_then_else_unsupported unknown_comparator : CedarError
  like_unsupported : Text → CedarError
  calculation_unsupported unsupported_expression : CedarError

-- `strings.Replace(s, "::", ":", -1)`; the flag says that a colon was read and not yet written
unfoldable single_colons : Bool → Text → Text
single_colons pending [] = if pending then b':' ∷ [] else []
single_colons pending (c ∷ cs) =
    let rest = single_colons (c == b':' && not pending) cs in
    if c == b':'
    then (if pending then b':' ∷ rest else rest)
    else (if pending then b':' ∷ c ∷ rest else c ∷ rest)

-- `val.String()`
abbrev value_text : CedarValue → Text
value_text (Tree.string_value t) = t
value_text (Tree.entity_uid type id t) = t
value_text (Tree.other_value t) = t

unfoldable comparator_value : CedarValue → Text
unfolding single_colons
comparator_value (Tree.string_value t) = quote t
comparator_value (Tree.entity_uid type id t) =
    single_colons false type ++ (codes ":\"" ++ (id ++ codes "\""))
comparator_value (Tree.other_value t) = t

unfoldable mutual
  unfolding comparator_value

  -- `mapCedarRelationComparator`
  pub map_cedar_relation_comparator : Node → Except CedarError Text
  map_cedar_relation_comparator (Tree.value v) = done (comparator_value v)
  map_cedar_relation_comparator (Tree.var x) = done x
  map_cedar_relation_comparator (Tree.set ns) = do
    vals ← comparators ns
    done (codes "[" ++ (join (codes ", ") vals ++ codes "]"))
  map_cedar_relation_comparator (Tree.access n attr) = do
    lh ← map_cedar_relation_comparator n
    done (lh ++ (codes "." ++ attr))
  map_cedar_relation_comparator (Tree.if_then_else c t e) = raise if_then_else_unsupported
  map_cedar_relation_comparator n = raise unknown_comparator

  comparators : Nodes → Except CedarError (List Text)
  comparators nil = done []
  comparators (cons n ns) = do
    v ← map_cedar_relation_comparator n
    vs ← comparators ns
    done (v ∷ vs)

-- the text, or an empty one with an error that the caller drops
abbrev or_empty : Except CedarError Text → Text
or_empty (raise e) = []
or_empty (done t) = t

abbrev or_bad : {P : Platform} → Option (Value P) → Except CedarError (Value P)
or_bad none = raise bad_value
or_bad (some v) = done v

abbrev pub relation_operator : Relation → CompareOperator
relation_operator Tree.equals = eq
relation_operator Tree.not_equals = ne
relation_operator Tree.greater_than = gt
relation_operator Tree.greater_or_equal = ge
relation_operator Tree.less_than = lt
relation_operator Tree.less_or_equal = le
relation_operator Tree.is_in = within
relation_operator Tree.contains = co

abbrev pub method_operator : Method → CompareOperator
method_operator Tree.greater_method = gt
method_operator Tree.greater_or_equal_method = ge
method_operator Tree.less_method = lt
method_operator Tree.less_or_equal_method = le

-- the loop of `mapCedarFunc`, from the texts of the left and the right side
unfoldable method_sides : Text → Text → Nodes → Text × Text
unfolding map_cedar_relation_comparator
method_sides left right nil = (left, right)
method_sides left right (cons (Tree.value v) ns) = method_sides left (value_text v) ns
method_sides left right (cons (Tree.access n attr) ns) =
    method_sides (or_empty (map_cedar_relation_comparator n) ++ (codes "." ++ attr)) right ns
method_sides left right (cons n ns) = method_sides left right ns

-- the text without its last byte
abbrev without_last : Text → Text
without_last [] = []
without_last (c ∷ []) = []
without_last (c ∷ d ∷ cs) = c ∷ without_last (d ∷ cs)

module _ (P : Platform) where
  -- a comparison of the values of two texts
  unfoldable compared_texts : CompareOperator → Text → Text → Except CedarError (Expression P)
  compared_texts op lh rh = do
    lhv ← or_bad (parse_value P lh)
    rhv ← or_bad (parse_value P rh)
    done (attribute lhv op (some rhv))

  -- `mapRelation`
  unfoldable pub map_relation : CompareOperator → Node → Node → Except CedarError (Expression P)
  unfolding map_cedar_relation_comparator compared_texts
  map_relation op left right = do
    lh ← map_cedar_relation_comparator left
    rh ← map_cedar_relation_comparator right
    compared_texts op lh rh

  -- `mapCedarFunc`
  unfoldable pub map_cedar_func : CompareOperator → Nodes → Except CedarError (Expression P)
  unfolding method_sides compared_texts
  map_cedar_func op ns = let (left, right) = method_sides [] [] ns in compared_texts op left right

  -- the case `Is`
  unfoldable pub map_is : Node → Text → Except CedarError (Expression P)
  unfolding map_cedar_relation_comparator compared_texts
  map_is n type = do lh ← map_cedar_relation_comparator n; compared_texts is_type lh type

  -- the part `In` of the case `Is`; an error in the text of the node is dropped
  unfoldable pub map_is_in : Node → Node → Except CedarError (Expression P)
  unfolding map_cedar_relation_comparator compared_texts
  map_is_in n m = do
    lh ← map_cedar_relation_comparator n
    compared_texts within lh (or_empty (map_cedar_relation_comparator m))

  -- the case `Has`
  unfoldable pub map_has : Node → Text → Except CedarError (Expression P)
  unfolding map_cedar_relation_comparator
  map_has n attr = do
    lh ← map_cedar_relation_comparator n
    lhv ← or_bad (
        parse_value P
          (lh ++ (codes "." ++ (if contains attr (codes " ") then quote attr else attr))))
    done (attribute lhv pr none)

  -- the operand of a `like`, quoted again
  unfoldable like_value : CompareOperator → Value P → Text → Except CedarError (Expression P)
  like_value op lhv t =
      or_bad (parse_value P (quote t)) >>= λ rhv. done (attribute lhv op (some rhv))

  -- a pattern that starts with an asterisk
  unfoldable like_starred : Text → Value P → Except CedarError (Expression P)
  unfolding like_value
  like_starred p lhv =
      if contains (drop 1 p) (codes "*")
      then raise (like_unsupported p)
      else like_value ew lhv (drop 1 p)

  -- The case `Like`, from the pattern without its quotes. Of one asterisk alone the bounds `1` and `0` are
  -- cut, which panics.
  unfoldable like_pattern : Text → Value P → Except CedarError (Expression P)
  unfolding like_starred
  like_pattern p lhv =
      if has_prefix p (codes "*")
      then (if has_suffix p (codes "*")
          then (if length p == 1
              then raise panicked
              else like_value co lhv (without_last (drop 1 p)) >>= λ e.
                  if contains (without_last (drop 1 p)) (codes "*")
                  then like_starred p lhv
                  else done e)
          else like_starred p lhv)
      else if has_suffix p (codes "*") && not (contains (without_last p) (codes "*"))
      then like_value sw lhv (without_last p)
      else raise (like_unsupported p)

-- `unquote` stands for `strconv.Unquote`, none for its error.
module _ (P : Platform) (unquote : Text → Option Text) where
  -- The case `Like`; an error in the text of the node is dropped. The pattern is the text that
  -- `MarshalCedar` gives.
  unfoldable pub map_like : Node → Text → Except CedarError (Expression P)
  unfolding map_cedar_relation_comparator like_pattern remove_quotes
  map_like n pattern = do
    lhv ← or_bad (parse_value P (or_empty (map_cedar_relation_comparator n)))
    like_pattern P (remove_quotes unquote pattern) lhv
