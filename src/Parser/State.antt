-- ===== src/Parser/State.antt =====
-- The local variables of `parseFilterSub`, and `createExpression`.
-- Positions count bytes and runes alike, as they do in ASCII text; an index of -1 is `none`.
use policy_conditions.Base.{ℕ, Bool, false, Option, none, some, List, [], if◌then◌else◌}
use policy_conditions.Base.Text.{Text, codes, text_eq, to_lower}
use policy_conditions.Types.Entity.{Entity}
use policy_conditions.Types.Platform.{Platform}
use policy_conditions.Types.Value.{Value}
use policy_conditions.Types.Value.Compare.{
  CompareOperator, pr, eq, ne, within, sw, ew, gt, lt, ge, le, co,
}
use policy_conditions.Types.Value.Parse.{parse_value}
use policy_conditions.Conditions.Ast.{Expression, attribute, value_path}
use policy_conditions.Parser.Result.{Result, ok, err, bad_value, unsupported_operator, ◌>>=◌}

-- `ValuePathExpression` before its operator is known
pub record ValuePath (P : Platform) : Type 0 where
  pub main : Entity
  pub sub : Option Text
  pub filter : Expression P

pub record State (P : Platform) : Type 0 where
  pub pos : ℕ
  pub bracket_count : ℕ
  pub val_path_count : ℕ
  pub word : Option ℕ
  pub clauses : List (Expression P)
  pub cond : Text
  pub is_logic : Bool
  pub is_and : Bool
  pub is_not : Bool
  pub is_attr : Bool
  pub attr : Text
  pub is_expr : Bool
  pub is_value : Bool
  pub is_quote : Bool
  pub vpe : Option (ValuePath P)

abbrev pub initial : (P : Platform) → State P
initial P = record {
  pos = 0;
  bracket_count = 0;
  val_path_count = 0;
  word = none;
  clauses = [];
  cond = [];
  is_logic = false;
  is_and = false;
  is_not = false;
  is_attr = false;
  attr = [];
  is_expr = false;
  is_value = false;
  is_quote = false;
  vpe = none;
}

-- the operators that `createExpression` accepts, in lower case
unfoldable pub operator_of : Text → Option CompareOperator
operator_of t =
    if text_eq t (codes "eq")
    then some eq
    else if text_eq t (codes "ne")
    then some ne
    else if text_eq t (codes "sw")
    then some sw
    else if text_eq t (codes "ew")
    then some ew
    else if text_eq t (codes "gt")
    then some gt
    else if text_eq t (codes "lt")
    then some lt
    else if text_eq t (codes "ge")
    then some ge
    else if text_eq t (codes "le")
    then some le
    else if text_eq t (codes "co")
    then some co
    else if text_eq t (codes "in")
    then some within
    else if text_eq t (codes "pr")
    then some pr
    else none

module _ {P : Platform} where
  -- a value, or the error of `ParseValue`; this stands also for its panic on a value that is one quote
  unfoldable pub known_value : Option (Value P) → Result (Value P)
  known_value none = err bad_value
  known_value (some v) = ok v

  -- the value behind an operator; `pr` takes none
  unfoldable pub right_value : CompareOperator → Text → Result (Option (Value P))
  unfolding known_value
  right_value pr value = ok none
  right_value op value = do v ← known_value (parse_value P value); ok (some v)

  -- `NewAttributeExpression`
  unfoldable pub new_attribute : Text → CompareOperator → Text → Result (Expression P)
  unfolding right_value
  new_attribute path op value = do
    left ← known_value (parse_value P path)
    right ← right_value op value
    ok (attribute left op right)

  -- the branch of `createExpression` for a supported operator
  unfoldable pub compared :
      Text → CompareOperator → Text → Option (ValuePath P) → Result (Expression P)
  unfolding new_attribute
  compared path op value none = new_attribute path op value
  compared path op value (some v) = do
    right ← right_value op value
    ok (value_path v.main v.sub v.filter (some op) right)

  -- `createExpression`
  unfoldable pub create_expression :
      Text → Text → Text → Option (ValuePath P) → Result (Expression P)
  unfolding compared operator_of
  create_expression path cond value vpe = elim (operator_of (to_lower cond)) [
    | none ↦ err (unsupported_operator cond)
    | some op ↦ compared path op value vpe
  ]
