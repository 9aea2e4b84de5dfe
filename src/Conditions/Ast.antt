-- ===== src/Conditions/Ast.antt =====
-- pkg/hexapolicy/conditions/parser/types.go: the syntax tree of a condition, and its text.
use policy_conditions.Base.{Option, none, some, [], ◌∷◌, ◌++◌}
use policy_conditions.Base.Text.{Text, codes}
use policy_conditions.Types.Entity
use policy_conditions.Types.Entity.{Entity}
use policy_conditions.Types.Platform.{Platform}
use policy_conditions.Types.Value.{Value, value_string}
use policy_conditions.Types.Value.Compare.{
  CompareOperator, pr, eq, ne, within, sw, ew, gt, lt, ge, le, is_type, co,
}

pub data LogicalOperator : Type 0 where
  both either : LogicalOperator

-- `Expression`
pub data Expression (P : Platform) : Type 0 where
  logical : LogicalOperator → Expression P → Expression P → Expression P
  negation : Expression P → Expression P
  precedence : Expression P → Expression P
  attribute : Value P → CompareOperator → Option (Value P) → Expression P
  value_path :
      Entity → Option Text → Expression P → Option CompareOperator → Option (Value P) → Expression P

-- The texts of the constants.
unfoldable pub logical_string : LogicalOperator → Text
logical_string both = codes "and"
logical_string either = codes "or"

unfoldable pub operator_string : CompareOperator → Text
operator_string pr = codes "pr"
operator_string eq = codes "eq"
operator_string ne = codes "ne"
operator_string co = codes "co"
operator_string within = codes "in"
operator_string sw = codes "sw"
operator_string ew = codes "ew"
operator_string gt = codes "gt"
operator_string lt = codes "lt"
operator_string ge = codes "ge"
operator_string le = codes "le"
operator_string is_type = codes "is"

abbrev pub spaced : Text → Text → Text → Text
spaced a b c = a ++ (32 ∷ (b ++ (32 ∷ c)))

optional_string : {P : Platform} → Option (Value P) → Text
optional_string none = []
optional_string (some v) = value_string v

-- `AttributeExpression.String`. An operator other than `pr` comes with a value to compare with.
unfoldable pub attribute_string :
    {P : Platform} → Value P → CompareOperator → Option (Value P) → Text
unfolding optional_string operator_string
attribute_string v pr w = value_string v ++ codes " pr"
attribute_string v op w = spaced (value_string v) (operator_string op) (optional_string w)

-- what `ValuePathExpression.String` writes before the operator
path_string : Text → Text → Option Text → Text
path_string attr filter none = attr ++ (b'[' ∷ (filter ++ codes "]"))
path_string attr filter (some sub) = attr ++ (b'[' ∷ (filter ++ (codes "]." ++ sub)))

path_compared : {P : Platform} → Text → Option CompareOperator → Option (Value P) → Text
unfolding optional_string operator_string
path_compared path none w = path
path_compared path (some pr) w = path ++ codes " pr"
path_compared path (some op) w = spaced path (operator_string op) (optional_string w)

-- `String`
unfoldable pub to_string : {P : Platform} → Expression P → Text
unfolding attribute_string path_string path_compared logical_string
to_string (logical op l r) = spaced (to_string l) (logical_string op) (to_string r)
to_string (negation e) = codes "not (" ++ (to_string e ++ codes ")")
to_string (precedence e) = codes "(" ++ (to_string e ++ codes ")")
to_string (attribute v op w) = attribute_string v op w
to_string (value_path a sub f op w) =
    path_compared (path_string (Entity.to_string a) (to_string f) sub) op w

negation_dif : {P : Platform} → Expression P → Text
unfolding to_string
negation_dif (attribute v op w) = codes "not(" ++ (attribute_string v op w ++ codes ")")
negation_dif (value_path a sub f op w) =
    codes "not(" ++ (to_string (value_path a sub f op w) ++ codes ")")
negation_dif e = codes "not"

-- `Dif`: what `ConditionInfo.Equals` compares of a node
unfoldable pub dif : {P : Platform} → Expression P → Text
unfolding to_string negation_dif
dif (logical op l r) = logical_string op
dif (negation e) = negation_dif e
dif (precedence e) = []
dif (attribute v op w) = attribute_string v op w
dif (value_path a sub f op w) = to_string (value_path a sub f op w)
