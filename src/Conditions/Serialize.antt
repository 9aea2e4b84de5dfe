-- ===== src/Conditions/Serialize.antt =====
-- `SerializeExpression` of pkg/hexapolicy/conditions/conditions.go.
use policy_conditions.Base.{Bool, true, false, ◌&&◌, ◌++◌, if◌then◌else◌}
use policy_conditions.Base.Text.{Text, codes}
use policy_conditions.Types.Platform.{Platform}
use policy_conditions.Conditions.Ast.{
  LogicalOperator, both, either, Expression, logical, negation, precedence, attribute, value_path,
  logical_string, attribute_string, spaced,
}

abbrev pub same_operator : LogicalOperator → LogicalOperator → Bool
same_operator both both = true
same_operator either either = true
same_operator _ _ = false

abbrev not_same : LogicalOperator → LogicalOperator → Bool
not_same a b = if same_operator a b then false else true

abbrev is_either : LogicalOperator → Bool
is_either both = false
is_either either = true

-- the expression inside one pair of brackets, if there is one
abbrev pub strip : {P : Platform} → Expression P → Expression P
strip (precedence e) = e
strip e = e

-- The flag that `checkNestedLogic` passes to `walk`: the child is bracketed unless it repeats `op`.
nested_flag : {P : Platform} → LogicalOperator → Expression P → Bool
nested_flag op (logical o l r) = not_same op o
nested_flag op e = true

-- `walk` of an expression and of what is inside its brackets, as functions of the flag `isChild`
pub record Walks : Type 0 where
  pub whole : Bool → Text
  pub stripped : Bool → Text

-- `checkNestedLogic(e, op)`, from the walks of `e`
checked : {P : Platform} → LogicalOperator → Expression P → Walks → Text
unfolding nested_flag
checked op e w = w.stripped (nested_flag op (strip e))

walk_logical : LogicalOperator → Text → Text → Bool → Text
walk_logical op left right child =
    if child && is_either op
    then codes "(" ++ (spaced left (codes "or") right ++ codes ")")
    else spaced left (logical_string op) right

walks : {P : Platform} → Expression P → Walks
unfolding checked walk_logical
walks (logical op l r) =
    let w = walk_logical op (checked op l (walks l)) (checked op r (walks r)) in
    record { whole = w; stripped = w }
walks (negation e) =
    let w = λ (child : Bool). codes "not(" ++ ((walks e).whole false ++ codes ")") in
    record { whole = w; stripped = w }
walks (precedence e) = record {
  whole = λ child. codes "(" ++ ((walks e).whole false ++ codes ")");
  stripped = (walks e).whole;
}
walks (value_path a sub f op w) =
    let w' = λ (child : Bool). (walks f).whole true in record { whole = w'; stripped = w' }
walks (attribute v op w) =
    let w' = λ (child : Bool). attribute_string v op w in record { whole = w'; stripped = w' }

-- `walk`
unfoldable pub walk : {P : Platform} → Bool → Expression P → Text
unfolding walks
walk child e = (walks e).whole child

-- `checkNestedLogic`
unfoldable pub operand : {P : Platform} → LogicalOperator → Expression P → Text
unfolding walks
operand op e = checked op e (walks e)

-- `SerializeExpression`
unfoldable pub serialize : {P : Platform} → Expression P → Text
unfolding walk
serialize e = walk false e
