-- ===== src/Tests/ParserRuns.antt =====
-- `ParseFilter` and `SerializeExpression` at concrete conditions.
use policy_conditions.Base.{◌≡◌, refl, none, some, List, [], ◌∷◌}
use policy_conditions.Base.Text.{Text, codes}
use policy_conditions.Conditions.Ast.{to_string}
use policy_conditions.Parser.Result.{
  Result, ok, err, unsupported_operator, missing_open_bracket, missing_close_bracket, ◌>>=◌,
}
use policy_conditions.Parser.Loop.{parse_filter}
use policy_conditions.Tests.Sample.{sample}

abbrev read : Text → Result Text
unfolding parse_filter to_string
read t = parse_filter sample t >>= λ e. ok (to_string e)

plain : read (codes "a eq b") ≡ ok (codes "a eq b")
unfolding read policy_conditions.Parser.Step.case_of policy_conditions.Parser.Step.combine
    policy_conditions.Base.Text.equal_fold policy_conditions.Base.Text.has_suffix
    policy_conditions.Parser.State.create_expression policy_conditions.Base.Text.text_eq
    policy_conditions.Base.Text.to_lower policy_conditions.Types.Value.Parse.parse_value
    policy_conditions.Base.Text.trim_space policy_conditions.Types.Value.Numeric.is_numeric
    policy_conditions.Types.Value.value_string policy_conditions.Types.Entity.to_string
    policy_conditions.Types.Entity.parse_entity
plain = refl

-- the `not` of an earlier bracket still holds at a later one
sticky_not : read (codes "not (a eq 1) and (b eq 2)") ≡ ok (codes "not (a eq 1) and not (b eq 2)")
unfolding read policy_conditions.Parser.Step.case_of policy_conditions.Parser.Step.combine
    policy_conditions.Base.Text.equal_fold policy_conditions.Parser.Brackets.close_bracket
    policy_conditions.Base.Text.has_suffix policy_conditions.Parser.State.create_expression
    policy_conditions.Base.Text.text_eq policy_conditions.Base.Text.to_lower
    policy_conditions.Types.Value.Parse.parse_value policy_conditions.Base.Text.trim_space
    policy_conditions.Types.Value.Numeric.is_numeric policy_conditions.Types.Value.value_string
    policy_conditions.Types.Entity.to_string policy_conditions.Types.Entity.parse_entity
    policy_conditions.Types.Value.comparable_string
sticky_not = refl

-- `not` at the start of an attribute's name is taken for the operator
not_in_name : read (codes "notes eq 1") ≡ ok (codes "es eq 1")
unfolding read policy_conditions.Parser.Step.case_of policy_conditions.Parser.Step.combine
    policy_conditions.Base.Text.equal_fold policy_conditions.Base.Text.has_suffix
    policy_conditions.Parser.State.create_expression policy_conditions.Base.Text.text_eq
    policy_conditions.Base.Text.to_lower policy_conditions.Types.Value.Parse.parse_value
    policy_conditions.Base.Text.trim_space policy_conditions.Types.Value.Numeric.is_numeric
    policy_conditions.Types.Value.value_string policy_conditions.Types.Entity.to_string
    policy_conditions.Types.Entity.parse_entity policy_conditions.Types.Value.comparable_string
not_in_name = refl

-- an operator at the end of the text counts as `pr`
unknown_operator_at_end : read (codes "username foo") ≡ ok (codes "username pr")
unfolding read policy_conditions.Parser.Step.case_of policy_conditions.Parser.Step.combine
    policy_conditions.Base.Text.equal_fold policy_conditions.Parser.State.create_expression
    policy_conditions.Base.Text.text_eq policy_conditions.Base.Text.to_lower
    policy_conditions.Types.Value.Parse.parse_value policy_conditions.Base.Text.has_prefix
    policy_conditions.Base.Text.trim_space policy_conditions.Types.Value.Numeric.is_numeric
    policy_conditions.Types.Value.value_string policy_conditions.Types.Entity.to_string
    policy_conditions.Types.Entity.parse_entity
unknown_operator_at_end = refl

no_value : read (codes "a eq") ≡ ok (codes "a pr")
unfolding read policy_conditions.Parser.Step.case_of policy_conditions.Parser.Step.combine
    policy_conditions.Base.Text.equal_fold policy_conditions.Parser.State.create_expression
    policy_conditions.Base.Text.text_eq policy_conditions.Base.Text.to_lower
    policy_conditions.Types.Value.Parse.parse_value policy_conditions.Base.Text.has_prefix
    policy_conditions.Base.Text.trim_space policy_conditions.Types.Value.Numeric.is_numeric
    policy_conditions.Types.Value.value_string policy_conditions.Types.Entity.to_string
    policy_conditions.Types.Entity.parse_entity
no_value = refl

-- an attribute before `or` that has no operator is lost
lost_operand : read (codes "a or (b eq 1 and c pr)") ≡ ok (codes "(b eq 1 and c pr)")
unfolding read policy_conditions.Parser.Step.case_of policy_conditions.Parser.Step.combine
    policy_conditions.Base.Text.equal_fold policy_conditions.Parser.Brackets.close_bracket
    policy_conditions.Base.Text.has_suffix policy_conditions.Parser.State.create_expression
    policy_conditions.Base.Text.text_eq policy_conditions.Base.Text.to_lower
    policy_conditions.Types.Value.Parse.parse_value policy_conditions.Base.Text.trim_space
    policy_conditions.Types.Value.Numeric.is_numeric policy_conditions.Types.Value.value_string
    policy_conditions.Types.Entity.to_string policy_conditions.Types.Entity.parse_entity
    policy_conditions.Types.Value.comparable_string
lost_operand = refl

-- the word index is not reset behind an array
behind_array : read (codes "a in [\"x\",\"y\"] and b eq c") ≡ err (unsupported_operator (codes "b"))
unfolding read policy_conditions.Parser.Step.case_of policy_conditions.Parser.Step.combine
    policy_conditions.Base.Text.equal_fold policy_conditions.Parser.Brackets.close_square
    policy_conditions.Parser.State.create_expression policy_conditions.Base.Text.text_eq
    policy_conditions.Base.Text.to_lower policy_conditions.Types.Value.Parse.parse_value
    policy_conditions.Base.Text.has_prefix policy_conditions.Base.Text.trim_space
    policy_conditions.Types.Value.Numeric.is_numeric policy_conditions.Base.Text.has_suffix
    policy_conditions.Base.Text.split policy_conditions.Base.Text.cut_prefix
behind_array = refl

open_bracket : read (codes "(a eq b") ≡ err missing_close_bracket
unfolding read policy_conditions.Parser.Step.case_of policy_conditions.Parser.Brackets.close_bracket
    policy_conditions.Parser.Step.combine
open_bracket = refl

close_bracket : read (codes "a eq b)") ≡ err missing_open_bracket
unfolding read policy_conditions.Parser.Step.case_of policy_conditions.Parser.Step.combine
    policy_conditions.Base.Text.equal_fold policy_conditions.Base.Text.has_suffix
close_bracket = refl
