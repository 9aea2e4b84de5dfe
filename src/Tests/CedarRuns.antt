-- ===== src/Tests/CedarRuns.antt =====
-- The properties of the mapper to Cedar at concrete rules.
use policy_conditions.Base.{Bool, true, false, ◌≡◌, refl, Option, none, some, List, [], ◌∷◌, ◌++◌}
use policy_conditions.Base.Text.{Text, codes, text_eq}
use policy_conditions.Base.Except.{done}
use policy_conditions.Conditions.Ast.{Expression, both, either, logical, precedence}
use policy_conditions.Conditions.Meaning.{Truth, holds}
use policy_conditions.Conditions.Walk.{AttributeMap}
use policy_conditions.Parser.Result.{ok}
use policy_conditions.Parser.Loop.{parse_filter}
use policy_conditions.Cedar.Conditions.{
  check_and_flatten, check_compatibility, map_condition_to_cedar, top_clauses,
  map_filter_expression,
}
use policy_conditions.Cedar.Conditions.Flatten.{flat_holds, check_and_flatten-holds}
use policy_conditions.Cedar.Conditions.Grammar.{Clauses}
use policy_conditions.Cedar.Conditions.Texts.{IsWritten}
use policy_conditions.Cedar.Conditions.Clauses.{
  IsTopClausal, signed, map_condition_to_cedar-Clauses,
}
use policy_conditions.Cedar.Conditions.Panics.{top_clauses-or_and_or}
use policy_conditions.Tests.Sample.{sample, present, condition_of}

abbrev no_names : AttributeMap
no_names = record { forward = []; reverse = [] }

abbrev some_hold : Truth sample
some_hold e = true

abbrev no_text : Text → Option Text
no_text t = none

abbrev a_x : Expression sample
a_x = present (codes "a.x")

abbrev b_x : Expression sample
b_x = present (codes "b.x")

abbrev c_x : Expression sample
c_x = present (codes "c.x")

abbrev or_and : Expression sample
or_and = logical both (logical either a_x b_x) c_x

abbrev or_and_rule : Text
or_and_rule = codes "a.x pr or b.x pr and c.x pr"

parse-or_and : parse_filter sample or_and_rule ≡ ok or_and
unfolding parse_filter policy_conditions.Parser.Step.case_of policy_conditions.Parser.Step.combine
    policy_conditions.Base.Text.equal_fold policy_conditions.Parser.State.create_expression text_eq
    policy_conditions.Base.Text.to_lower policy_conditions.Types.Value.Parse.parse_value
    policy_conditions.Base.Text.has_prefix policy_conditions.Base.Text.trim_space
    policy_conditions.Types.Value.Numeric.is_numeric policy_conditions.Types.Entity.parse_entity
parse-or_and = refl

check-or_and : check_compatibility or_and ≡ true
unfolding check_compatibility
check-or_and = refl

or_and-IsTopClausal :
    IsTopClausal no_text no_text no_names (text_eq (codes "allow") (codes "deny")) or_and
unfolding check_and_flatten text_eq policy_conditions.Cedar.Conditions.map_filter_attr_expr
    policy_conditions.Conditions.Walk.get_provider_attribute_name policy_conditions.Base.Dict.get
    policy_conditions.Types.Value.value_string policy_conditions.Types.Entity.to_string
or_and-IsTopClausal =
    (refl, (((tt, (_, refl), refl), (tt, (_, refl), refl)), (tt, (_, refl), refl)))

map_condition_to_cedar-Clauses_example :
    (t : Text) × (map_condition_to_cedar no_text no_text sample no_names
        (some (condition_of or_and_rule))
      ≡ some (done t))
    × Clauses no_text no_text no_names some_hold t
        (signed (text_eq (codes "allow") (codes "deny")) (holds some_hold or_and))
map_condition_to_cedar-Clauses_example =
    map_condition_to_cedar-Clauses no_text no_text no_names some_hold (condition_of or_and_rule)
      or_and parse-or_and check-or_and or_and-IsTopClausal

abbrev bracketed_or : Expression sample
bracketed_or = logical both (precedence (logical either a_x b_x)) c_x

bracketed_or-IsWritten : IsWritten no_text no_text no_names bracketed_or
unfolding policy_conditions.Cedar.Conditions.map_filter_attr_expr
    policy_conditions.Conditions.Walk.get_provider_attribute_name policy_conditions.Base.Dict.get
    policy_conditions.Types.Value.value_string policy_conditions.Types.Entity.to_string
bracketed_or-IsWritten = (((_, refl), (_, refl)), (_, refl))

check_and_flatten-holds_example :
    flat_holds some_hold (check_and_flatten or_and) ≡ holds some_hold or_and
check_and_flatten-holds_example = check_and_flatten-holds some_hold or_and

top_clauses-or_and_or_example :
    top_clauses no_text no_text no_names
      (logical either (logical both (logical either a_x b_x) c_x) a_x)
      false
    ≡ none
top_clauses-or_and_or_example = top_clauses-or_and_or no_text no_text no_names a_x b_x c_x a_x false
