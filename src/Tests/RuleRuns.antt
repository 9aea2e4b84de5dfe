-- ===== src/Tests/RuleRuns.antt =====
-- The properties of rules at concrete rules.
use policy_conditions.Base.{Bool, true, false, ◌≡◌, ◌≢◌, refl, Option, none, some, List, [], ◌∷◌}
use policy_conditions.Base.Text.{Text, codes, text_eq, to_lower}
use policy_conditions.Base.Dict
use policy_conditions.Base.Dict.{Dict}
use policy_conditions.Types.Entity.{Entity, entity, equals, absent}
use policy_conditions.Types.Value.{Value, variable}
use policy_conditions.Conditions.Ast.{
  Expression, LogicalOperator, both, either, logical, negation, precedence, attribute,
}
use policy_conditions.Conditions.Walk.{
  find_entities, new_name_mapper, get_provider_attribute_name, get_hexa_filter_attribute_path,
}
use policy_conditions.Conditions.Walk.Entities.{leaves, named, find_entities-leaves}
use policy_conditions.Conditions.Walk.Names.{
  name_mapper_round_trip, get_hexa_filter_attribute_path-upper,
}
use policy_conditions.Conditions.Serialize.{serialize}
use policy_conditions.Parser.Result.{ok, err, no_fuel}
use policy_conditions.Parser.Loop.{parse_filter}
use policy_conditions.Parser.Loop.Fuel.{parse_filter-ends}
use policy_conditions.Policy.Equality.{conditions_equal}
use policy_conditions.Policy.Equality.Rules.{conditions_equal-regrouped}
use policy_conditions.Tests.Sample.{sample, a_pr, b_pr, c_pr, condition_of}

abbrev same_bytes : Text → Text
same_bytes t = t

parse-a_and_b : parse_filter sample (codes "a pr and b pr") ≡ ok (logical both a_pr b_pr)
unfolding parse_filter policy_conditions.Parser.Step.case_of policy_conditions.Parser.Step.combine
    policy_conditions.Base.Text.equal_fold policy_conditions.Parser.State.create_expression text_eq
    to_lower policy_conditions.Types.Value.Parse.parse_value policy_conditions.Base.Text.has_prefix
    policy_conditions.Base.Text.trim_space policy_conditions.Types.Value.Numeric.is_numeric
    policy_conditions.Types.Entity.parse_entity
parse-a_and_b = refl

parse-b_and_a : parse_filter sample (codes "b pr and a pr") ≡ ok (logical both b_pr a_pr)
unfolding parse_filter policy_conditions.Parser.Step.case_of policy_conditions.Parser.Step.combine
    policy_conditions.Base.Text.equal_fold policy_conditions.Parser.State.create_expression text_eq
    to_lower policy_conditions.Types.Value.Parse.parse_value policy_conditions.Base.Text.has_prefix
    policy_conditions.Base.Text.trim_space policy_conditions.Types.Value.Numeric.is_numeric
    policy_conditions.Types.Entity.parse_entity
parse-b_and_a = refl

parse-bracket :
    parse_filter sample (codes "a pr and (b pr or c pr)")
    ≡ ok (logical both a_pr (precedence (logical either b_pr c_pr)))
unfolding parse_filter policy_conditions.Parser.Step.case_of policy_conditions.Parser.Step.combine
    policy_conditions.Base.Text.equal_fold policy_conditions.Parser.State.create_expression text_eq
    to_lower policy_conditions.Types.Value.Parse.parse_value policy_conditions.Base.Text.has_prefix
    policy_conditions.Base.Text.trim_space policy_conditions.Types.Value.Numeric.is_numeric
    policy_conditions.Parser.Brackets.close_bracket policy_conditions.Types.Entity.parse_entity
parse-bracket = refl

parse-no_bracket :
    parse_filter sample (codes "a pr and b pr or c pr")
    ≡ ok (logical either (logical both a_pr b_pr) c_pr)
unfolding parse_filter policy_conditions.Parser.Step.case_of policy_conditions.Parser.Step.combine
    policy_conditions.Base.Text.equal_fold policy_conditions.Parser.State.create_expression text_eq
    to_lower policy_conditions.Types.Value.Parse.parse_value policy_conditions.Base.Text.has_prefix
    policy_conditions.Base.Text.trim_space policy_conditions.Types.Value.Numeric.is_numeric
    policy_conditions.Types.Entity.parse_entity
parse-no_bracket = refl

conditions_equal-regrouped_example :
    conditions_equal sample same_bytes
      (condition_of (codes "a pr and (b pr or c pr)"))
      (condition_of (codes "a pr and b pr or c pr"))
    ≡ true
conditions_equal-regrouped_example =
    conditions_equal-regrouped sample same_bytes (condition_of (codes "a pr and (b pr or c pr)"))
      (condition_of (codes "a pr and b pr or c pr")) a_pr b_pr c_pr refl parse-bracket
      parse-no_bracket

parse_filter-ends_example :
    parse_filter sample (codes "a pr and (b pr or c[d eq 1].e pr)") ≢ err no_fuel
parse_filter-ends_example = parse_filter-ends sample (codes "a pr and (b pr or c[d eq 1].e pr)")

find_entities-leaves_example :
    find_entities (logical both a_pr (negation b_pr))
    ≡ named (leaves (logical both a_pr (negation b_pr)))
find_entities-leaves_example = find_entities-leaves (logical both a_pr (negation b_pr))

abbrev names : Dict Text
names = (codes "Username", codes "user") ∷ (codes "emails", codes "mail") ∷ []

get-username : Dict.get (codes "Username") names ≡ some (codes "user")
unfolding Dict.get text_eq
get-username = refl

name_mapper_round_trip_example :
    (get_provider_attribute_name (new_name_mapper names) (codes "Username") ≡ codes "user")
    × (get_hexa_filter_attribute_path
          (new_name_mapper names)
          (get_provider_attribute_name (new_name_mapper names) (codes "Username"))
        ≡ codes "Username")
unfolding text_eq to_lower
name_mapper_round_trip_example =
    name_mapper_round_trip names (codes "Username") (codes "user")
      (refl, refl, refl, (refl, refl, refl, tt)) get-username

get_hexa_filter_attribute_path-upper_example :
    get_hexa_filter_attribute_path
      (new_name_mapper ((codes "name", codes "userName") ∷ []))
      (codes "userName")
    ≡ codes "userName"
unfolding text_eq to_lower
get_hexa_filter_attribute_path-upper_example =
    get_hexa_filter_attribute_path-upper ((codes "name", codes "userName") ∷ []) (codes "userName")
      refl

-- the brackets of an `and` inside an `or` are not written
lost_brackets :
    serialize (logical either a_pr (precedence (logical both b_pr c_pr)))
    ≡ codes "a pr or b pr and c pr"
unfolding serialize policy_conditions.Conditions.Ast.attribute_string
    policy_conditions.Types.Value.value_string policy_conditions.Types.Entity.to_string
    policy_conditions.Conditions.Ast.logical_string
lost_brackets = refl
