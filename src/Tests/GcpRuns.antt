-- ===== src/Tests/GcpRuns.antt =====
-- The properties of the Google mappers at concrete conditions, trees and bindings.
use policy_conditions.Base.{
  Bool, true, false, ◌≡◌, refl, Option, none, some, List, [], ◌∷◌, ◌++◌, inl, inr, ◌⊎◌,
}
use policy_conditions.Base.Text.{Text, codes, text_eq, to_lower}
use policy_conditions.Base.Dict.{Dict}
use policy_conditions.Base.Except.{done}
use policy_conditions.Conditions.Ast.{Expression, both, either, logical, negation, precedence}
use policy_conditions.Conditions.Meaning.{Truth, holds}
use policy_conditions.Conditions.Shape.{LeansLeft}
use policy_conditions.Conditions.Walk.{AttributeMap}
use policy_conditions.Parser.Result.{ok}
use policy_conditions.Parser.Loop.{parse_filter}
use policy_conditions.Parser.Loop.Shape.{parse_filter-LeansLeft}
use policy_conditions.Policy.Info.{PolicyInfo, no_meta}
use policy_conditions.Gcp.Cel.{map_condition_to_provider, check_compatibility}
use policy_conditions.Gcp.Cel.Grammar.{Denotes, disjunction}
use policy_conditions.Gcp.Cel.Meaning.{map_condition_to_provider-Denotes}
use policy_conditions.Gcp.FromCel.{map_cel_expr}
use policy_conditions.Gcp.FromCel.Tree.{Cel, call, select, ident, no_target, no_args, arg}
use policy_conditions.Gcp.FromCel.Meaning.{map_cel_expr-holds, tree_holds}
use policy_conditions.Gcp.Bind.{
  Binding, convert_action_to_role, convert_role_to_action, map_binding_to_policy,
  map_policy_to_binding, map_policies_to_bindings,
}
use policy_conditions.Gcp.Bind.RoundTrip.{map_policy_to_binding-map_binding_to_policy}
use policy_conditions.Gcp.Bind.Groups.{
  bindings_of, bindings_for, bindings_of-map_policies_to_bindings,
}
use policy_conditions.Tests.Sample.{sample, present, a_pr, b_pr, c_pr, condition_of}

abbrev no_names : AttributeMap
no_names = record { forward = []; reverse = [] }

-- every comparison holds
abbrev all_hold : Truth sample
all_hold e = true

-- a pr and (not (b pr) or c pr)
abbrev mixed : Expression sample
mixed = logical both a_pr (precedence (logical either (negation b_pr) c_pr))

abbrev or_and : Expression sample
or_and = logical both (logical either a_pr b_pr) c_pr

parse-or_and : parse_filter sample (codes "a pr or b pr and c pr") ≡ ok or_and
unfolding parse_filter policy_conditions.Parser.Step.case_of policy_conditions.Parser.Step.combine
    policy_conditions.Base.Text.equal_fold policy_conditions.Parser.State.create_expression text_eq
    to_lower policy_conditions.Types.Value.Parse.parse_value policy_conditions.Base.Text.has_prefix
    policy_conditions.Base.Text.trim_space policy_conditions.Types.Value.Numeric.is_numeric
    policy_conditions.Types.Entity.parse_entity
parse-or_and = refl

check-or_and : check_compatibility or_and ≡ true
unfolding check_compatibility
check-or_and = refl

map_condition_to_provider-Denotes_example :
    (t : Text) × (map_condition_to_provider sample no_names
        (condition_of (codes "a pr or b pr and c pr"))
      ≡ some (done t))
    × Denotes no_names all_hold disjunction t (holds all_hold or_and)
map_condition_to_provider-Denotes_example =
    map_condition_to_provider-Denotes no_names all_hold
      (condition_of (codes "a pr or b pr and c pr")) or_and parse-or_and check-or_and ((tt, tt), tt)

parse_filter-LeansLeft_example : LeansLeft or_and
parse_filter-LeansLeft_example =
    parse_filter-LeansLeft sample (codes "a pr or b pr and c pr") parse-or_and

-- a && !b.c
abbrev tree : Cel
tree = call (codes "_&&_") no_target (
    arg (select (ident (codes "a")) (codes "x")) (
      arg (call (codes "!_") no_target (arg (select (ident (codes "b")) (codes "y")) no_args))
        no_args))

abbrev tree_condition : Expression sample
tree_condition = logical both (present (codes "a.x")) (negation (present (codes "b.y")))

map-tree : map_cel_expr sample no_names tree ≡ done (some tree_condition)
unfolding map_cel_expr text_eq policy_conditions.Gcp.FromCel.map_select_expr
    policy_conditions.Types.Value.Parse.parse_value
    policy_conditions.Conditions.Walk.get_hexa_filter_attribute_path policy_conditions.Base.Dict.get
    policy_conditions.Gcp.FromCel.Tree.ident_name policy_conditions.Base.Text.has_prefix
    policy_conditions.Base.Text.trim_space policy_conditions.Types.Value.Numeric.is_numeric
    policy_conditions.Base.Text.equal_fold policy_conditions.Gcp.FromCel.map_cel_not
    policy_conditions.Types.Entity.parse_entity
map-tree = refl

map_cel_expr-holds_example : holds all_hold tree_condition ≡ tree_holds no_names all_hold tree
map_cel_expr-holds_example = map_cel_expr-holds no_names all_hold tree map-tree

abbrev no_parse : Text → Option Cel
no_parse t = none

abbrev viewers : Binding
viewers = record {
  condition = none;
  members = some (codes "user:ann" ∷ []);
  role = codes "roles/viewer";
}

abbrev view_policy : PolicyInfo
view_policy = record {
  meta = record no_meta { version = codes "0.7" };
  subjects = some (codes "user:ann" ∷ []);
  actions = some (codes "gcp:roles/viewer" ∷ []);
  object = codes "project";
  condition = none;
  scope = none;
}

policy-viewers :
    map_binding_to_policy sample no_names no_parse (codes "project") viewers ≡ done view_policy
unfolding map_binding_to_policy convert_role_to_action
policy-viewers = refl

binding-view_policy : map_policy_to_binding sample no_names view_policy ≡ some (done viewers)
unfolding map_policy_to_binding convert_action_to_role policy_conditions.Base.Text.has_prefix
binding-view_policy = refl

map_policy_to_binding-map_binding_to_policy_example :
    (viewers.members ≡ viewers.members) × (viewers.role ≡ viewers.role)
map_policy_to_binding-map_binding_to_policy_example =
    map_policy_to_binding-map_binding_to_policy sample no_names no_parse (codes "project") viewers
      policy-viewers binding-view_policy

bindings-twice :
    map_policies_to_bindings sample no_names (view_policy ∷ view_policy ∷ [])
    ≡ some (record { resource_id = codes "project"; bindings = viewers ∷ viewers ∷ [] } ∷ [])
unfolding map_policies_to_bindings map_policy_to_binding policy_conditions.Base.Dict.put text_eq
    policy_conditions.Base.Dict.get convert_action_to_role policy_conditions.Base.Text.has_prefix
bindings-twice = refl

bindings_of-map_policies_to_bindings_example :
    bindings_of
      (codes "project")
      (record { resource_id = codes "project"; bindings = viewers ∷ viewers ∷ [] } ∷ [])
    ≡ bindings_for sample no_names (codes "project") (view_policy ∷ view_policy ∷ [])
bindings_of-map_policies_to_bindings_example =
    bindings_of-map_policies_to_bindings sample no_names (codes "project")
      (view_policy ∷ view_policy ∷ []) bindings-twice
