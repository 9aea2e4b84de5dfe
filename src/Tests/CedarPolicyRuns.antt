-- ===== src/Tests/CedarPolicyRuns.antt =====
-- The properties of the mapper from Cedar and of whole Cedar policies at concrete inputs.
use policy_conditions.Base.{ℕ, Bool, true, ◌≡◌, refl, Option, none, List, [], ◌∷◌, ◌++◌, map}
use policy_conditions.Base.Text.{Text, codes}
use policy_conditions.Base.Except.{Except, done}
use policy_conditions.Conditions.Ast.{Expression, both, either, logical, negation, precedence}
use policy_conditions.Conditions.Meaning.{Truth}
use policy_conditions.Conditions.Walk.{AttributeMap}
use policy_conditions.Cedar.FromCedar.Tree
use policy_conditions.Cedar.FromCedar.Tree.{Node, when, unless, ConditionJson}
use policy_conditions.Cedar.Scope
use policy_conditions.Cedar.Scope.{Uid, Verb, principal, Scope, map_cedar_scope, map_hexa_value}
use policy_conditions.Cedar.Scope.Texts.{scope_texts, IsReadBack}
use policy_conditions.Cedar.Scope.RoundTrip.{map_hexa_value-map_cedar_scope}
use policy_conditions.Cedar.Policies.{forbid, CedarPolicy, map_cedar_policy_bytes}
use policy_conditions.Cedar.Policies.Dropped.{Reported, map_cedar_policy_bytes-Reported}
use policy_conditions.Tests.Sample.{sample, a_pr, b_pr, c_pr}

abbrev all_true : Truth sample
all_true e = true

abbrev unread : Text → Option Text
unread t = none

abbrev same_names : AttributeMap
same_names = record { forward = []; reverse = [] }

abbrev or_group : Expression sample
or_group = logical either a_pr (precedence (logical both b_pr c_pr))

abbrev group_not : Expression sample
group_not = logical either (logical both (precedence or_group) a_pr) (negation b_pr)

abbrev has_a : Node
has_a = Tree.has (Tree.var (codes "principal")) (codes "a")

abbrev has_b : Node
has_b = Tree.has (Tree.var (codes "resource")) (codes "b")

-- `principal has a && !(resource.b > principal.a)`
abbrev and_not : Node
and_not = Tree.conjunction has_a (
    Tree.negation (
      Tree.relation Tree.greater_than (Tree.access (Tree.var (codes "resource")) (codes "b"))
        (Tree.access (Tree.var (codes "principal")) (codes "a"))))

abbrev alice : Uid
alice = record { type = codes "App::User"; id = codes "alice" }

abbrev team : Uid
team = record { type = codes "Group"; id = codes "team" }

abbrev user_in_team : Scope
user_in_team = Scope.is_type_in (codes "User") team

user_in_team-IsReadBack : IsReadBack user_in_team
unfolding policy_conditions.Types.Quote.quote policy_conditions.Base.Text.equal_fold
user_in_team-IsReadBack = (refl, tt, (refl, (refl, refl, refl)))

map_hexa_value-map_cedar_scope_example :
    map (map_hexa_value principal) (map_cedar_scope principal user_in_team)
    ≡ scope_texts principal user_in_team
map_hexa_value-map_cedar_scope_example =
    map_hexa_value-map_cedar_scope principal user_in_team user_in_team-IsReadBack

abbrev forbid_alice : CedarPolicy
forbid_alice = record {
  effect = forbid;
  annotations = (codes "id", codes "p1") ∷ [];
  principal_scope = Scope.equal alice;
  action_scope = Scope.in_many (team ∷ team ∷ []);
  resource_scope = Scope.all;
  conditions = [];
}

-- a policy whose condition has an if-then-else
abbrev conditional : CedarPolicy
conditional = record forbid_alice {
  conditions = record { kind = when; body = Tree.if_then_else has_a has_b has_a } ∷ [];
}

abbrev parse_three : Text → Text → Except Text (List CedarPolicy)
parse_three location bytes = done (forbid_alice ∷ conditional ∷ forbid_alice ∷ [])

map_cedar_policy_bytes-Reported_example :
    Reported sample unread
      (forbid_alice ∷ conditional ∷ forbid_alice ∷ [])
      (codes "app")
      (map_cedar_policy_bytes sample unread parse_three (codes "app") [])
map_cedar_policy_bytes-Reported_example =
    map_cedar_policy_bytes-Reported sample unread parse_three (codes "app") []
      (forbid_alice ∷ conditional ∷ forbid_alice ∷ []) refl
