-- ===== src/Cedar/Policies/Written.antt =====
-- A Cedar policy without conditions, mapped to IDQL and back.
use policy_conditions.Base.{Option, none, some, List, [], ◌∷◌, ◌++◌}
use policy_conditions.Base.Text.{Text, codes}
use policy_conditions.Base.Except.{Except, done}
use policy_conditions.Types.Platform.{Platform}
use policy_conditions.Conditions.Walk.{AttributeMap}
use policy_conditions.Gcp.Cel.{MapError}
use policy_conditions.Cedar.Scope.{principal, action, resource, Scope}
use policy_conditions.Cedar.Scope.Texts.{scope_texts}
use policy_conditions.Cedar.Policies.{
  CedarPolicy, write_cedar_policy, map_cedar_policy, map_hexa_policy,
}

-- The head of a policy in Cedar's syntax, from the texts of its actions
abbrev actions_behind : List Text → Text
actions_behind [] = []
actions_behind (a ∷ rest) = codes "," ++ (a ++ actions_behind rest)

abbrev pub actions_text : List Text → Text
actions_text [] = codes "action,"
actions_text (a ∷ []) = codes "action == " ++ (a ++ codes ",")
actions_text (a ∷ b ∷ rest) =
    codes "action in [" ++ (a ++ (actions_behind (b ∷ rest) ++ codes "],"))

abbrev pub first_or : Text → List Text → Text
first_or t [] = t
first_or t (u ∷ us) = u

-- the scopes of a `permit` of the policy, with the identifiers quoted twice, and no annotations
abbrev pub permit_text : CedarPolicy → Text
permit_text c =
    write_cedar_policy [] (first_or [] (scope_texts principal c.principal_scope))
      (actions_text (scope_texts action c.action_scope))
      (first_or (codes "resource") (scope_texts resource c.resource_scope)) []

module _ (P : Platform) (unquote decimal : Text → Option Text) (n : AttributeMap) where
  -- A policy, mapped to IDQL and back
  abbrev pub back : CedarPolicy → Option (Except MapError Text)
  back c = elim (map_cedar_policy P unquote c) [
    | some (done p) ↦ map_hexa_policy P unquote decimal n p
    | r ↦ none
  ]
