-- ===== src/Gcp/Bind.antt =====
-- models/formats/gcpBind/google_bind_policy.go: IAM bindings from policies, and policies from bindings.
pub mod Groups
pub mod RoundTrip
use policy_conditions.Base.{
  Bool, true, false, Option, none, some, List, [], ◌∷◌, ◌++◌, if◌then◌else◌,
}
use policy_conditions.Base.Lists.{is_empty, drop}
use policy_conditions.Base.Text.{Text, codes, has_prefix}
use policy_conditions.Base.Dict
use policy_conditions.Base.Dict.{Dict}
use policy_conditions.Base.Except.{Except, raise, done, ◌>>=◌}
use policy_conditions.Types.Platform.{Platform}
use policy_conditions.Conditions.Walk.{AttributeMap}
use policy_conditions.Policy.Info.{Slice, elements, ConditionInfo, PolicyInfo, no_meta}
use policy_conditions.Gcp.Cel.{MapError, map_condition_to_provider}
use policy_conditions.Gcp.FromCel.{CelError, map_provider_to_condition}
use policy_conditions.Gcp.FromCel.Tree.{Cel}

-- `iam.Binding`, as far as the mapper reads it: the text of its condition, its members and its role.
pub record Binding : Type 0 where
  pub condition : Option Text
  pub members : Slice Text
  pub role : Text

-- `BindAssignment`
pub record BindAssignment : Type 0 where
  pub resource_id : Text
  pub bindings : List Binding

-- `convertActionToRole`
unfoldable pub convert_action_to_role : Slice Text → Text
convert_action_to_role none = []
convert_action_to_role (some []) = []
convert_action_to_role (some (a ∷ as')) = if has_prefix a (codes "gcp:") then drop 4 a else a

-- `convertRoleToAction`
unfoldable pub convert_role_to_action : Text → Slice Text
convert_role_to_action role = if is_empty role then none else some ((codes "gcp:" ++ role) ∷ [])

-- the policy of a binding, from its converted condition
unfoldable bound_policy : Text → Binding → Option ConditionInfo → PolicyInfo
bound_policy object_id b c = record {
  meta = record no_meta { version = codes "0.7" };
  subjects = b.members;
  actions = convert_role_to_action b.role;
  object = object_id;
  condition = c;
  scope = none;
}

-- What `MapPolicyToBinding` returns; none is a panic.
abbrev pub Mapped : Type 0
Mapped = Option (Except MapError Binding)

module _ (P : Platform) (n : AttributeMap) (parse_cel : Text → Option Cel) where
  unfoldable convert_condition : Text → Binding → Option Text → Except CelError PolicyInfo
  unfolding bound_policy
  convert_condition object_id b none = done (bound_policy object_id b none)
  convert_condition object_id b (some text) =
      map_provider_to_condition P n parse_cel text >>= λ c. done (bound_policy object_id b (some c))

  -- `MapBindingToPolicy`
  unfoldable pub map_binding_to_policy : Text → Binding → Except CelError PolicyInfo
  unfolding convert_condition
  map_binding_to_policy object_id b = convert_condition object_id b b.condition

  unfoldable map_bindings : Text → List Binding → Except CelError (List PolicyInfo)
  map_bindings object_id [] = done []
  map_bindings object_id (b ∷ bs) = do
    p ← map_binding_to_policy object_id b
    ps ← map_bindings object_id bs
    done (p ∷ ps)

  -- `MapBindingAssignmentToPolicy`
  unfoldable pub map_binding_assignment_to_policy :
      BindAssignment → Except CelError (List PolicyInfo)
  unfolding map_bindings
  map_binding_assignment_to_policy a = map_bindings a.resource_id a.bindings

  -- `MapBindingAssignmentsToPolicy`
  unfoldable pub map_binding_assignments_to_policy :
      List BindAssignment → Except CelError (List PolicyInfo)
  unfolding map_binding_assignment_to_policy
  map_binding_assignments_to_policy [] = done []
  map_binding_assignments_to_policy (a ∷ as') = do
    ps ← map_binding_assignment_to_policy a
    qs ← map_binding_assignments_to_policy as'
    done (ps ++ qs)

unfoldable policy_binding : PolicyInfo → Option Text → Binding
policy_binding p text = record {
  condition = text;
  members = p.subjects;
  role = convert_action_to_role p.actions;
}

unfoldable with_text : PolicyInfo → Option (Except MapError Text) → Mapped
unfolding policy_binding
with_text p none = none
with_text p (some (raise e)) = some (raise e)
with_text p (some (done t)) = some (done (policy_binding p (some t)))

unfoldable bindings_at : Text → Dict (List Binding) → List Binding
bindings_at key m = elim (Dict.get key m) [ none ↦ [] | some bs ↦ bs ]

-- one round of the loop, from the binding of the policy: an error is printed and skipped
unfoldable add_binding :
    Dict (List Binding) → PolicyInfo → Except MapError Binding → Dict (List Binding)
unfolding bindings_at
add_binding m p (raise e) = m
add_binding m p (done b) = Dict.put p.object (bindings_at p.object m ++ (b ∷ [])) m

unfoldable assignments : Dict (List Binding) → List BindAssignment
assignments [] = []
assignments ((k, bs) ∷ m) = record { resource_id = k; bindings = bs } ∷ assignments m

unfoldable listed : Option (Dict (List Binding)) → Option (List BindAssignment)
unfolding assignments
listed none = none
listed (some m) = some (assignments m)

module _ (P : Platform) (n : AttributeMap) where
  unfoldable with_condition : PolicyInfo → Option ConditionInfo → Mapped
  unfolding with_text
  with_condition p none = some (done (policy_binding p none))
  with_condition p (some c) = with_text p (map_condition_to_provider P n c)

  -- `MapPolicyToBinding`
  unfoldable pub map_policy_to_binding : PolicyInfo → Mapped
  unfolding with_condition
  map_policy_to_binding p = with_condition p p.condition

  unfoldable group_bindings : Dict (List Binding) → List PolicyInfo → Option (Dict (List Binding))
  unfolding add_binding
  group_bindings m [] = some m
  group_bindings m (p ∷ ps) = elim (map_policy_to_binding p) [
    | none ↦ none
    | some r ↦ group_bindings (add_binding m p r) ps
  ]

  -- `MapPoliciesToBindings`; none is a panic
  unfoldable pub map_policies_to_bindings : List PolicyInfo → Option (List BindAssignment)
  unfolding group_bindings listed
  map_policies_to_bindings ps = listed (group_bindings [] ps)
