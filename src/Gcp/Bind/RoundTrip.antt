-- ===== src/Gcp/Bind/RoundTrip.antt =====
-- models/formats/gcpBind/google_bind_policy.go: what a binding keeps on its way to a policy and back.
use mathlib.Core.Path.{subst}
use policy_conditions.Base.{◌≡◌, refl, ap, ◌∙◌, Option, none, some, [], ◌∷◌}
use policy_conditions.Base.Text.{Text}
use policy_conditions.Base.Except.{Except, raise, done, ◌>>=◌}
use policy_conditions.Types.Platform.{Platform}
use policy_conditions.Conditions.Walk.{AttributeMap}
use policy_conditions.Policy.Info.{PolicyInfo, ConditionInfo}
use policy_conditions.Gcp.Cel.{MapError, map_condition_to_provider}
use policy_conditions.Gcp.FromCel.{CelError, map_provider_to_condition}
use policy_conditions.Gcp.FromCel.Tree.{Cel}
use policy_conditions.Gcp.Bind

-- A role is the same after it became the action of a policy and a role again.
pub convert_action_to_role-convert_role_to_action :
    (role : Text) → Bind.convert_action_to_role (Bind.convert_role_to_action role) ≡ role
unfolding Bind.convert_action_to_role Bind.convert_role_to_action
    policy_conditions.Base.Text.has_prefix
convert_action_to_role-convert_role_to_action [] = refl
convert_action_to_role-convert_role_to_action (c ∷ cs) = refl

-- The policy that is returned has the binding's members, role and object.
abbrev Keeps : Text → Bind.Binding → Except CelError PolicyInfo → Type 0
Keeps object_id b (raise e) = Unit
Keeps object_id b (done p) =
    (p.subjects ≡ b.members)
    × (p.actions ≡ Bind.convert_role_to_action b.role)
    × (p.object ≡ object_id)

-- The binding that is returned has the policy's subjects, and the role of its actions.
abbrev Carries : PolicyInfo → Bind.Mapped → Type 0
Carries p none = Unit
Carries p (some (raise e)) = Unit
Carries p (some (done b)) =
    (b.members ≡ p.subjects) × (b.role ≡ Bind.convert_action_to_role p.actions)

bound-Keeps :
    (object_id : Text) (b : Bind.Binding) (r : Except CelError ConditionInfo)
    → Keeps object_id b (r >>= λ c. done (Bind.bound_policy object_id b (some c)))
unfolding Bind.bound_policy
bound-Keeps object_id b (raise e) = tt
bound-Keeps object_id b (done c) = (refl, refl, refl)

with_text-Carries :
    (p : PolicyInfo) (r : Option (Except MapError Text)) → Carries p (Bind.with_text p r)
unfolding Bind.with_text Bind.policy_binding
with_text-Carries p none = tt
with_text-Carries p (some (raise e)) = tt
with_text-Carries p (some (done t)) = (refl, refl)

module _ (P : Platform) (n : AttributeMap) where
  convert_condition-Keeps :
      (parse_cel : Text → Option Cel) (object_id : Text) (b : Bind.Binding) (c : Option Text)
      → Keeps object_id b (Bind.convert_condition P n parse_cel object_id b c)
  unfolding Bind.convert_condition Bind.bound_policy
  convert_condition-Keeps parse_cel object_id b none = (refl, refl, refl)
  convert_condition-Keeps parse_cel object_id b (some t) =
      bound-Keeps object_id b (map_provider_to_condition P n parse_cel t)

  with_condition-Carries :
      (p : PolicyInfo) (c : Option ConditionInfo) → Carries p (Bind.with_condition P n p c)
  unfolding Bind.with_condition Bind.policy_binding
  with_condition-Carries p none = (refl, refl)
  with_condition-Carries p (some c) = with_text-Carries p (map_condition_to_provider P n c)

  bound_fields :
      (parse_cel : Text → Option Cel) (object_id : Text) (b : Bind.Binding) {p : PolicyInfo}
      → Bind.map_binding_to_policy P n parse_cel object_id b ≡ done p
      → Keeps object_id b (done p)
  unfolding Bind.map_binding_to_policy
  bound_fields parse_cel object_id b e =
      subst (Keeps object_id b) e (convert_condition-Keeps parse_cel object_id b b.condition)

  binding_fields :
      (p : PolicyInfo) {b : Bind.Binding}
      → Bind.map_policy_to_binding P n p ≡ some (done b)
      → Carries p (some (done b))
  unfolding Bind.map_policy_to_binding
  binding_fields p e = subst (Carries p) e (with_condition-Carries p p.condition)

  -- A binding that MapBindingToPolicy turns into a policy, and MapPolicyToBinding turns that into a binding
  -- again, comes back with its members and its role.
  pub map_policy_to_binding-map_binding_to_policy :
      (parse_cel : Text → Option Cel) (object_id : Text) (b : Bind.Binding) {p : PolicyInfo}
      {b' : Bind.Binding}
      → Bind.map_binding_to_policy P n parse_cel object_id b ≡ done p
      → Bind.map_policy_to_binding P n p ≡ some (done b')
      → (b'.members ≡ b.members) × (b'.role ≡ b.role)
  map_policy_to_binding-map_binding_to_policy parse_cel object_id b {p} e f =
      let (s, a, o) = bound_fields parse_cel object_id b e in
      let (m, r) = binding_fields p f in
      (
        m ∙ s,
        r
            ∙ (ap Bind.convert_action_to_role a
                ∙ convert_action_to_role-convert_role_to_action b.role),
      )
