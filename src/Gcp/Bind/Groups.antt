-- ===== src/Gcp/Bind/Groups.antt =====
-- models/formats/gcpBind/google_bind_policy.go: how MapPoliciesToBindings groups the bindings.
use policy_conditions.Base.{
  ◌≡◌, refl, ap, ◌∙◌, Option, none, some, List, [], ◌∷◌, ◌++◌, arith, append_assoc, append-nil,
  if◌then◌else◌,
}
use policy_conditions.Base.Text.{Text, text_eq, text_eq_iff}
use policy_conditions.Base.Dict
use policy_conditions.Base.Dict.{Dict}
use policy_conditions.Base.Except.{Except, raise, done}
use policy_conditions.Types.Platform.{Platform}
use policy_conditions.Conditions.Walk.{AttributeMap}
use policy_conditions.Policy.Info.{PolicyInfo}
use policy_conditions.Gcp.Cel.{MapError}
use policy_conditions.Gcp.Bind
use policy_conditions.Gcp.Bind.{
  Binding, BindAssignment, Mapped, map_policy_to_binding, map_policies_to_bindings,
}

-- the bindings of the first assignment of a resource
abbrev pub bindings_of : Text → List BindAssignment → List Binding
bindings_of key [] = []
bindings_of key (a ∷ as') = if text_eq a.resource_id key then a.bindings else bindings_of key as'

-- the binding of a policy that could be mapped
abbrev binding_of : Mapped → List Binding
binding_of none = []
binding_of (some (raise e)) = []
binding_of (some (done b)) = b ∷ []

bindings_of-assignments :
    (key : Text) (m : Dict (List Binding))
    → bindings_of key (Bind.assignments m) ≡ Bind.bindings_at key m
unfolding Bind.assignments Bind.bindings_at Dict.get
bindings_of-assignments key [] = refl
bindings_of-assignments key ((k, bs) ∷ m) = ground (arith, bindings_of-assignments key m)

bindings_at-put :
    (k j : Text) (bs : List Binding) (m : Dict (List Binding))
    → Bind.bindings_at j (Dict.put k bs m) ≡ (if text_eq k j then bs else Bind.bindings_at j m)
unfolding Bind.bindings_at
bindings_at-put k j bs m = ground (arith, Dict.get-put k j bs m)

module _ (P : Platform) (n : AttributeMap) where
  -- the bindings of the policies with an object, in the order of the policies
  abbrev pub bindings_for : Text → List PolicyInfo → List Binding
  bindings_for key [] = []
  bindings_for key (p ∷ ps) =
      (if text_eq p.object key then binding_of (map_policy_to_binding P n p) else [])
      ++ bindings_for key ps

  bindings_at-add_binding :
      (key : Text) (m : Dict (List Binding)) (p : PolicyInfo) (r : Except MapError Binding)
      → Bind.bindings_at key (Bind.add_binding m p r)
        ≡ Bind.bindings_at key m ++ (if text_eq p.object key then binding_of (some r) else [])
  unfolding Bind.add_binding
  bindings_at-add_binding key m p (raise e) = ground (arith, append-nil (Bind.bindings_at key m))
  bindings_at-add_binding key m p (done b) = ground (
    arith,
    bindings_at-put p.object key (Bind.bindings_at p.object m ++ (b ∷ [])) m,
    text_eq_iff p.object key,
    append-nil (Bind.bindings_at key m),
  )

  bindings_at-group_bindings :
      (key : Text) (ps : List PolicyInfo) (m : Dict (List Binding)) {m' : Dict (List Binding)}
      → Bind.group_bindings P n m ps ≡ some m'
      → Bind.bindings_at key m' ≡ Bind.bindings_at key m ++ bindings_for key ps
  unfolding Bind.group_bindings
  bindings_at-group_bindings key [] m {m'} e = ground (arith, append-nil (Bind.bindings_at key m))
  bindings_at-group_bindings key (p ∷ ps) m {m'} e =
      (elim (map_policy_to_binding P n p)
          as (λ r.
            (elim r [ none ↦ none | some b ↦ Bind.group_bindings P n (Bind.add_binding m p b) ps ])
              ≡ some m'
            → Bind.bindings_at key m'
              ≡ Bind.bindings_at key m
                ++ ((if text_eq p.object key then binding_of r else []) ++ bindings_for key ps)) [
                  | none ↦ λ f. ground (arith, f)
                  | some r ↦ λ f.
                      bindings_at-group_bindings key ps (Bind.add_binding m p r) f
                      ∙ (ap (λ bs. bs ++ bindings_for key ps) (bindings_at-add_binding key m p r)
                          ∙ append_assoc (Bind.bindings_at key m)
                              (if text_eq p.object key then binding_of (some r) else [])
                              (bindings_for key ps))
                ])
        e

  bindings_of-listed :
      (key : Text) (r : Option (Dict (List Binding))) {as' : List BindAssignment}
      → Bind.listed r ≡ some as'
      → bindings_of key as' ≡ elim r [ none ↦ [] | some m ↦ Bind.bindings_at key m ]
  unfolding Bind.listed
  bindings_of-listed key none e = ground (arith, e)
  bindings_of-listed key (some m) {as'} e = ground (arith, e, bindings_of-assignments key m)

  -- Where MapPoliciesToBindings returns, the assignment of a resource has the bindings of the policies with that
  -- object that could be mapped, in the order of the policies.
  pub bindings_of-map_policies_to_bindings :
      (key : Text) (ps : List PolicyInfo) {as' : List BindAssignment}
      → map_policies_to_bindings P n ps ≡ some as'
      → bindings_of key as' ≡ bindings_for key ps
  unfolding map_policies_to_bindings Bind.listed Bind.bindings_at Dict.get
  bindings_of-map_policies_to_bindings key ps {as' = as'} e =
      (elim (Bind.group_bindings P n [] ps)
          as (λ r.
            (((m' : Dict (List Binding))
                → r ≡ some m'
                → Bind.bindings_at key m' ≡ bindings_for key ps)
              → Bind.listed r ≡ some as'
              → bindings_of key as' ≡ bindings_for key ps)) [
                | none ↦ λ f g. ground (arith, g)
                | some m ↦ λ f g. bindings_of-listed key (some m) g ∙ f m refl
              ])
        (λ m' f. bindings_at-group_bindings key ps [] f) e
