-- ===== src/Rar/Transform/Merge.antt =====
-- Which members `FlattenPolicy` collects for an action on a resource.
use policy_conditions.Base.{
  Bool, false, not, ◌&&◌, ◌||◌, ◌≡◌, ap, ◌∙◌, some, List, [], ◌∷◌, ◌++◌, arith, if◌then◌else◌,
  Bool-cases, inl, inr,
}
use policy_conditions.Base.Lists.{any, any-append, is_empty}
use policy_conditions.Base.Text.{Text, text_eq, text_eq_iff}
use policy_conditions.Base.Dict
use policy_conditions.Base.Dict.{Dict, get-put}
use policy_conditions.Policy.Info.{PolicyInfo, elements}
use policy_conditions.Rar.Slices.{is_blank}
use policy_conditions.Rar.Slices.Members.{has, sort_compact-members}
use policy_conditions.Rar.Transform.{
  members, merged_policy, merge_action, merge_actions, merge_policy, merge_all, compact_members,
}

-- the members under a key
abbrev pub members_at : Text → Dict PolicyInfo → List Text
members_at key m = members (Dict.get key m)

-- the action makes this key with the resource
abbrev pub makes_key : Text → Text → Text → Bool
makes_key key resource act = not (is_blank act) && text_eq (act ++ resource) key

-- the policy gives the member `x` to the key
abbrev pub gives : Text → Text → PolicyInfo → Bool
gives x key p =
    not (is_empty p.object)
    && (any (makes_key key p.object) (elements p.actions) && has x (elements p.subjects))

has-compact_members :
    (x : Text) (existing added : List Text)
    → is_blank x ≡ false
    → has x (compact_members existing added) ≡ (has x existing || has x added)
unfolding compact_members
has-compact_members x existing added h =
    sort_compact-members x (existing ++ added) h ∙ any-append (text_eq x) existing added

merge_action-members :
    (x key resource : Text) (subjects : List Text) (m : Dict PolicyInfo) (act : Text)
    → is_blank x ≡ false
    → has x (members_at key (merge_action resource subjects m act))
      ≡ (has x (members_at key m) || (makes_key key resource act && has x subjects))
unfolding merge_action merged_policy
merge_action-members x key resource subjects m act h =
    let k = act ++ resource in
    let put =
      get-put k key (merged_policy act resource (compact_members (members_at k m) subjects)) m in
    elim (Bool-cases (is_blank act)) [
      | inl e ↦ rw (e, merge_action) (ground arith)
      | inr e ↦
          rw (e, merge_action)
            (elim (Bool-cases (text_eq k key)) [
              | inl f ↦
                  ap (λ o. has x (members o))
                    (put
                      ∙ ap
                          (λ (b : Bool).
                            if b
                            then some (
                                merged_policy act resource
                                  (compact_members (members_at k m) subjects))
                            else Dict.get key m)
                          f)
                  ∙ has-compact_members x (members_at k m) subjects h
                  ∙ ground (arith, text_eq_iff k key)
              | inr f ↦
                  ap (λ o. has x (members o))
                    (put
                      ∙ ap
                          (λ (b : Bool).
                            if b
                            then some (
                                merged_policy act resource
                                  (compact_members (members_at k m) subjects))
                            else Dict.get key m)
                          f)
                  ∙ ground arith
            ])
    ]

merge_actions-members :
    (x key resource : Text) (subjects : List Text) (m : Dict PolicyInfo) (acts : List Text)
    → is_blank x ≡ false
    → has x (members_at key (merge_actions resource subjects m acts))
      ≡ (has x (members_at key m) || (any (makes_key key resource) acts && has x subjects))
unfolding merge_actions
merge_actions-members x key resource subjects m [] h = ground arith
merge_actions-members x key resource subjects m (a ∷ as') h =
    merge_actions-members x key resource subjects (merge_action resource subjects m a) as' h
    ∙ ground (arith, merge_action-members x key resource subjects m a h)

merge_policy-members :
    (x key : Text) (m : Dict PolicyInfo) (p : PolicyInfo)
    → is_blank x ≡ false
    → has x (members_at key (merge_policy m p)) ≡ (has x (members_at key m) || gives x key p)
unfolding merge_policy
merge_policy-members x key m p h =
    ground
      (arith, merge_actions-members x key p.object (elements p.subjects) m (elements p.actions) h)

-- A member that is not blank is under a key in the map that `FlattenPolicy` fills exactly if it was
-- there before or a policy gives it: one that has the member among its subjects, and whose resource is
-- not empty and makes the key with one of its actions that is not blank.
pub merge_all-members :
    (x key : Text) (m : Dict PolicyInfo) (ps : List PolicyInfo)
    → is_blank x ≡ false
    → has x (members_at key (merge_all m ps)) ≡ (has x (members_at key m) || any (gives x key) ps)
unfolding merge_all
merge_all-members x key m [] h = ground arith
merge_all-members x key m (p ∷ ps) h =
    merge_all-members x key (merge_policy m p) ps h
    ∙ ground (arith, merge_policy-members x key m p h)
