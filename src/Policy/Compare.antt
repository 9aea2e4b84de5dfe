-- ===== src/Policy/Compare.antt =====
-- What `Compare` and `Equals` of a policy find, and what they pass over.
use policy_conditions.Base.{Bool, true, false, not, ◌&&◌, ◌≡◌, none, some, List, [], ◌∷◌, arith}
use policy_conditions.Base.Text.{Text, text_eq_refl}
use policy_conditions.Types.Platform.{Platform}
use policy_conditions.Policy.Info.{
  ConditionInfo, ScopeInfo, PolicyInfo, policy_bytes, calculate_etag,
}
use policy_conditions.Policy.Equality.{
  Difference, equal, action, subject, object, condition, subjects_equal, actions_equal,
  object_equal, conditions_equal, policies_equal, differences, compare,
}

abbrev pub contains : Difference → List Difference → Bool
contains d [] = false
contains equal (equal ∷ ds) = true
contains action (action ∷ ds) = true
contains subject (subject ∷ ds) = true
contains object (object ∷ ds) = true
contains condition (condition ∷ ds) = true
contains d (e ∷ ds) = contains d ds

module _ (P : Platform) (generate : Text → Text) where
  -- Where two policies are not equal and each has a condition, `Compare` names the subjects, the
  -- actions, the object and the condition exactly if these differ, and it finds the policies equal
  -- exactly if none of the four does.
  pub compare_names :
      (p q : PolicyInfo) (c d : ConditionInfo) {ds : List Difference}
      → policies_equal P generate p q ≡ some false
      → p.condition ≡ some c
      → q.condition ≡ some d
      → compare P generate p q ≡ some ds
      → (contains subject ds ≡ not (subjects_equal p.subjects q.subjects))
        × (contains action ds ≡ not (actions_equal p.actions q.actions))
        × (contains object ds ≡ not (object_equal p.object q.object))
        × (contains condition ds ≡ not (conditions_equal P generate c d))
        × (contains equal ds ≡ (
            subjects_equal p.subjects q.subjects
            && (actions_equal p.actions q.actions
                && (object_equal p.object q.object && conditions_equal P generate c d))))
  unfolding compare differences
  compare_names p q c d e f g h = ground arith

  -- A policy without a condition is found equal to one that has a condition, whatever that
  -- condition, if subjects, actions and object are the same.
  pub compare_added_condition :
      (p q : PolicyInfo) (c : ConditionInfo)
      → p.condition ≡ none
      → q.condition ≡ some c
      → subjects_equal p.subjects q.subjects ≡ true
      → actions_equal p.actions q.actions ≡ true
      → object_equal p.object q.object ≡ true
      → compare P generate p q ≡ some (equal ∷ [])
  unfolding compare policies_equal differences
  compare_added_condition p q c e f g h k = ground arith

  -- Two policies that differ only in the contents of their scopes have the same etag, and `Equals` takes
  -- them for equal.
  pub policies_equal_scopes :
      (p : PolicyInfo) (s t : ScopeInfo)
      → (calculate_etag generate (record p { scope = some s })
          ≡ calculate_etag generate (record p { scope = some t }))
        × (policies_equal P generate (record p { scope = some s }) (record p { scope = some t })
            ≡ some true)
  unfolding policies_equal calculate_etag policy_bytes
  policies_equal_scopes p s t = (
    ground arith,
    ground (arith, text_eq_refl (calculate_etag generate (record p { scope = some s }))),
  )
