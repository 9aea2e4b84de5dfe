-- ===== src/Pim/Validate/Reported.antt =====
-- What ValidatePolicies reports under a key.
use policy_conditions.Base.{
  ℕ, suc, ◌≡◌, refl, sym, ap, ◌∙◌, Option, none, some, List, [], ◌∷◌, arith, if◌then◌else◌,
}
use policy_conditions.Base.Text.{Text, text_eq}
use policy_conditions.Base.Dict
use policy_conditions.Base.Dict.{Dict}
use policy_conditions.Base.Maybe.{◌>>=◌}
use policy_conditions.Types.Platform.{Platform}
use policy_conditions.Policy.Info.{PolicyInfo}
use policy_conditions.Pim.Schema.{SchemaType}
use policy_conditions.Pim.Entities.{Problem, Problems}
use policy_conditions.Pim.Validate

-- the later report if there is one, and else the earlier one
abbrev later_of : Option (List Problem) → Option (List Problem) → Option (List Problem)
later_of none earlier = earlier
later_of (some es) earlier = some es

-- a report of at least one error
abbrev report : Problems → Option (List Problem)
report none = none
report (some []) = none
report (some (e ∷ es)) = some (e ∷ es)

later_of-assoc_lem :
    (a b c : Option (List Problem)) → later_of (later_of a b) c ≡ later_of a (later_of b c)
later_of-assoc_lem none b c = refl
later_of-assoc_lem (some x) b c = refl

get-add_problems :
    (k key : Text) (es : List Problem) (m : Dict (List Problem))
    → Dict.get key (Validate.add_problems k es m)
      ≡ later_of (if text_eq k key then report (some es) else none) (Dict.get key m)
unfolding Validate.add_problems
get-add_problems k key [] m = ground arith
get-add_problems k key (e ∷ es) m = ground (arith, Dict.get-put k key (e ∷ es) m)

module _ (namespaces : Dict SchemaType) (def_namespace : Text) (unquote : Text → Text)
    (P : Platform) (decimal : ℕ → Text) (n : ℕ) where
  -- the errors of the last policy with the key that has any, where the policies begin at a position
  abbrev pub last_report : Text → ℕ → List PolicyInfo → Option (List Problem)
  last_report key i [] = none
  last_report key i (p ∷ ps) = later_of (last_report key (suc i) ps) (
      if text_eq (Validate.policy_key (decimal i) p.meta.policy_id) key
      then report (Validate.validate_policy namespaces def_namespace unquote P n p)
      else none)

  get-validate_each :
      (key : Text) (ps : List PolicyInfo) (i : ℕ) (m : Dict (List Problem))
      {m' : Dict (List Problem)}
      → Validate.validate_each namespaces def_namespace unquote P decimal n i m ps ≡ some m'
      → Dict.get key m' ≡ later_of (last_report key i ps) (Dict.get key m)
  unfolding Validate.validate_each
  get-validate_each key [] i m {m' = m'} e = ground (arith, e)
  get-validate_each key (p ∷ ps) i m {m' = m'} e =
      (elim (Validate.validate_policy namespaces def_namespace unquote P n p)
          as (λ r.
            (r >>= λ es.
            Validate.validate_each namespaces def_namespace unquote P decimal n (suc i)
              (Validate.add_problems (Validate.policy_key (decimal i) p.meta.policy_id) es m) ps)
              ≡ some m'
            → Dict.get key m'
              ≡ later_of
                  (later_of (last_report key (suc i) ps) (
                    if text_eq (Validate.policy_key (decimal i) p.meta.policy_id) key
                    then report r
                    else none))
                  (Dict.get key m)) [
                    | none ↦ λ f. ground (arith, f)
                    | some es ↦ λ f.
                        get-validate_each key ps (suc i)
                          (Validate.add_problems (Validate.policy_key (decimal i) p.meta.policy_id)
                            es m)
                          f
                        ∙ (ap (later_of (last_report key (suc i) ps)) (
                              get-add_problems (Validate.policy_key (decimal i) p.meta.policy_id)
                                key es m)
                            ∙ sym (
                                later_of-assoc_lem (last_report key (suc i) ps)
                                  (if text_eq (Validate.policy_key (decimal i) p.meta.policy_id) key
                                    then report (some es)
                                    else none)
                                  (Dict.get key m)))
                  ])
        e

  -- Where ValidatePolicies returns, it reports under each key the errors of the last policy with that key
  -- that has errors; those of earlier policies with the same key are lost.
  pub get-validate_policies :
      (key : Text) (ps : List PolicyInfo) {m : Dict (List Problem)}
      → Validate.validate_policies namespaces def_namespace unquote P decimal n ps ≡ some m
      → Dict.get key m ≡ last_report key 0 ps
  unfolding Validate.validate_policies Dict.get
  get-validate_policies key ps {m = m} e = get-validate_each key ps 0 [] e ∙ ground arith
