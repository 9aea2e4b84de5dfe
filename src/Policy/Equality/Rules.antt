-- ===== src/Policy/Equality/Rules.antt =====
-- Which rules `ConditionInfo.Equals` takes for the same.
use policy_conditions.Base.{true, ◌≡◌, refl, ap, sym, ◌∙◌, List, [], ◌∷◌, ◌++◌, append_assoc, arith}
use policy_conditions.Base.Sort.{insert_text, sort_texts}
use policy_conditions.Base.Sort.Order.{insert_text_comm, sort_texts-middle, sort_texts-swap}
use policy_conditions.Base.Text.{Text, codes, text_eq_refl, equal_fold}
use policy_conditions.Types.Platform.{Platform}
use policy_conditions.Conditions.Ast.{
  Expression, LogicalOperator, both, either, logical, precedence, dif, logical_string,
}
use policy_conditions.Conditions.Walk.{sent, compare_walk}
use policy_conditions.Parser.Result.{ok}
use policy_conditions.Parser.Loop.{parse_filter}
use policy_conditions.Policy.Info.{ConditionInfo}
use policy_conditions.Policy.Equality.{slices_equal, rules_equal, conditions_equal}

equal_fold_refl : (t : Text) → equal_fold t t ≡ true
unfolding equal_fold
equal_fold_refl [] = refl
equal_fold_refl (c ∷ t) = ground (arith, equal_fold_refl t)

slices_equal_refl : (ts : List Text) → slices_equal ts ts ≡ true
unfolding slices_equal
slices_equal_refl [] = refl
slices_equal_refl (t ∷ ts) = ground (arith, equal_fold_refl t, slices_equal_refl ts)

module _ {P : Platform} where
  rules_equal-sorted :
      (e f : Expression P)
      → sort_texts (compare_walk e) ≡ sort_texts (compare_walk f)
      → rules_equal (ok e) (ok f) ≡ true
  unfolding rules_equal
  rules_equal-sorted e f h =
      ap (slices_equal (sort_texts (compare_walk e))) (sym h)
      ∙ slices_equal_refl (sort_texts (compare_walk e))

  compare_walk-swap :
      (op : LogicalOperator) (l r : Expression P)
      → sort_texts (compare_walk (logical op l r)) ≡ sort_texts (compare_walk (logical op r l))
  unfolding compare_walk dif sent logical_string sort_texts
  compare_walk-swap both l r =
      ap (insert_text (codes "and")) (sort_texts-swap (compare_walk l) (compare_walk r))
  compare_walk-swap either l r =
      ap (insert_text (codes "or")) (sort_texts-swap (compare_walk l) (compare_walk r))

  compare_walk-regroup :
      (a b c : Expression P)
      → sort_texts (compare_walk (logical both a (precedence (logical either b c))))
        ≡ sort_texts (compare_walk (logical either (logical both a b) c))
  unfolding compare_walk dif sent logical_string sort_texts
  compare_walk-regroup a b c =
      let wa = compare_walk a in
      let wb = compare_walk b in
      let wc = compare_walk c in
      ap (insert_text (codes "and")) (sort_texts-middle (codes "or") wa (wb ++ wc))
      ∙ insert_text_comm (codes "and") (codes "or") (sort_texts (wa ++ (wb ++ wc)))
      ∙ ap (λ ts. insert_text (codes "or") (insert_text (codes "and") (sort_texts ts)))
          (sym (append_assoc wa wb wc))

module _ (P : Platform) (generate : Text → Text) where
  conditions_equal-rules :
      (c d : ConditionInfo) (e f : Expression P)
      → c.action ≡ d.action
      → parse_filter P c.rule ≡ ok e
      → parse_filter P d.rule ≡ ok f
      → rules_equal (ok e) (ok f) ≡ true
      → conditions_equal P generate c d ≡ true
  unfolding conditions_equal
  conditions_equal-rules c d e f a g h k = ground (
    arith,
    text_eq_refl d.action,
    ap (λ r. rules_equal r (parse_filter P d.rule)) g,
    ap (rules_equal (ok e)) h,
  )

  -- Two conditions with the same action whose rules have the same operands of `and` or of `or`, in
  -- either order, are equal.
  pub conditions_equal-swap :
      (c d : ConditionInfo) (op : LogicalOperator) (l r : Expression P)
      → c.action ≡ d.action
      → parse_filter P c.rule ≡ ok (logical op l r)
      → parse_filter P d.rule ≡ ok (logical op r l)
      → conditions_equal P generate c d ≡ true
  conditions_equal-swap c d op l r a g h =
      conditions_equal-rules c d (logical op l r) (logical op r l) a g h
        (rules_equal-sorted (logical op l r) (logical op r l) (compare_walk-swap op l r))

  -- A rule `a and (b or c)` is found equal to the rule `(a and b) or c`, whatever the three parts:
  -- the comparison does not see where the brackets stand.
  pub conditions_equal-regrouped :
      (c d : ConditionInfo) (x y z : Expression P)
      → c.action ≡ d.action
      → parse_filter P c.rule ≡ ok (logical both x (precedence (logical either y z)))
      → parse_filter P d.rule ≡ ok (logical either (logical both x y) z)
      → conditions_equal P generate c d ≡ true
  conditions_equal-regrouped c d x y z a g h =
      conditions_equal-rules c d (logical both x (precedence (logical either y z)))
        (logical either (logical both x y) z) a g h
        (rules_equal-sorted (logical both x (precedence (logical either y z)))
          (logical either (logical both x y) z) (compare_walk-regroup x y z))
