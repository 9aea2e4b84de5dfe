-- ===== src/Gcp/FromCel/Meaning.antt =====
-- The condition that is made of a CEL tree has the tree's logical structure.
use mathlib.Core.Path.{subst}
use policy_conditions.Base.{
  Bool, true, false, not, ◌&&◌, ◌||◌, ◌≡◌, refl, ap, ap₂, none, some, if◌then◌else◌,
}
use policy_conditions.Base.Text.{codes, text_eq}
use policy_conditions.Base.Except.{raise, done, ◌>>=◌}
use policy_conditions.Types.Platform.{Platform}
use policy_conditions.Conditions.Ast.{LogicalOperator, both, either, Expression}
use policy_conditions.Conditions.Meaning.{Truth, holds, combine}
use policy_conditions.Conditions.Walk.{AttributeMap}
use policy_conditions.Gcp.FromCel.Tree.{
  Cel, call, select, ident, constant, other_kind, Args, no_args, arg,
}
use policy_conditions.Gcp.FromCel.{
  panic, bad_syntax, bad_value, bad_date, unimplemented_expression, unimplemented_operand,
  unimplemented_function, unsupported_function, Result, conjunction, disjunction, opposite,
  comparison, map_comparison, map_select_expr, map_cel_not, logical_some, map_cel_expr, map_first,
  map_cel_logical,
}

module _ {P : Platform} (n : AttributeMap) (ρ : Truth P) where
  -- the value of what a comparison is mapped to
  abbrev pub value : Result P → Bool
  value (raise e) = false
  value (done none) = false
  value (done (some e)) = holds ρ e

  abbrev mutual
    -- the value of a tree, where `ρ` says which of its comparisons hold, in the form that they are mapped to
    pub tree_holds : Cel → Bool
    tree_holds (call f t args) =
        if text_eq f (codes "_&&_")
        then all_hold args
        else if text_eq f (codes "_||_")
        then some_holds args
        else if text_eq f (codes "_!_")
        then not (first_holds args)
        else if text_eq f (codes "!_")
        then not (first_holds args)
        else value (map_comparison P n f t args)
    tree_holds (select operand field) = value (map_select_expr P n operand field)
    tree_holds c = false

    pub first_holds : Args → Bool
    first_holds no_args = false
    first_holds (arg c cs) = tree_holds c

    pub all_hold : Args → Bool
    all_hold no_args = false
    all_hold (arg c no_args) = tree_holds c
    all_hold (arg c (arg d cs)) = tree_holds c && all_hold (arg d cs)

    pub some_holds : Args → Bool
    some_holds no_args = false
    some_holds (arg c no_args) = tree_holds c
    some_holds (arg c (arg d cs)) = tree_holds c || some_holds (arg d cs)

  abbrev args_hold : LogicalOperator → Args → Bool
  args_hold both args = all_hold args
  args_hold either args = some_holds args

  -- An expression that is returned has the value `b`.
  abbrev Means : Result P → Bool → Type 0
  Means (raise e) b = Unit
  Means (done none) b = Unit
  Means (done (some e)) b = holds ρ e ≡ b

  Means-value : (r : Result P) → Means r (value r)
  Means-value (raise e) = tt
  Means-value (done none) = tt
  Means-value (done (some e)) = refl

  map_cel_not-Means : (r : Result P) (b : Bool) → Means r b → Means (map_cel_not P n r) (not b)
  unfolding map_cel_not
  map_cel_not-Means (done (some e)) b h = ap not h
  map_cel_not-Means (done none) b h = tt
  map_cel_not-Means (raise panic) b h = tt
  map_cel_not-Means (raise bad_syntax) b h = tt
  map_cel_not-Means (raise bad_value) b h = tt
  map_cel_not-Means (raise bad_date) b h = tt
  map_cel_not-Means (raise unimplemented_expression) b h = tt
  map_cel_not-Means (raise (unimplemented_operand t)) b h = tt
  map_cel_not-Means (raise (unimplemented_function t)) b h = tt
  map_cel_not-Means (raise (unsupported_function t)) b h = tt

  joined-Means :
      (op : LogicalOperator) (r s : Result P) (a b : Bool)
      → Means r a
      → Means s b
      → Means (r >>= λ e. s >>= λ es. done (logical_some op e es)) (combine op a b)
  joined-Means op (raise e) s a b h k = tt
  joined-Means op (done e) (raise f) a b h k = tt
  joined-Means op (done none) (done none) a b h k = tt
  joined-Means op (done none) (done (some f)) a b h k = tt
  joined-Means op (done (some e)) (done none) a b h k = tt
  joined-Means op (done (some e)) (done (some f)) a b h k = ap₂ (combine op) h k

  call-Means :
      (a b c d : Bool) (r s t u : Result P) (x y z w : Bool)
      → Means r x
      → Means s y
      → Means t z
      → Means u w
      → Means
          (elim (if a
            then conjunction
            else if b
            then disjunction
            else if c || d
            then opposite
            else comparison) [ conjunction ↦ r | disjunction ↦ s | opposite ↦ t | comparison ↦ u ])
          (if a then x else if b then y else if c then z else if d then z else w)
  call-Means true b c d r s t u x y z w f g h k = f
  call-Means false true c d r s t u x y z w f g h k = g
  call-Means false false true d r s t u x y z w f g h k = h
  call-Means false false false true r s t u x y z w f g h k = h
  call-Means false false false false r s t u x y z w f g h k = k

  mutual
    unfolding map_cel_expr map_first map_cel_logical

    expr-Means : (c : Cel) → Means (map_cel_expr P n c) (tree_holds c)
    expr-Means (call f t args) =
        call-Means (text_eq f (codes "_&&_")) (text_eq f (codes "_||_")) (text_eq f (codes "_!_"))
          (text_eq f (codes "!_")) _ _ _ _ _ _ _ _ (logical-Means both args)
          (logical-Means either args) (first-Means args) (Means-value (map_comparison P n f t args))
    expr-Means (select operand field) = Means-value (map_select_expr P n operand field)
    expr-Means (ident x) = tt
    expr-Means (constant k) = tt
    expr-Means other_kind = tt

    first-Means : (args : Args) → Means (map_first P n args) (not (first_holds args))
    first-Means no_args = tt
    first-Means (arg c cs) = map_cel_not-Means (map_cel_expr P n c) (tree_holds c) (expr-Means c)

    logical-Means :
        (op : LogicalOperator) (args : Args)
        → Means (map_cel_logical P n op args) (args_hold op args)
    logical-Means both no_args = tt
    logical-Means either no_args = tt
    logical-Means both (arg c no_args) = expr-Means c
    logical-Means either (arg c no_args) = expr-Means c
    logical-Means both (arg c (arg d cs)) =
        joined-Means both (map_cel_expr P n c) (map_cel_logical P n both (arg d cs)) (tree_holds c)
          (all_hold (arg d cs)) (expr-Means c) (logical-Means both (arg d cs))
    logical-Means either (arg c (arg d cs)) =
        joined-Means either (map_cel_expr P n c) (map_cel_logical P n either (arg d cs))
          (tree_holds c) (some_holds (arg d cs)) (expr-Means c) (logical-Means either (arg d cs))

  -- A condition that `mapCelExpr` makes of a CEL tree holds exactly if the tree does, whichever of the
  -- mapped comparisons hold: calls of `_&&_` and `_||_` with any number of arguments and of `_!_` and `!_`
  -- keep their logical meaning. Comparisons and presence tests are taken as they are mapped.
  pub map_cel_expr-holds :
      (c : Cel) {e : Expression P} → map_cel_expr P n c ≡ done (some e) → holds ρ e ≡ tree_holds c
  map_cel_expr-holds c h = subst (λ r. Means r (tree_holds c)) h (expr-Means c)
