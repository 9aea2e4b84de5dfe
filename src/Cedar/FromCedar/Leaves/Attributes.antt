-- ===== src/Cedar/FromCedar/Leaves/Attributes.antt =====
-- Of one operator of Cedar the mapper makes one comparison.
use policy_conditions.Base.{
  [], ◌++◌, Bool, true, false, not, ◌&&◌, Option, ◌≡◌, ◌==◌, if◌then◌else◌,
}
use policy_conditions.Base.Lists.{length, drop}
use policy_conditions.Base.Text.{Text, codes, contains, has_prefix, has_suffix}
use policy_conditions.Base.Except.{Except, raise, done, ◌>>=◌}
use policy_conditions.Types.Platform.{Platform}
use policy_conditions.Types.Quote.{quote}
use policy_conditions.Types.Value.{Value}
use policy_conditions.Types.Value.Compare.{CompareOperator, sw, ew, within, co, is_type}
use policy_conditions.Types.Value.Parse.{parse_value}
use policy_conditions.Conditions.Ast.{Expression, attribute}
use policy_conditions.Cedar.Comparison.{remove_quotes}
use policy_conditions.Cedar.FromCedar.Tree.{Node, Nodes}
use policy_conditions.Cedar.FromCedar.Leaves.{
  map_cedar_relation_comparator, or_empty, or_bad, method_sides, without_last, compared_texts,
  map_relation, map_cedar_func, map_is, map_is_in, map_has, like_value, like_starred, like_pattern,
  map_like,
}

-- what is returned without an error is `Q`
abbrev pub All {ℓ} : {Error A : Type ℓ} → (A → Type ℓ) → Except Error A → Type ℓ
All Q (raise e) = Unit
All Q (done a) = Q a

pub All-bind {ℓ} :
    {Error A B : Type ℓ} {Q : A → Type ℓ} (R : B → Type ℓ) (r : Except Error A)
    (f : A → Except Error B)
    → All Q r
    → ((a : A) → Q a → All R (f a))
    → All R (r >>= f)
All-bind R (raise e) f h k = tt
All-bind R (done a) f h k = k a h

All-next {ℓ} :
    {Error A B : Type ℓ} (R : B → Type ℓ) (r : Except Error A) (f : A → Except Error B)
    → ((a : A) → All R (f a))
    → All R (r >>= f)
All-next R (raise e) f k = tt
All-next R (done a) f k = k a

All-if {ℓ} :
    {Error A : Type ℓ} (R : A → Type ℓ) (b : Bool) (r s : Except Error A)
    → All R r
    → All R s
    → All R (if b then r else s)
All-if R true r s h k = h
All-if R false r s h k = k

pub All-weaken {ℓ} :
    {Error A : Type ℓ} (Q R : A → Type ℓ) (r : Except Error A)
    → ((a : A) → Q a → R a)
    → All Q r
    → All R r
All-weaken Q R (raise e) k h = tt
All-weaken Q R (done a) k h = k a h

pub All-both {ℓ} :
    {Error A : Type ℓ} (Q R : A → Type ℓ) (r : Except Error A)
    → All Q r
    → All R r
    → All (λ a. Q a × R a) r
All-both Q R (raise e) h k = tt
All-both Q R (done a) h k = (h, k)

pub All-true : {Error A : Type 0} (r : Except Error A) → All (λ a. Unit) r
All-true (raise e) = tt
All-true (done a) = tt

abbrev pub IsAttribute : {P : Platform} → Expression P → Type 0
IsAttribute (attribute v op w) = Unit
IsAttribute e = true ≡ false

module _ (P : Platform) where
  compared_texts-IsAttribute :
      (op : CompareOperator) (lh rh : Text) → All IsAttribute (compared_texts P op lh rh)
  unfolding compared_texts
  compared_texts-IsAttribute op lh rh =
      All-next IsAttribute (or_bad (parse_value P lh)) _
        (λ lhv. All-next IsAttribute (or_bad (parse_value P rh)) _ (λ rhv. tt))

  pub map_relation-IsAttribute :
      (op : CompareOperator) (left right : Node) → All IsAttribute (map_relation P op left right)
  unfolding map_relation
  map_relation-IsAttribute op left right =
      All-next IsAttribute (map_cedar_relation_comparator left) _ (λ lh.
        All-next IsAttribute (map_cedar_relation_comparator right) _
          (λ rh. compared_texts-IsAttribute op lh rh))

  pub map_cedar_func-IsAttribute :
      (op : CompareOperator) (ns : Nodes) → All IsAttribute (map_cedar_func P op ns)
  unfolding map_cedar_func
  map_cedar_func-IsAttribute op ns =
      compared_texts-IsAttribute op (method_sides [] [] ns).0 (method_sides [] [] ns).1

  pub map_is-IsAttribute : (n : Node) (type : Text) → All IsAttribute (map_is P n type)
  unfolding map_is
  map_is-IsAttribute n type =
      All-next IsAttribute (map_cedar_relation_comparator n) _
        (λ lh. compared_texts-IsAttribute is_type lh type)

  pub map_is_in-IsAttribute : (n m : Node) → All IsAttribute (map_is_in P n m)
  unfolding map_is_in
  map_is_in-IsAttribute n m =
      All-next IsAttribute (map_cedar_relation_comparator n) _
        (λ lh. compared_texts-IsAttribute within lh (or_empty (map_cedar_relation_comparator m)))

  pub map_has-IsAttribute : (n : Node) (attr : Text) → All IsAttribute (map_has P n attr)
  unfolding map_has
  map_has-IsAttribute n attr = All-next IsAttribute (map_cedar_relation_comparator n) _ (λ lh.
      All-next IsAttribute
        (or_bad (
          parse_value P
            (lh ++ (codes "." ++ (if contains attr (codes " ") then quote attr else attr)))))
        _ (λ lhv. tt))

  like_value-IsAttribute :
      (op : CompareOperator) (lhv : Value P) (t : Text) → All IsAttribute (like_value P op lhv t)
  unfolding like_value
  like_value-IsAttribute op lhv t =
      All-next IsAttribute (or_bad (parse_value P (quote t))) _ (λ rhv. tt)

  like_starred-IsAttribute : (p : Text) (lhv : Value P) → All IsAttribute (like_starred P p lhv)
  unfolding like_starred
  like_starred-IsAttribute p lhv =
      All-if IsAttribute (contains (drop 1 p) (codes "*")) _ _ tt
        (like_value-IsAttribute ew lhv (drop 1 p))

  contained-IsAttribute :
      (p : Text) (lhv : Value P) (e : Expression P)
      → IsAttribute e
      → All IsAttribute
          (if contains (without_last (drop 1 p)) (codes "*") then like_starred P p lhv else done e)
  contained-IsAttribute p lhv e h =
      All-if IsAttribute (contains (without_last (drop 1 p)) (codes "*")) _ _
        (like_starred-IsAttribute p lhv) h

  like_pattern-IsAttribute : (p : Text) (lhv : Value P) → All IsAttribute (like_pattern P p lhv)
  unfolding like_pattern
  like_pattern-IsAttribute p lhv =
      All-if IsAttribute (has_prefix p (codes "*")) _ _
        (All-if IsAttribute (has_suffix p (codes "*")) _ _
          (All-if IsAttribute (length p == 1) _ _ tt (
            All-bind IsAttribute (like_value P co lhv (without_last (drop 1 p))) _
              (like_value-IsAttribute co lhv (without_last (drop 1 p)))
              (contained-IsAttribute p lhv)))
          (like_starred-IsAttribute p lhv))
        (All-if IsAttribute
          (has_suffix p (codes "*") && not (contains (without_last p) (codes "*"))) _ _
          (like_value-IsAttribute sw lhv (without_last p)) tt)

  pub map_like-IsAttribute :
      (unquote : Text → Option Text) (n : Node) (p : Text)
      → All IsAttribute (map_like P unquote n p)
  unfolding map_like
  map_like-IsAttribute unquote n p =
      All-next IsAttribute (or_bad (parse_value P (or_empty (map_cedar_relation_comparator n)))) _
        (λ lhv. like_pattern-IsAttribute (remove_quotes unquote p) lhv)
