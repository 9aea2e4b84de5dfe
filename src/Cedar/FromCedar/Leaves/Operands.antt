-- ===== src/Cedar/FromCedar/Leaves/Operands.antt =====
-- What the comparisons of a Cedar tree are mapped to: their operators and sides.
use policy_conditions.Base.{
  Bool, false, ◌≡◌, refl, ap, ap₂, none, some, List, [], ◌∷◌, ◌++◌, if◌then◌else◌,
}
use policy_conditions.Base.Text.{Text, codes, contains, join}
use policy_conditions.Base.Except.{done, ◌>>=◌}
use policy_conditions.Types.Platform.{Platform}
use policy_conditions.Types.Quote.{quote}
use policy_conditions.Types.Value.Compare.{CompareOperator, within, is_type, pr}
use policy_conditions.Types.Value.Parse.{parse_value}
use policy_conditions.Conditions.Ast.{Expression, attribute}
use policy_conditions.Conditions.Meaning.{Truth, holds}
use policy_conditions.Cedar.FromCedar.Tree
use policy_conditions.Cedar.FromCedar.Tree.{
  Node, Nodes, nil, cons, var, set, access, string_value, entity_uid, other_value,
}
use policy_conditions.Cedar.FromCedar.Leaves.{
  map_cedar_relation_comparator, or_empty, or_bad, method_sides, compared_texts, map_relation,
  map_cedar_func, map_is, map_is_in, map_has, single_colons, comparator_value, comparators,
}
use policy_conditions.Cedar.FromCedar.Leaves.Attributes.{All, All-bind}

-- The text that stands for a node on a side of a comparison, of one that can stand there
abbrev mutual
  pub operand : Node → Text
  operand (Tree.value (string_value t)) = quote t
  operand (Tree.value (entity_uid type id t)) =
      single_colons false type ++ (codes ":\"" ++ (id ++ codes "\""))
  operand (Tree.value (other_value t)) = t
  operand (var x) = x
  operand (access n attr) = operand n ++ (codes "." ++ attr)
  operand (set ns) = codes "[" ++ (join (codes ", ") (operands ns) ++ codes "]")
  operand n = []

  operands : Nodes → List Text
  operands nil = []
  operands (cons n ns) = operand n ∷ operands ns

mutual
  unfolding map_cedar_relation_comparator comparator_value

  comparator-operand : (n : Node) → All (λ t. t ≡ operand n) (map_cedar_relation_comparator n)
  comparator-operand (Tree.value (string_value t)) = refl
  comparator-operand (Tree.value (entity_uid type id t)) = refl
  comparator-operand (Tree.value (other_value t)) = refl
  comparator-operand (var x) = refl
  comparator-operand (access n attr) =
      All-bind (λ t. t ≡ operand (access n attr)) (map_cedar_relation_comparator n) _
        (comparator-operand n) (λ t h. ap (λ x. x ++ (codes "." ++ attr)) h)
  comparator-operand (set ns) =
      All-bind (λ t. t ≡ operand (set ns)) (comparators ns) _ (comparators-operands ns)
        (λ ts h. ap (λ x. codes "[" ++ (join (codes ", ") x ++ codes "]")) h)
  comparator-operand n = tt

  comparators-operands : (ns : Nodes) → All (λ ts. ts ≡ operands ns) (comparators ns)
  comparators-operands nil = refl
  comparators-operands (cons n ns) =
      All-bind (λ ts. ts ≡ operands (cons n ns)) (map_cedar_relation_comparator n) _
        (comparator-operand n)
        (λ t h.
          All-bind (λ ts. ts ≡ operands (cons n ns)) (comparators ns) _ (comparators-operands ns)
            (λ ts k. ap₂ (λ x xs. x ∷ xs) h k))

module _ {P : Platform} (ρ : Truth P) where
  -- the comparison of the values of two texts
  abbrev pub compares : CompareOperator → Text → Text → Bool
  compares op l r = elim (parse_value P l) [
    | none ↦ false
    | some v ↦ elim (parse_value P r) [ none ↦ false | some w ↦ ρ (attribute v op (some w)) ]
  ]

  abbrev pub present : Text → Bool
  present t = elim (parse_value P t) [ none ↦ false | some v ↦ ρ (attribute v pr none) ]

  -- the two texts that a method compares, as the mapper takes them from its arguments
  abbrev pub sides : Nodes → Text × Text
  sides ns = method_sides [] [] ns

  -- the text of the entity that stands behind `in`, or an empty one
  abbrev pub group_text : Node → Text
  group_text m = or_empty (map_cedar_relation_comparator m)

  abbrev pub Means : Bool → Expression P → Type 0
  Means b e = holds ρ e ≡ b

  compared_texts-Means :
      (op : CompareOperator) (l r : Text) → All (Means (compares op l r)) (compared_texts P op l r)
  unfolding compared_texts
  compared_texts-Means op l r =
      elim (parse_value P l)
        as (λ v.
          All
            (Means (elim v [
              | none ↦ false
              | some v ↦ elim (parse_value P r) [
                | none ↦ false
                | some w ↦ ρ (attribute v op (some w))
              ]
            ]))
            (or_bad v >>= λ lhv.
              or_bad (parse_value P r) >>= λ rhv. done (attribute lhv op (some rhv)))) [
                | none ↦ tt
                | some x ↦
                    elim (parse_value P r)
                      as (λ w.
                        All (Means (elim w [ none ↦ false | some w ↦ ρ (attribute x op (some w)) ]))
                          (or_bad w >>= λ rhv. done (attribute x op (some rhv)))) [
                            | none ↦ tt
                            | some y ↦ refl
                          ]
              ]

  present-Means :
      (t : Text)
      → All (Means (present t)) (or_bad (parse_value P t) >>= λ v. done (attribute v pr none))
  present-Means t =
      elim (parse_value P t)
        as (λ v.
          All (Means (elim v [ none ↦ false | some v ↦ ρ (attribute v pr none) ]))
            (or_bad v >>= λ v. done (attribute v pr none))) [ none ↦ tt | some x ↦ refl ]

  pub map_relation-Means :
      (op : CompareOperator) (l r : Node)
      → All (Means (compares op (operand l) (operand r))) (map_relation P op l r)
  unfolding map_relation
  map_relation-Means op l r =
      All-bind (Means _) (map_cedar_relation_comparator l) _ (comparator-operand l) (λ lh h.
        All-bind (Means _) (map_cedar_relation_comparator r) _ (comparator-operand r)
          (λ rh k. rw (h, k) (compared_texts-Means op (operand l) (operand r))))

  pub map_is-Means :
      (n : Node) (type : Text) → All (Means (compares is_type (operand n) type)) (map_is P n type)
  unfolding map_is
  map_is-Means n type =
      All-bind (Means _) (map_cedar_relation_comparator n) _ (comparator-operand n)
        (λ lh h. rw h (compared_texts-Means is_type (operand n) type))

  pub map_is_in-Means :
      (n m : Node) → All (Means (compares within (operand n) (group_text m))) (map_is_in P n m)
  unfolding map_is_in
  map_is_in-Means n m =
      All-bind (Means _) (map_cedar_relation_comparator n) _ (comparator-operand n)
        (λ lh h. rw h (compared_texts-Means within (operand n) _))

  pub map_has-Means :
      (n : Node) (attr : Text)
      → All
          (Means (
            present (
              operand n
              ++ (codes "." ++ (if contains attr (codes " ") then quote attr else attr)))))
          (map_has P n attr)
  unfolding map_has
  map_has-Means n attr =
      All-bind (Means _) (map_cedar_relation_comparator n) _ (comparator-operand n)
        (λ lh h. rw h (present-Means _))

  pub map_cedar_func-Means :
      (op : CompareOperator) (ns : Nodes)
      → All (Means (compares op (sides ns).0 (sides ns).1)) (map_cedar_func P op ns)
  unfolding map_cedar_func
  map_cedar_func-Means op ns = compared_texts-Means op _ _
