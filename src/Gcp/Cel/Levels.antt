-- ===== src/Gcp/Cel/Levels.antt =====
-- The levels of the CEL texts that the mapper writes.
use policy_conditions.Base.{
  Bool, true, false, not, ◌≡◌, refl, Option, if◌then◌else◌, Bool-cases, inl, inr,
}
use policy_conditions.Base.Text.{Text}
use policy_conditions.Types.Platform.{Platform}
use policy_conditions.Types.Value.{Value}
use policy_conditions.Types.Value.Compare.{CompareOperator}
use policy_conditions.Conditions.Ast.{
  LogicalOperator, both, either, Expression, logical, negation, precedence, attribute, value_path,
}
use policy_conditions.Conditions.Meaning.{Truth, combine}
use policy_conditions.Conditions.Shape.{is_logical}
use policy_conditions.Conditions.Walk.{AttributeMap}
use policy_conditions.Gcp.Cel.{
  is_double, wrap_logical, map_filter_not, map_filter_logical, map_filter_attr_expr,
}
use policy_conditions.Gcp.Cel.Grammar.{
  Level, member, unary, relation, conjunction, disjunction, is_relation, Denotes, called, related,
  grouped, negated, conjoined, disjoined, of_member, of_unary, of_relation, of_conjunction,
}

-- Whether the mapper writes the expression as a bare relation; brackets around one comparison are lost.
abbrev pub bare_relation : {P : Platform} → Expression P → Bool
bare_relation (attribute v op w) = is_relation op
bare_relation (precedence e) = bare_relation e
bare_relation e = false

-- No `not` stands before such a relation.
abbrev pub NegatesCalls : {P : Platform} → Expression P → Type 0
NegatesCalls (logical op l r) = NegatesCalls l × NegatesCalls r
NegatesCalls (negation e) = NegatesCalls e × (bare_relation e ≡ false)
NegatesCalls (precedence e) = NegatesCalls e
NegatesCalls (attribute v op w) = Unit
NegatesCalls (value_path a sub f op w) = Unit

-- the level of the text that `mapFilterInternal` writes
unfoldable pub level : {P : Platform} → Bool → Expression P → Level
level child (logical both l r) = conjunction
level true (logical either l r) = member
level false (logical either l r) = disjunction
level child (negation e) = unary
level child (precedence e) = if is_logical e then member else level false e
level child (attribute v op w) = if is_relation op then relation else member
level child (value_path a sub f op w) = member

module _ {P : Platform} (n : AttributeMap) (ρ : Truth P) where
  pub to_disjunction :
      (l : Level) (t : Text) (b : Bool) → Denotes n ρ l t b → Denotes n ρ disjunction t b
  to_disjunction member t b d = of_conjunction (of_relation (of_unary (of_member d)))
  to_disjunction unary t b d = of_conjunction (of_relation (of_unary d))
  to_disjunction relation t b d = of_conjunction (of_relation d)
  to_disjunction conjunction t b d = of_conjunction d
  to_disjunction disjunction t b d = d

  pub attribute-Denotes :
      (v : Value P) (op : CompareOperator) (w : Option (Value P))
      → Denotes n ρ
          (if is_relation op then relation else member)
          (map_filter_attr_expr n v op w)
          (ρ (attribute v op w))
  attribute-Denotes v op w = elim (Bool-cases (is_relation op)) [
    | inl e ↦ rw e (related v op w e)
    | inr e ↦ rw e (called v op w e)
  ]

  pub wrap_logical-Denotes :
      (e : Expression P) (t : Text) (b : Bool)
      → Denotes n ρ (level false e) t b
      → Denotes n ρ (if is_logical e then member else level false e) (wrap_logical e t) b
  wrap_logical-Denotes e t b d = elim (Bool-cases (is_logical e)) [
    | inl h ↦ rw h (grouped (to_disjunction (level false e) t b d))
    | inr h ↦ rw h d
  ]

  to_relation :
      (child : Bool) (e : Expression P) (t : Text) (b : Bool)
      → is_logical e ≡ false
      → Denotes n ρ (level child e) t b
      → Denotes n ρ relation t b
  unfolding level
  to_relation child (logical op l r) t b h d = cc
  to_relation child (negation e) t b h d = of_unary d
  to_relation child (precedence e) t b h d = elim (Bool-cases (is_logical e)) [
    | inl k ↦ of_unary (of_member (rw k at d))
    | inr k ↦ to_relation false e t b k (rw k at d)
  ]
  to_relation child (attribute v op w) t b h d = elim (Bool-cases (is_relation op)) [
    | inl k ↦ rw k at d
    | inr k ↦ of_unary (of_member (rw k at d))
  ]
  to_relation child (value_path a sub f op w) t b h d = of_unary (of_member d)

  to_unary :
      (child : Bool) (e : Expression P) (t : Text) (b : Bool)
      → is_logical e ≡ false
      → bare_relation e ≡ false
      → Denotes n ρ (level child e) t b
      → Denotes n ρ unary t b
  unfolding level
  to_unary child (logical op l r) t b h c d = cc
  to_unary child (negation e) t b h c d = d
  to_unary child (precedence e) t b h c d = elim (Bool-cases (is_logical e)) [
    | inl k ↦ of_member (rw k at d)
    | inr k ↦ to_unary false e t b k c (rw k at d)
  ]
  to_unary child (attribute v op w) t b h c d = of_member (rw c at d)
  to_unary child (value_path a sub f op w) t b h c d = of_member d

  pub negated-Denotes :
      (e : Expression P) (t : Text) (b : Bool)
      → bare_relation e ≡ false
      → Denotes n ρ (level false e) t b
      → Denotes n ρ unary (map_filter_not e t) (not b)
  unfolding map_filter_not
  negated-Denotes e t b c d = elim (Bool-cases (is_logical e)) [
    | inl h ↦ rw h (negated (of_member (grouped (to_disjunction (level false e) t b d))))
    | inr h ↦ rw h (negated (to_unary false e t b h c d))
  ]

  left-Denotes :
      (l : Expression P) (t : Text) (b : Bool)
      → Denotes n ρ (level (not (is_double both l)) l) t b
      → Denotes n ρ conjunction t b
  unfolding level is_double
  left-Denotes (logical both l r) t b d = d
  left-Denotes (logical either l r) t b d = of_relation (of_unary (of_member d))
  left-Denotes (negation e) t b d = of_relation (to_relation true (negation e) t b refl d)
  left-Denotes (precedence e) t b d = of_relation (to_relation true (precedence e) t b refl d)
  left-Denotes (attribute v op w) t b d =
      of_relation (to_relation true (attribute v op w) t b refl d)
  left-Denotes (value_path x sub f op w) t b d = of_relation (of_unary (of_member d))

  pub logical-Denotes :
      (op : LogicalOperator) (child : Bool) (l r : Expression P) (s t : Text) (a b : Bool)
      → is_logical r ≡ false
      → Denotes n ρ (level (not (is_double op l)) l) s a
      → Denotes n ρ (level (not (is_double op l)) r) t b
      → Denotes n ρ
          (level child (logical op l r))
          (map_filter_logical op child s t)
          (combine op a b)
  unfolding level map_filter_logical
  logical-Denotes both child l r s t a b h c d =
      conjoined (left-Denotes l s a c) (to_relation (not (is_double both l)) r t b h d)
  logical-Denotes either true l r s t a b h c d = grouped (
      disjoined (to_disjunction (level (not (is_double either l)) l) s a c)
        (of_relation (to_relation (not (is_double either l)) r t b h d)))
  logical-Denotes either false l r s t a b h c d =
      disjoined (to_disjunction (level (not (is_double either l)) l) s a c)
        (of_relation (to_relation (not (is_double either l)) r t b h d))
