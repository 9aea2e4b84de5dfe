-- ===== src/Cedar/Conditions/Texts.antt =====
-- The Cedar text of an expression means what the expression does.
use policy_conditions.Base.{Bool, true, false, not, ◌≡◌, refl, arith, Option, some}
use policy_conditions.Base.Text.{Text}
use policy_conditions.Types.Platform.{Platform}
use policy_conditions.Conditions.Ast.{
  LogicalOperator, both, either, Expression, logical, negation, precedence, attribute, value_path,
}
use policy_conditions.Conditions.Meaning.{Truth, holds, combine}
use policy_conditions.Conditions.Shape.{is_logical, LeansLeft}
use policy_conditions.Conditions.Walk.{AttributeMap}
use policy_conditions.Gcp.Cel.{is_double, map_filter_logical}
use policy_conditions.Cedar.Conditions.{
  map_filter_expression, map_filter_attr_expr, map_filter_precedence, map_filter_not,
}
use policy_conditions.Cedar.Conditions.Grammar.{
  Level, relation, conjunction, disjunction, Denotes, compared, grouped, negated, conjoined,
  disjoined, of_relation, of_conjunction,
}

-- the level of the text that `mapFilterExpression` writes
abbrev pub level : {P : Platform} → Bool → Expression P → Level
level child (logical both l r) = conjunction
level true (logical either l r) = relation
level false (logical either l r) = disjunction
level child e = relation

module _ {P : Platform} (unquote decimal : Text → Option Text) (n : AttributeMap) where
  -- Every comparison has a text: a presence test is of a path with a dot. There is no value path.
  abbrev pub IsWritten : Expression P → Type 0
  IsWritten (logical op l r) = IsWritten l × IsWritten r
  IsWritten (negation e) = IsWritten e
  IsWritten (precedence e) = IsWritten e
  IsWritten (attribute v op w) =
      (t : Text) × (map_filter_attr_expr unquote decimal n v op w ≡ some t)
  IsWritten (value_path a sub f op w) = true ≡ false

  module _ (ρ : Truth P) where
    pub to_disjunction :
        (l : Level) {t : Text} {b : Bool}
        → Denotes unquote decimal n ρ l t b
        → Denotes unquote decimal n ρ disjunction t b
    to_disjunction relation d = of_conjunction (of_relation d)
    to_disjunction conjunction d = of_conjunction d
    to_disjunction disjunction d = d

    pub to_relation :
        (child : Bool) (e : Expression P) {t : Text} {b : Bool}
        → is_logical e ≡ false
        → Denotes unquote decimal n ρ (level child e) t b
        → Denotes unquote decimal n ρ relation t b
    to_relation child (logical op l r) h d = ground (arith, h)
    to_relation child (negation e) h d = d
    to_relation child (precedence e) h d = d
    to_relation child (attribute v op w) h d = d
    to_relation child (value_path a sub f op w) h d = d

    left_side :
        (l : Expression P) {t : Text} {b : Bool}
        → Denotes unquote decimal n ρ (level (not (is_double both l)) l) t b
        → Denotes unquote decimal n ρ conjunction t b
    unfolding is_double
    left_side (logical both l r) d = d
    left_side (logical either l r) d = of_relation d
    left_side (negation e) d = of_relation d
    left_side (precedence e) d = of_relation d
    left_side (attribute v op w) d = of_relation d
    left_side (value_path a sub f op w) d = of_relation d

    logical-Denotes :
        (op : LogicalOperator) (child : Bool) (l r : Expression P) {s t : Text} {a b : Bool}
        → is_logical r ≡ false
        → Denotes unquote decimal n ρ (level (not (is_double op l)) l) s a
        → Denotes unquote decimal n ρ (level (not (is_double op l)) r) t b
        → Denotes unquote decimal n ρ
            (level child (logical op l r))
            (map_filter_logical op child s t)
            (combine op a b)
    unfolding map_filter_logical
    logical-Denotes both child l r h c d =
        conjoined (left_side l c) (to_relation (not (is_double both l)) r h d)
    logical-Denotes either true l r h c d = grouped (
        disjoined (to_disjunction (level (not (is_double either l)) l) c)
          (of_relation (to_relation (not (is_double either l)) r h d)))
    logical-Denotes either false l r h c d =
        disjoined (to_disjunction (level (not (is_double either l)) l) c)
          (of_relation (to_relation (not (is_double either l)) r h d))

    precedence-Denotes :
        (e : Expression P) {t : Text} {b : Bool}
        → Denotes unquote decimal n ρ (level false e) t b
        → Denotes unquote decimal n ρ relation (map_filter_precedence e t) b
    unfolding map_filter_precedence
    precedence-Denotes (logical op l r) d =
        grouped (to_disjunction (level false (logical op l r)) d)
    precedence-Denotes (negation e) d = d
    precedence-Denotes (precedence e) d = d
    precedence-Denotes (attribute v op w) d = d
    precedence-Denotes (value_path a sub f op w) d = d

    -- The text of an expression that leans left and whose comparisons have texts is there, and Cedar
    -- reads it with the meaning of the expression, whichever comparisons hold.
    pub map_filter_expression-Denotes :
        (child : Bool) (e : Expression P)
        → LeansLeft e
        → IsWritten e
        → (t : Text) × (map_filter_expression unquote decimal n child e ≡ some t)
          × Denotes unquote decimal n ρ (level child e) t (holds ρ e)
    unfolding map_filter_expression map_filter_not
    map_filter_expression-Denotes child (negation e) s g =
        let (t, h, d) = map_filter_expression-Denotes false e s g in
        (map_filter_not t, rw h refl, negated (to_disjunction (level false e) d))
    map_filter_expression-Denotes child (precedence e) s g =
        let (t, h, d) = map_filter_expression-Denotes false e s g in
        (map_filter_precedence e t, rw h refl, precedence-Denotes e d)
    map_filter_expression-Denotes child (attribute v op w) s g = (g.0, g.1, compared v op w g.1)
    map_filter_expression-Denotes child (value_path a sub f op w) s g = ground (arith, g)
    map_filter_expression-Denotes child (logical op l r) s g =
        let child' = not (is_double op l) in
        let (t, h, d) = map_filter_expression-Denotes child' l s.0 g.0 in
        let (u, k, e) = map_filter_expression-Denotes child' r s.1 g.1 in
        (map_filter_logical op child t u, rw h (rw k refl), logical-Denotes op child l r s.2 d e)
