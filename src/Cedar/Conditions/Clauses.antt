-- ===== src/Cedar/Conditions/Clauses.antt =====
-- The clauses of Cedar for a condition are met exactly where the condition holds.
use mathlib.Core.Path.{subst}
use policy_conditions.Base.{
  Bool, true, false, not, ◌≡◌, refl, sym, arith, Option, some, ◌∷◌, ◌++◌, if◌then◌else◌,
}
use policy_conditions.Base.Text.{Text, codes, text_eq}
use policy_conditions.Base.Except.{done}
use policy_conditions.Base.Maybe.{◌>>=◌}
use policy_conditions.Types.Platform.{Platform}
use policy_conditions.Conditions.Ast.{
  both, either, Expression, logical, negation, precedence, attribute, value_path,
}
use policy_conditions.Conditions.Meaning.{Truth, holds}
use policy_conditions.Conditions.Shape.{LeansLeft}
use policy_conditions.Conditions.Walk.{AttributeMap}
use policy_conditions.Parser.Result.{ok}
use policy_conditions.Parser.Loop.{parse_filter}
use policy_conditions.Policy.Info.{ConditionInfo}
use policy_conditions.Cedar.Conditions
use policy_conditions.Cedar.Conditions.{
  Flat, Flats, one, multi, nil, cons, check_and_flatten, map_condition_to_cedar, clause,
  check_compatibility,
}
use policy_conditions.Cedar.Conditions.Flatten.{flat_holds, flats_hold, check_and_flatten-holds}
use policy_conditions.Cedar.Conditions.Grammar.{
  disjunction, Denotes, Clauses, when, unless, next_line,
}
use policy_conditions.Cedar.Conditions.Texts.{
  IsWritten, level, to_disjunction, map_filter_expression-Denotes,
}
use policy_conditions.Cedar.Conditions.Parts.{and_unit, IsPart, AreOrParts, joined_parts-Denotes}

-- the value of a clause's text, where the flag stands for `unless`
abbrev pub signed : Bool → Bool → Bool
signed u b = if u then not b else b

module _ {P : Platform} (unquote decimal : Text → Option Text) (n : AttributeMap) where
  abbrev mutual
    -- An expression, an `or` of parts, or an `and` of such under `when`.
    pub IsClausal : Bool → Flat P → Type 0
    IsClausal u (one e) = IsPart unquote decimal n e
    IsClausal u (multi either fs) = AreOrParts unquote decimal n fs
    IsClausal u (multi both fs) = (u ≡ false) × AreClausal fs

    AreClausal : Flats P → Type 0
    AreClausal nil = true ≡ false
    AreClausal (cons f nil) = IsClausal false f
    AreClausal (cons f (cons g fs)) = IsClausal false f × AreClausal (cons g fs)

  -- The shape of a tree under a clause, `unless` where the flag is set.
  abbrev pub IsTopClausal : Bool → Expression P → Type 0
  IsTopClausal u (negation e) = IsClausal (not u) (check_and_flatten e)
  IsTopClausal u (precedence e) = IsClausal u (check_and_flatten e)
  IsTopClausal u (logical op l r) = IsClausal u (check_and_flatten (logical op l r))
  IsTopClausal u (attribute v op w) = IsWritten unquote decimal n (attribute v op w)
  IsTopClausal u (value_path a sub f op w) = true ≡ false

  module _ (ρ : Truth P) where
    clause-Clauses :
        (u : Bool) {t : Text} {b : Bool}
        → Denotes unquote decimal n ρ disjunction t b
        → Clauses unquote decimal n ρ (clause u t) (signed u b)
    unfolding clause
    clause-Clauses true d = unless d
    clause-Clauses false d = when d

    -- a text that is there, and whose clauses are met exactly if the value is true
    abbrev pub Clause : Option Text → Bool → Type 0
    Clause o b = (t : Text) × (o ≡ some t) × Clauses unquote decimal n ρ t b

    plain-Clause :
        (e : Expression P) (u : Bool)
        → LeansLeft e
        → IsWritten unquote decimal n e
        → Clause
            (Conditions.map_filter_expression unquote decimal n false e >>= λ t. some (clause u t))
            (signed u (holds ρ e))
    plain-Clause e u s g =
        let (t, h, d) = map_filter_expression-Denotes unquote decimal n ρ false e s g in
        (
          clause u t,
          rw h refl,
          clause-Clauses u (to_disjunction unquote decimal n ρ (level false e) d),
        )

    signed-not : (u b : Bool) → signed (not u) b ≡ signed u (not b)
    signed-not true b = ground arith
    signed-not false b = refl

    map_to_condition_clause-Clause :
        (e : Expression P) (u : Bool)
        → IsPart unquote decimal n e
        → Clause (Conditions.map_to_condition_clause unquote decimal n e u) (signed u (holds ρ e))
    unfolding Conditions.map_to_condition_clause
    map_to_condition_clause-Clause (logical op l r) u (s, g, k) = ground (arith, k)
    map_to_condition_clause-Clause (precedence e) u (s, g, k) = plain-Clause e u s g
    map_to_condition_clause-Clause (negation e) u (s, g, k) =
        rw (sym (signed-not u (holds ρ e))) (plain-Clause e (not u) s g)
    map_to_condition_clause-Clause (attribute v op w) u (s, g, k) =
        plain-Clause (attribute v op w) u s g
    map_to_condition_clause-Clause (value_path a sub f op w) u (s, g, k) =
        plain-Clause (value_path a sub f op w) u s g

    mutual
      unfolding Conditions.map_flattened_clause Conditions.clause_lines

      -- The clauses of a flattened expression are met exactly if it holds under `when`, and if it does not hold
      -- under `unless`.
      pub map_flattened_clause-Clauses :
          (f : Flat P) (u : Bool)
          → IsClausal u f
          → Clause
              (Conditions.map_flattened_clause unquote decimal n f u)
              (signed u (flat_holds ρ f))
      map_flattened_clause-Clauses (one e) u g = map_to_condition_clause-Clause e u g
      map_flattened_clause-Clauses (multi either fs) u g =
          let (t, h, d) = joined_parts-Denotes unquote decimal n ρ fs g in
          (clause u t, rw h refl, clause-Clauses u d)
      map_flattened_clause-Clauses (multi both fs) true (g, r) = ground (arith, g)
      map_flattened_clause-Clauses (multi both fs) false (g, r) = clause_lines-Clause fs r

      clause_lines-Clause :
          (fs : Flats P)
          → AreClausal fs
          → Clause (Conditions.clause_lines unquote decimal n fs false) (flats_hold ρ both fs)
      clause_lines-Clause nil g = ground (arith, g)
      clause_lines-Clause (cons f nil) g =
          rw (and_unit (flat_holds ρ f)) (map_flattened_clause-Clauses f false g)
      clause_lines-Clause (cons e (cons f fs)) (g, r) =
          let (s, h, c) = map_flattened_clause-Clauses e false g in
          let (t, i, d) = clause_lines-Clause (cons f fs) r in
          (s ++ (10 ∷ t), rw h (rw i refl), next_line c d)

    flattened-Clause :
        (e : Expression P) (u : Bool)
        → IsClausal u (check_and_flatten e)
        → Clause
            (Conditions.map_flattened_clause unquote decimal n (check_and_flatten e) u)
            (signed u (holds ρ e))
    flattened-Clause e u g =
        subst
          (λ b.
            Clause (Conditions.map_flattened_clause unquote decimal n (check_and_flatten e) u)
              (signed u b))
          (check_and_flatten-holds ρ e) (map_flattened_clause-Clauses (check_and_flatten e) u g)

    top_clauses-Clause :
        (e : Expression P) (u : Bool)
        → IsTopClausal u e
        → Clause (Conditions.top_clauses unquote decimal n e u) (signed u (holds ρ e))
    unfolding Conditions.top_clauses Conditions.map_to_condition_clause
    top_clauses-Clause (negation e) u g =
        rw (sym (signed-not u (holds ρ e))) (flattened-Clause e (not u) g)
    top_clauses-Clause (precedence e) u g = flattened-Clause e u g
    top_clauses-Clause (logical op l r) u g = flattened-Clause (logical op l r) u g
    top_clauses-Clause (attribute v op w) u g = plain-Clause (attribute v op w) u tt g
    top_clauses-Clause (value_path a sub f op w) u g = ground (arith, g)

    -- The clauses that MapConditionToCedar writes for a rule are met exactly where the rule's tree holds, or under
    -- the action deny where it does not, whichever comparisons hold, if every comparison has a text, the tree has
    -- no value path, and it is a comparison or, flattened and without a `not` or brackets on top, an `or` whose
    -- parts are in no `or` and no deeper `and`, or an `and` of such with no `not` on top and no deny.
    pub map_condition_to_cedar-Clauses :
        (c : ConditionInfo) (e : Expression P)
        → parse_filter P c.rule ≡ ok e
        → check_compatibility e ≡ true
        → IsTopClausal (text_eq c.action (codes "deny")) e
        → (t : Text) × (map_condition_to_cedar unquote decimal P n (some c) ≡ some (done t))
          × Clauses unquote decimal n ρ t (signed (text_eq c.action (codes "deny")) (holds ρ e))
    unfolding map_condition_to_cedar Conditions.finished
    map_condition_to_cedar-Clauses c e h k g =
        let (t, i, d) = top_clauses-Clause e (text_eq c.action (codes "deny")) g in
        (t, rw (h, map_condition_to_cedar) (rw k (rw i refl)), d)
