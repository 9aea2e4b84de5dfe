-- ===== src/Gcp/Cel/Meaning.antt =====
-- The CEL text of a condition means what the condition means.
use policy_conditions.Base.{
  Bool, true, false, not, ◌≡◌, refl, Option, none, some, if◌then◌else◌, and-true, arith, Bool-cases,
  inl, inr, ◌⊎◌,
}
use policy_conditions.Base.Text.{Text}
use policy_conditions.Base.Maybe.{◌>>=◌}
use policy_conditions.Base.Except.{Except, raise, done}
use policy_conditions.Types.Platform.{Platform}
use policy_conditions.Conditions.Ast.{
  Expression, logical, negation, precedence, attribute, value_path,
}
use policy_conditions.Conditions.Meaning.{Truth, holds, combine}
use policy_conditions.Conditions.Shape.{is_logical, LeansLeft}
use policy_conditions.Conditions.Walk.{AttributeMap}
use policy_conditions.Parser.Result.{ok}
use policy_conditions.Parser.Loop.{parse_filter}
use policy_conditions.Parser.Loop.Shape.{parse_filter-LeansLeft}
use policy_conditions.Policy.Info.{ConditionInfo}
use policy_conditions.Gcp.Cel.{
  is_double, map_filter_not, map_filter_precedence, map_filter_logical, map_filter_internal,
  check_compatibility, map_filter, map_condition_to_provider, MapError, value_path_unsupported,
}
use policy_conditions.Gcp.Cel.Grammar.{Level, member, unary, disjunction, Denotes}
use policy_conditions.Gcp.Cel.Levels.{
  NegatesCalls, level, to_disjunction, attribute-Denotes, wrap_logical-Denotes, negated-Denotes,
  logical-Denotes,
}

abbrev finished : Text → Option (Except MapError Text)
finished t = some (done t)

module _ {P : Platform} (n : AttributeMap) (ρ : Truth P) where
  -- The text is there, and is of the level and has the value.
  abbrev Writes : Level → Option Text → Bool → Type 0
  Writes l none b = ⊥
  Writes l (some t) b = Denotes n ρ l t b

  Writes-bind :
      (l m : Level) (o : Option Text) (k : Text → Option Text) (b c : Bool)
      → Writes l o b
      → ((t : Text) → Denotes n ρ l t b → Writes m (k t) c)
      → Writes m (o >>= k) c
  Writes-bind l m none k b c h f = elim h [ ]
  Writes-bind l m (some t) k b c h f = f t h

  map_filter_internal-Writes :
      (child : Bool) (e : Expression P)
      → check_compatibility e ≡ true
      → LeansLeft e
      → NegatesCalls e
      → Writes (level child e) (map_filter_internal n child e) (holds ρ e)
  unfolding map_filter_internal check_compatibility level
  map_filter_internal-Writes child (negation e) c s g =
      Writes-bind (level false e) unary (map_filter_internal n false e)
        (λ t. some (map_filter_not e t)) (holds ρ e) (not (holds ρ e))
        (map_filter_internal-Writes false e c s g.0)
        (λ t d. negated-Denotes n ρ e t (holds ρ e) g.1 d)
  map_filter_internal-Writes child (precedence e) c s g =
      Writes-bind (level false e) (if is_logical e then member else level false e)
        (map_filter_internal n false e) (λ t. some (map_filter_precedence e t)) (holds ρ e)
        (holds ρ e) (map_filter_internal-Writes false e c s g)
        (λ t d. unfold map_filter_precedence in wrap_logical-Denotes n ρ e t (holds ρ e) d)
  map_filter_internal-Writes child (attribute v op w) c s g =
      unfold level in attribute-Denotes n ρ v op w
  map_filter_internal-Writes child (value_path a sub f op w) c s g = ground arith
  map_filter_internal-Writes child (logical op l r) c s g =
      let (p, q) = and-true (check_compatibility l) (check_compatibility r) c in
      let child' = not (is_double op l) in
      Writes-bind (level child' l) (level child (logical op l r)) (map_filter_internal n child' l)
        (λ t. map_filter_internal n child' r >>= λ u. some (map_filter_logical op child t u))
        (holds ρ l) (combine op (holds ρ l) (holds ρ r))
        (map_filter_internal-Writes child' l p s.0 g.0)
        (λ t d.
          Writes-bind (level child' r) (level child (logical op l r))
            (map_filter_internal n child' r) (λ u. some (map_filter_logical op child t u))
            (holds ρ r) (combine op (holds ρ l) (holds ρ r))
            (map_filter_internal-Writes child' r q s.1 g.1)
            (λ u e. logical-Denotes n ρ op child l r t u (holds ρ l) (holds ρ r) s.2 d e))

  -- `MapFilter` of a tree that leans left and negates no relation gives a text that CEL reads with the
  -- tree's meaning, whichever comparisons hold; it refuses trees with value paths, and never panics.
  pub map_filter-Denotes :
      (e : Expression P)
      → LeansLeft e
      → NegatesCalls e
      → ((check_compatibility e ≡ true)
          × (t : Text) × (map_filter n e ≡ some (done t))
          × Denotes n ρ disjunction t (holds ρ e))
        ⊎ ((check_compatibility e ≡ false) × (map_filter n e ≡ some (raise value_path_unsupported)))
  unfolding map_filter
  map_filter-Denotes e s g = elim (Bool-cases (check_compatibility e)) [
    | inl c ↦
        let (t, w, d) =
          written (map_filter_internal n false e) (map_filter_internal-Writes false e c s g) in
        inl (c, t, rw c w, d)
    | inr c ↦ inr (c, rw c refl)
  ]
    where
      written :
          (o : Option Text)
          → Writes (level false e) o (holds ρ e)
          → (t : Text) × ((o >>= finished) ≡ some (done t)) × Denotes n ρ disjunction t (holds ρ e)
      written none h = elim h [ ]
      written (some t) h = (t, refl, to_disjunction n ρ (level false e) t (holds ρ e) h)

  -- The text that `MapConditionToProvider` gives for a rule is one that CEL reads with the meaning of
  -- the tree that `ParseFilter` makes of the rule, whichever comparisons hold, where the tree has no
  -- value path and no `not` directly before a relation such as `eq`.
  pub map_condition_to_provider-Denotes :
      (c : ConditionInfo) (e : Expression P)
      → parse_filter P c.rule ≡ ok e
      → check_compatibility e ≡ true
      → NegatesCalls e
      → (t : Text) × (map_condition_to_provider P n c ≡ some (done t))
        × Denotes n ρ disjunction t (holds ρ e)
  unfolding map_condition_to_provider
  map_condition_to_provider-Denotes c e h k g =
      elim (map_filter-Denotes e (parse_filter-LeansLeft P c.rule h) g) [
        | inl (_, t, w, d) ↦ (t, rw (h, map_condition_to_provider) w, d)
        | inr (x, _) ↦ ground arith
      ]
