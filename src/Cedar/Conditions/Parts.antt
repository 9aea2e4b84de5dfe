-- ===== src/Cedar/Conditions/Parts.antt =====
-- The parts of an `or` of Cedar mean what they do in the flattened expression.
use mathlib.Core.Path.{subst}
use policy_conditions.Base.{
  append_assoc, ◌∙◌, Bool, true, false, ◌&&◌, ◌||◌, ◌≡◌, refl, ap, arith, Option, some, ◌++◌,
}
use policy_conditions.Base.Text.{Text, codes}
use policy_conditions.Types.Platform.{Platform}
use policy_conditions.Conditions.Ast.{both, either, Expression}
use policy_conditions.Conditions.Meaning.{Truth, holds, combine}
use policy_conditions.Conditions.Shape.{is_logical, LeansLeft}
use policy_conditions.Conditions.Walk.{AttributeMap}
use policy_conditions.Cedar.Conditions
use policy_conditions.Cedar.Conditions.{
  Flat, Flats, one, multi, nil, cons, check_and_flatten, map_condition_to_cedar, clause,
  check_compatibility,
}
use policy_conditions.Cedar.Conditions.Flatten.{flat_holds, flats_hold}
use policy_conditions.Cedar.Conditions.Grammar.{
  relation, conjunction, disjunction, Denotes, grouped, after_space, conjoined, disjoined,
  of_relation, of_conjunction,
}
use policy_conditions.Cedar.Conditions.Texts.{IsWritten, to_relation, map_filter_expression-Denotes}

pub and_unit : (a : Bool) → (a && true) ≡ a
and_unit a = ground arith

or_unit : (a : Bool) → (a || false) ≡ a
or_unit a = ground arith

and_assoc : (a b c : Bool) → ((a && b) && c) ≡ (a && (b && c))
and_assoc a b c = ground arith

or_assoc : (a b c : Bool) → ((a || b) || c) ≡ (a || (b || c))
or_assoc a b c = ground arith

regroup : (p s t m : Text) → ((p ++ (m ++ s)) ++ (m ++ t)) ≡ (p ++ (m ++ (s ++ (m ++ t))))
regroup p s t m = append_assoc p (m ++ s) (m ++ t) ∙ ap (λ x. p ++ x) (append_assoc m s (m ++ t))

module _ {P : Platform} (unquote decimal : Text → Option Text) (n : AttributeMap) where
  -- An expression with no `and` or `or` on top that has a text.
  abbrev pub IsPart : Expression P → Type 0
  IsPart e = LeansLeft e × IsWritten unquote decimal n e × (is_logical e ≡ false)

  -- expressions, and at least one
  abbrev AreInner : Flats P → Type 0
  AreInner nil = true ≡ false
  AreInner (cons (multi op gs) fs) = true ≡ false
  AreInner (cons (one e) nil) = IsPart e
  AreInner (cons (one e) (cons f fs)) = IsPart e × AreInner (cons f fs)

  -- The parts of an `or`: expressions, or an `and` of expressions.
  abbrev IsOrPart : Flat P → Type 0
  IsOrPart (one e) = IsPart e
  IsOrPart (multi both fs) = AreInner fs
  IsOrPart (multi either fs) = true ≡ false

  abbrev pub AreOrParts : Flats P → Type 0
  AreOrParts nil = true ≡ false
  AreOrParts (cons f nil) = IsOrPart f
  AreOrParts (cons f (cons g fs)) = IsOrPart f × AreOrParts (cons g fs)

  module _ (ρ : Truth P) where
    part-Denotes :
        (e : Expression P)
        → IsPart e
        → (t : Text) × (Conditions.map_filter_expression unquote decimal n true e ≡ some t)
          × Denotes unquote decimal n ρ relation t (holds ρ e)
    part-Denotes e (s, g, k) =
        let (t, h, d) = map_filter_expression-Denotes unquote decimal n ρ true e s g in
        (t, h, to_relation unquote decimal n ρ true e k d)

    joined_inner-after :
        (fs : Flats P) (p : Text) (a : Bool)
        → AreInner fs
        → Denotes unquote decimal n ρ conjunction p a
        → (t : Text) × (Conditions.joined_inner unquote decimal n fs ≡ some t)
          × Denotes unquote decimal n ρ conjunction
              (p ++ (codes " && " ++ t))
              (combine both a (flats_hold ρ both fs))
    unfolding Conditions.joined_inner Conditions.inner_clause
    joined_inner-after nil p a g d = ground (arith, g)
    joined_inner-after (cons (multi op gs) fs) p a g d = ground (arith, g)
    joined_inner-after (cons (one e) nil) p a g d =
        let (t, h, k) = part-Denotes e g in (t, h, rw (and_unit (holds ρ e)) (conjoined d k))
    joined_inner-after (cons (one e) (cons f fs)) p a (g, r) d =
        let (s, h, k) = part-Denotes e g in
        let (t, i, j) =
          joined_inner-after (cons f fs) (p ++ (codes " && " ++ s)) (a && holds ρ e) r
            (conjoined d k) in
        (
          s ++ (codes " && " ++ t),
          rw h (rw i refl),
          subst
              (λ x.
                Denotes unquote decimal n ρ conjunction x
                  (a && (holds ρ e && flats_hold ρ both (cons f fs))))
              (regroup p s t (codes " && "))
              (subst
                (Denotes unquote decimal n ρ conjunction
                  ((p ++ (codes " && " ++ s)) ++ (codes " && " ++ t)))
                (and_assoc a (holds ρ e) (flats_hold ρ both (cons f fs))) j),
        )

    joined_inner-Denotes :
        (fs : Flats P)
        → AreInner fs
        → (t : Text) × (Conditions.joined_inner unquote decimal n fs ≡ some t)
          × Denotes unquote decimal n ρ conjunction t (flats_hold ρ both fs)
    unfolding Conditions.joined_inner Conditions.inner_clause
    joined_inner-Denotes nil g = ground (arith, g)
    joined_inner-Denotes (cons (multi op gs) fs) g = ground (arith, g)
    joined_inner-Denotes (cons (one e) nil) g =
        let (t, h, k) = part-Denotes e g in (t, h, rw (and_unit (holds ρ e)) (of_relation k))
    joined_inner-Denotes (cons (one e) (cons f fs)) (g, r) =
        let (s, h, k) = part-Denotes e g in
        let (t, i, j) = joined_inner-after (cons f fs) s (holds ρ e) r (of_relation k) in
        (s ++ (codes " && " ++ t), rw h (rw i refl), j)

    or_part-Denotes :
        (f : Flat P)
        → IsOrPart f
        → (t : Text) × (Conditions.or_part unquote decimal n f ≡ some t)
          × Denotes unquote decimal n ρ relation t (flat_holds ρ f)
    unfolding Conditions.or_part
    or_part-Denotes (one e) g = part-Denotes e g
    or_part-Denotes (multi both fs) g =
        let (t, h, d) = joined_inner-Denotes fs g in
        (codes " (" ++ (t ++ codes ")"), rw h refl, after_space (grouped (of_conjunction d)))
    or_part-Denotes (multi either fs) g = ground (arith, g)

    joined_parts-after :
        (fs : Flats P) (p : Text) (a : Bool)
        → AreOrParts fs
        → Denotes unquote decimal n ρ disjunction p a
        → (t : Text) × (Conditions.joined_parts unquote decimal n fs ≡ some t)
          × Denotes unquote decimal n ρ disjunction
              (p ++ (codes " || " ++ t))
              (combine either a (flats_hold ρ either fs))
    unfolding Conditions.joined_parts
    joined_parts-after nil p a g d = ground (arith, g)
    joined_parts-after (cons f nil) p a g d =
        let (t, h, k) = or_part-Denotes f g in
        (t, h, rw (or_unit (flat_holds ρ f)) (disjoined d (of_relation k)))
    joined_parts-after (cons e (cons f fs)) p a (g, r) d =
        let (s, h, k) = or_part-Denotes e g in
        let (t, i, j) =
          joined_parts-after (cons f fs) (p ++ (codes " || " ++ s)) (a || flat_holds ρ e) r
            (disjoined d (of_relation k)) in
        (
          s ++ (codes " || " ++ t),
          rw h (rw i refl),
          subst
              (λ x.
                Denotes unquote decimal n ρ disjunction x
                  (a || (flat_holds ρ e || flats_hold ρ either (cons f fs))))
              (regroup p s t (codes " || "))
              (subst
                (Denotes unquote decimal n ρ disjunction
                  ((p ++ (codes " || " ++ s)) ++ (codes " || " ++ t)))
                (or_assoc a (flat_holds ρ e) (flats_hold ρ either (cons f fs))) j),
        )

    pub joined_parts-Denotes :
        (fs : Flats P)
        → AreOrParts fs
        → (t : Text) × (Conditions.joined_parts unquote decimal n fs ≡ some t)
          × Denotes unquote decimal n ρ disjunction t (flats_hold ρ either fs)
    unfolding Conditions.joined_parts
    joined_parts-Denotes nil g = ground (arith, g)
    joined_parts-Denotes (cons f nil) g =
        let (t, h, k) = or_part-Denotes f g in
        (t, h, rw (or_unit (flat_holds ρ f)) (of_conjunction (of_relation k)))
    joined_parts-Denotes (cons e (cons f fs)) (g, r) =
        let (s, h, k) = or_part-Denotes e g in
        let (t, i, j) =
          joined_parts-after (cons f fs) s (flat_holds ρ e) r (of_conjunction (of_relation k)) in
        (s ++ (codes " || " ++ t), rw h (rw i refl), j)
