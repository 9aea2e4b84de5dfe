-- ===== src/Cedar/Conditions/Flatten.antt =====
-- models/conditionLangs/cedarConditions/map_hexa.go: a flattened expression means what the expression does.
use policy_conditions.Base.{Bool, true, false, not, ◌≡◌, refl, ap, ap₂, ◌∙◌, arith}
use policy_conditions.Types.Platform.{Platform}
use policy_conditions.Conditions.Ast.{
  LogicalOperator, both, either, Expression, logical, negation, precedence, attribute, value_path,
}
use policy_conditions.Conditions.Meaning.{Truth, holds, combine, combine_assoc}
use policy_conditions.Cedar.Conditions

-- the value of no parts at all
abbrev pub unit : LogicalOperator → Bool
unit both = true
unit either = false

module _ {P : Platform} (ρ : Truth P) where
  abbrev mutual
    -- the value of a flattened expression, where `ρ` says which comparisons hold
    pub flat_holds : Conditions.Flat P → Bool
    flat_holds (Conditions.one e) = holds ρ e
    flat_holds (Conditions.multi op fs) = flats_hold op fs

    pub flats_hold : LogicalOperator → Conditions.Flats P → Bool
    flats_hold op Conditions.nil = unit op
    flats_hold op (Conditions.cons f fs) = combine op (flat_holds f) (flats_hold op fs)

  combine-unit : (op : LogicalOperator) (a : Bool) → combine op a (unit op) ≡ a
  combine-unit both a = ground arith
  combine-unit either a = ground arith

  combine-unit_left : (op : LogicalOperator) (a : Bool) → combine op (unit op) a ≡ a
  combine-unit_left both a = refl
  combine-unit_left either a = refl

  flats_hold-join_flats :
      (op : LogicalOperator) (fs gs : Conditions.Flats P)
      → flats_hold op (Conditions.join_flats fs gs)
        ≡ combine op (flats_hold op fs) (flats_hold op gs)
  flats_hold-join_flats op Conditions.nil gs = rw (combine-unit_left op (flats_hold op gs)) refl
  flats_hold-join_flats op (Conditions.cons f fs) gs =
      ap (combine op (flat_holds f)) (flats_hold-join_flats op fs gs)
      ∙ combine_assoc op (flat_holds f) (flats_hold op fs) (flats_hold op gs)

  abbrev sides : LogicalOperator → Expression P → Expression P → Conditions.Flats P
  sides op l r = Conditions.join_flats (Conditions.flat_side op l) (Conditions.flat_side op r)

  sides-hold :
      (op : LogicalOperator) (l r : Expression P)
      → flats_hold op (Conditions.flat_side op l) ≡ holds ρ l
      → flats_hold op (Conditions.flat_side op r) ≡ holds ρ r
      → flats_hold op (sides op l r) ≡ combine op (holds ρ l) (holds ρ r)
  sides-hold op l r h k =
      flats_hold-join_flats op (Conditions.flat_side op l) (Conditions.flat_side op r)
      ∙ ap₂ (combine op) h k

  flat_side-holds :
      (op : LogicalOperator) (e : Expression P)
      → flats_hold op (Conditions.flat_side op e) ≡ holds ρ e
  unfolding Conditions.flat_side
  flat_side-holds both (logical both l r) =
      sides-hold both l r (flat_side-holds both l) (flat_side-holds both r)
  flat_side-holds both (logical either l r) =
      combine-unit both (flats_hold either (sides either l r))
      ∙ sides-hold either l r (flat_side-holds either l) (flat_side-holds either r)
  flat_side-holds either (logical both l r) =
      combine-unit either (flats_hold both (sides both l r))
      ∙ sides-hold both l r (flat_side-holds both l) (flat_side-holds both r)
  flat_side-holds either (logical either l r) =
      sides-hold either l r (flat_side-holds either l) (flat_side-holds either r)
  flat_side-holds op (negation e) = combine-unit op (not (holds ρ e))
  flat_side-holds op (precedence e) = combine-unit op (holds ρ e)
  flat_side-holds op (attribute v c w) = combine-unit op (ρ (attribute v c w))
  flat_side-holds op (value_path a sub f c w) = combine-unit op (ρ (value_path a sub f c w))

  -- The flattened expression has the value of the expression, whichever comparisons hold: chains of the
  -- same operator are one list, in order.
  pub check_and_flatten-holds :
      (e : Expression P) → flat_holds (Conditions.check_and_flatten e) ≡ holds ρ e
  unfolding Conditions.check_and_flatten
  check_and_flatten-holds (logical op l r) =
      sides-hold op l r (flat_side-holds op l) (flat_side-holds op r)
  check_and_flatten-holds (negation e) = refl
  check_and_flatten-holds (precedence e) = refl
  check_and_flatten-holds (attribute v c w) = refl
  check_and_flatten-holds (value_path a sub f c w) = refl
