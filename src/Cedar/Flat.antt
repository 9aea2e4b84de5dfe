-- ===== src/Cedar/Flat.antt =====
-- models/conditionLangs/cedarConditions/map_hexa.go: expressions in which chains of an operator are lists.
use policy_conditions.Base.{if◌then◌else◌}
use policy_conditions.Types.Platform.{Platform}
use policy_conditions.Conditions.Ast.{LogicalOperator, Expression, logical}
use policy_conditions.Conditions.Serialize.{same_operator}

mutual
  -- `Expression`: one of the parser, or a `MultiLogicalExpression`
  pub data Flat (P : Platform) : Type 0 where
    one : Expression P → Flat P
    multi : LogicalOperator → Flats P → Flat P

  -- the slice `Expressions`
  pub data Flats (P : Platform) : Type 0 where
    nil : Flats P
    cons : Flat P → Flats P → Flats P

abbrev pub join_flats : {P : Platform} → Flats P → Flats P → Flats P
join_flats nil gs = gs
join_flats (cons f fs) gs = cons f (join_flats fs gs)

-- what `flatten` appends for a side of a logical expression with the operator
unfoldable pub flat_side : {P : Platform} → LogicalOperator → Expression P → Flats P
flat_side op (logical o l r) =
    let fs = join_flats (flat_side o l) (flat_side o r) in
    if same_operator o op then fs else cons (multi o fs) nil
flat_side op e = cons (one e) nil

-- `checkAndFlatten`, with `makeFlattenedLogical` and `flatten`
unfoldable pub check_and_flatten : {P : Platform} → Expression P → Flat P
unfolding flat_side
check_and_flatten (logical op l r) = multi op (join_flats (flat_side op l) (flat_side op r))
check_and_flatten e = one e
