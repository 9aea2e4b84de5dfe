-- ===== src/Conditions/Meaning.antt =====
-- What a condition means, given which of its comparisons hold.
use policy_conditions.Base.{Bool, not, ◌&&◌, ◌||◌, ◌≡◌, arith}
use policy_conditions.Types.Platform.{Platform}
use policy_conditions.Conditions.Ast.{
  LogicalOperator, both, either, Expression, logical, negation, precedence, attribute, value_path,
}

-- Which comparisons hold
abbrev pub Truth : Platform → Type 0
Truth P = Expression P → Bool

abbrev pub combine : LogicalOperator → Bool → Bool → Bool
combine both a b = a && b
combine either a b = a || b

abbrev pub holds : {P : Platform} → Truth P → Expression P → Bool
holds ρ (logical op l r) = combine op (holds ρ l) (holds ρ r)
holds ρ (negation e) = not (holds ρ e)
holds ρ (precedence e) = holds ρ e
holds ρ (attribute v op w) = ρ (attribute v op w)
holds ρ (value_path a sub f op w) = ρ (value_path a sub f op w)

pub combine_assoc :
    (op : LogicalOperator) (a b c : Bool)
    → combine op a (combine op b c) ≡ combine op (combine op a b) c
combine_assoc both a b c = ground arith
combine_assoc either a b c = ground arith
