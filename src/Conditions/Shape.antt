-- ===== src/Conditions/Shape.antt =====
-- The shape of the trees that `ParseFilter` makes: the right side of `and` and `or` is no such
-- expression itself, unless it is in brackets.
use policy_conditions.Base.{Bool, true, false, ◌≡◌}
use policy_conditions.Types.Platform.{Platform}
use policy_conditions.Conditions.Ast.{
  Expression, logical, negation, precedence, attribute, value_path,
}

abbrev pub is_logical : {P : Platform} → Expression P → Bool
is_logical (logical op l r) = true
is_logical e = false

abbrev pub LeansLeft : {P : Platform} → Expression P → Type 0
LeansLeft (logical op l r) = LeansLeft l × LeansLeft r × (is_logical r ≡ false)
LeansLeft (negation e) = LeansLeft e
LeansLeft (precedence e) = LeansLeft e
LeansLeft (attribute v op w) = Unit
LeansLeft (value_path a sub f op w) = Unit
