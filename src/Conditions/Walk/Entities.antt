-- ===== src/Conditions/Walk/Entities.antt =====
-- Which entities `FindEntities` finds.
use policy_conditions.Base.{
  false, ◌||◌, ◌≡◌, refl, ap, ap₂, sym, ◌∙◌, Option, none, some, List, [], ◌∷◌, ◌++◌, append_assoc,
  append-nil, arith, Bool-cases, inl, inr,
}
use policy_conditions.Types.Entity.{Entity}
use policy_conditions.Types.Platform.{Platform}
use policy_conditions.Types.Value.{Value, variable, comparable, array, object}
use policy_conditions.Conditions.Ast.{
  Expression, logical, negation, precedence, attribute, value_path,
}
use policy_conditions.Conditions.Walk.{
  find_entity_uses, find_entities, uses_entities, use_entities, entity_of, entity_of_some,
  is_variable, is_some_variable,
}

-- The comparisons of a condition, from left to right. The filter of a value path is not looked into.
abbrev pub leaves : {P : Platform} → Expression P → List (Expression P)
leaves (logical op l r) = leaves l ++ leaves r
leaves (negation e) = leaves e
leaves (precedence e) = leaves e
leaves (attribute v op w) = attribute v op w ∷ []
leaves (value_path a sub f op w) = value_path a sub f op w ∷ []

-- A side that is a variable names one entity.
abbrev pub side : {P : Platform} → Value P → List Entity
side (variable e) = e ∷ []
side (comparable c) = []
side (array vs) = []
side (object fs) = []

abbrev pub other_side : {P : Platform} → Option (Value P) → List Entity
other_side none = []
other_side (some v) = side v

-- A comparison names the variables of its sides, and a value path its attribute and then the variable of
-- its right side.
abbrev pub names : {P : Platform} → Expression P → List Entity
names (logical op l r) = []
names (negation e) = []
names (precedence e) = []
names (attribute v op w) = side v ++ other_side w
names (value_path a sub f op w) = a ∷ other_side w

-- The entities that a list of comparisons names, from left to right.
abbrev pub named : {P : Platform} → List (Expression P) → List Entity
named [] = []
named (e ∷ es) = names e ++ named es

module _ {P : Platform} where
  named-append : (es fs : List (Expression P)) → named (es ++ fs) ≡ named es ++ named fs
  named-append [] fs = refl
  named-append (e ∷ es) fs =
      ap (λ t. names e ++ t) (named-append es fs)
      ∙ sym (append_assoc (names e) (named es) (named fs))

  entity_of-side : (v : Value P) → entity_of v ≡ side v
  unfolding entity_of
  entity_of-side (variable e) = refl
  entity_of-side (comparable c) = refl
  entity_of-side (array vs) = refl
  entity_of-side (object fs) = refl

  entity_of_some-other_side : (w : Option (Value P)) → entity_of_some w ≡ other_side w
  unfolding entity_of_some
  entity_of_some-other_side none = refl
  entity_of_some-other_side (some v) = entity_of-side v

  use_entities-names : (e : Expression P) → use_entities e ≡ names e
  unfolding use_entities
  use_entities-names (logical op l r) = refl
  use_entities-names (negation e) = refl
  use_entities-names (precedence e) = refl
  use_entities-names (attribute v op w) =
      ap₂ (λ s t. s ++ t) (entity_of-side v) (entity_of_some-other_side w)
  use_entities-names (value_path a sub f op w) = ap (λ t. a ∷ t) (entity_of_some-other_side w)

  uses_entities-named : (es : List (Expression P)) → uses_entities es ≡ named es
  unfolding uses_entities
  uses_entities-named [] = refl
  uses_entities-named (e ∷ es) = ap₂ (λ s t. s ++ t) (use_entities-names e) (uses_entities-named es)

  side-none : (v : Value P) → is_variable v ≡ false → side v ≡ []
  unfolding is_variable
  side-none (variable e) h = ground arith
  side-none (comparable c) h = refl
  side-none (array vs) h = refl
  side-none (object fs) h = refl

  other_side-none : (w : Option (Value P)) → is_some_variable w ≡ false → other_side w ≡ []
  unfolding is_some_variable
  other_side-none none h = refl
  other_side-none (some v) h = side-none v h

  uses-leaves : (e : Expression P) → named (find_entity_uses e) ≡ named (leaves e)
  unfolding find_entity_uses
  uses-leaves (logical op l r) =
      named-append (find_entity_uses l) (find_entity_uses r)
      ∙ ap₂ (λ s t. s ++ t) (uses-leaves l) (uses-leaves r)
      ∙ sym (named-append (leaves l) (leaves r))
  uses-leaves (negation e) = uses-leaves e
  uses-leaves (precedence e) = uses-leaves e
  uses-leaves (attribute v op w) = elim (Bool-cases (is_variable v || is_some_variable w)) [
    | inl e ↦ rw e refl
    | inr e ↦ rw e (
        sym (
          append-nil (side v ++ other_side w)
          ∙ ap₂ (λ s t. s ++ t) (side-none v (ground arith)) (other_side-none w (ground arith))))
  ]
  uses-leaves (value_path a sub f op w) = refl

  -- `FindEntities` finds exactly the entities that the comparisons of a condition name, each as often
  -- as it is named and from left to right, whatever brackets and operators
  -- stand around them. The filters of value paths are not looked into.
  pub find_entities-leaves : (e : Expression P) → find_entities e ≡ named (leaves e)
  unfolding find_entities
  find_entities-leaves e = uses_entities-named (find_entity_uses e) ∙ uses-leaves e
