-- ===== src/Pim/Operands/Returns.antt =====
-- The checks of a condition return: no nil pointer is followed, and each search for an attribute ends.
use policy_conditions.Base.{
  ℕ, ◌+◌, ◌<◌, ◌≡◌, refl, Bool, true, false, Option, none, some, List, [], ◌∷◌, if◌then◌else◌,
}
use policy_conditions.Base.Lists.{length}
use policy_conditions.Base.Text.{Text, codes, to_lower}
use policy_conditions.Base.Dict
use policy_conditions.Base.Dict.{Dict}
use policy_conditions.Base.Except.{raise, done}
use policy_conditions.Types.Platform.{Platform}
use policy_conditions.Types.Entity
use policy_conditions.Types.Entity.{Entity, parse_entity, get_type, get_namespace, id, is_path}
use policy_conditions.Types.Value.{Value, variable, comparable, array, object}
use policy_conditions.Conditions.Ast.{
  Expression, logical, negation, precedence, attribute, value_path,
}
use policy_conditions.Conditions.Walk.{find_entity_uses}
use policy_conditions.Parser.Result.{ParseError, bad_value, Result, ok, err}
use policy_conditions.Parser.Loop.{parse_filter}
use policy_conditions.Policy.Info.{ConditionInfo}
use policy_conditions.Pim.Schema.{EntityType, SchemaType, find_attr_type}
use policy_conditions.Pim.Schema.Ends.{Ranked, units, find_attr_type-ends}
use policy_conditions.Pim.Entities
use policy_conditions.Pim.Entities.{Problem, Problems, append}
use policy_conditions.Pim.Operands
use policy_conditions.Pim.Operands.Compared.{
  Returns, append-Returns, IsCompared, both_sides-Returns, found_type-Returns,
  comparable_operand-Returns,
}

module _ (namespaces : Dict SchemaType) (def_namespace : Text) (rank : Text → Text → ℕ)
    (bound n : ℕ) where
  -- In every schema the common types have ranks.
  abbrev pub AreRanked : Type 0
  AreRanked =
      (ns : Text) (s : SchemaType) → Dict.get ns namespaces ≡ some s → Ranked s (rank ns) bound

  -- An entity of a condition has an identifier, for which there is enough fuel.
  abbrev pub HasId : {P : Platform} → Value P → Type 0
  HasId (variable e) = (i : Text) × (id e ≡ some i) × (units bound (length i) + bound < n)
  HasId v = Unit

  abbrev pub HasIds : {P : Platform} → Option (Value P) → Type 0
  HasIds none = Unit
  HasIds (some v) = HasId v

  abbrev pub IsWhole : {P : Platform} → Expression P → Type 0
  IsWhole (attribute v op w) = HasId v × HasIds w × IsCompared op w
  IsWhole e = Unit

  abbrev pub AreWhole : {P : Platform} → List (Expression P) → Type 0
  AreWhole [] = Unit
  AreWhole (e ∷ es) = IsWhole e × AreWhole es

  operand_in-Returns :
      (ns : Text) (s : SchemaType) (e : Entity) (i : Text)
      → AreRanked
      → Dict.get ns namespaces ≡ some s
      → id e ≡ some i
      → units bound (length i) + bound < n
      → Returns (Operands.operand_in namespaces def_namespace n s e (id e))
  unfolding Operands.operand_in Operands.found_type
  operand_in-Returns ns s e i h g k m = rw (k, Operands.operand_in) cases
    where
      attr : Returns (find_attr_type s n e)
      attr = find_attr_type-ends s (rank ns) bound n e i (h ns s g) k m

      typed :
          (b : Bool)
          → Returns (
              if b
              then Operands.found_type e (find_attr_type s n e)
              else some (done (codes "Record")))
      typed true = found_type-Returns e (find_attr_type s n e) attr
      typed false = (_, refl)

      known :
          (o : Option EntityType)
          → Returns (elim o [
            | none ↦ some (raise (Entities.unknown_operand_type (Entity.to_string e)))
            | some t ↦
                if is_path i
                then Operands.found_type e (find_attr_type s n e)
                else some (done (codes "Record"))
          ])
      known none = (_, refl)
      known (some t) = typed (is_path i)

      cases : Returns (Operands.operand_in namespaces def_namespace n s e (some i))
      cases =
          elim (Entities.in_list (to_lower i) Entities.special_entities)
            as (λ b. Returns (
              if b
              then some (done (codes "Record"))
              else elim (Dict.get (get_type e) s.entity_types) [
                | none ↦ some (raise (Entities.unknown_operand_type (Entity.to_string e)))
                | some t ↦
                    if is_path i
                    then Operands.found_type e (find_attr_type s n e)
                    else some (done (codes "Record"))
              ])) [ true ↦ (_, refl) | false ↦ known (Dict.get (get_type e) s.entity_types) ]

  check_operand-Returns :
      {P : Platform} (v : Value P)
      → AreRanked
      → HasId v
      → Returns (Operands.check_operand namespaces def_namespace n v)
  unfolding Operands.check_operand Operands.comparable_operand
  check_operand-Returns (comparable v) h g = comparable_operand-Returns v
  check_operand-Returns (array vs) h g = (_, refl)
  check_operand-Returns (object fs) h g = (_, refl)
  check_operand-Returns (variable e) h (i, k, m) =
      found (Dict.get (get_namespace def_namespace e) namespaces)
        (λ s j. operand_in-Returns (get_namespace def_namespace e) s e i h j k m)
    where
      found :
          (o : Option SchemaType)
          → ((s : SchemaType)
              → o ≡ some s
              → Returns (Operands.operand_in namespaces def_namespace n s e (id e)))
          → Returns (elim o [
            | none ↦ some (raise (Entities.operand_namespace (get_namespace def_namespace e)))
            | some s ↦ Operands.operand_in namespaces def_namespace n s e (id e)
          ])
      found none f = (_, refl)
      found (some s) f = f s refl

  compare_operand-Returns :
      {P : Platform} (w : Option (Value P))
      → AreRanked
      → HasIds w
      → Returns (Operands.compare_operand namespaces def_namespace n w)
  unfolding Operands.compare_operand
  compare_operand-Returns none h g = (_, refl)
  compare_operand-Returns (some w) h g = check_operand-Returns w h g

  check_expression-Returns :
      {P : Platform} (e : Expression P)
      → AreRanked
      → IsWhole e
      → Returns (Operands.check_expression namespaces def_namespace n e)
  unfolding Operands.check_expression
  check_expression-Returns (logical op l r) h g = (_, refl)
  check_expression-Returns (negation e) h g = (_, refl)
  check_expression-Returns (precedence e) h g = (_, refl)
  check_expression-Returns (value_path a sub f op w) h g = (_, refl)
  check_expression-Returns (attribute v op w) h (a, b, c) =
      let (l, i) = check_operand-Returns v h a in
      let (r, j) = compare_operand-Returns w h b in
      let (es, k) = both_sides-Returns op w l r c in (es, rw i (rw j k))

  check_expressions-Returns :
      {P : Platform} (es : List (Expression P))
      → AreRanked
      → AreWhole es
      → Returns (Operands.check_expressions namespaces def_namespace n es)
  unfolding Operands.check_expressions
  check_expressions-Returns [] h g = (_, refl)
  check_expressions-Returns (e ∷ es) h (a, b) =
      append-Returns (Operands.check_expression namespaces def_namespace n e)
        (Operands.check_expressions namespaces def_namespace n es) (check_expression-Returns e h a)
        (check_expressions-Returns es h b)

  -- The parser gives this error for a value that it cannot read, and for one on which it panics.
  abbrev pub IsNotOfValue : ParseError → Type 0
  IsNotOfValue bad_value = ⊥
  IsNotOfValue e = Unit

  abbrev pub IsWholeTree : {P : Platform} → Result (Expression P) → Type 0
  IsWholeTree (err e) = IsNotOfValue e
  IsWholeTree (ok e) = AreWhole (find_entity_uses e)

  module _ (P : Platform) where
    -- Each value of the rule can be read, and the uses of entities in its tree are whole.
    abbrev pub HasWholeRule : Option ConditionInfo → Type 0
    HasWholeRule none = Unit
    HasWholeRule (some c) = IsWholeTree (parse_filter P c.rule)

    pub check_conditions-Returns :
        (c : Option ConditionInfo)
        → AreRanked
        → HasWholeRule c
        → Returns (Operands.check_conditions namespaces def_namespace P n c)
    unfolding Operands.check_conditions
    check_conditions-Returns none h g = (_, refl)
    check_conditions-Returns (some c) h g = parsed (parse_filter P c.rule) g
      where
        parsed :
            (r : Result (Expression P))
            → IsWholeTree r
            → Returns (elim r [
              | err e ↦ some (Entities.bad_rule e ∷ [])
              | ok e ↦ Operands.check_expressions namespaces def_namespace n (find_entity_uses e)
            ])
        parsed (err e) k = (_, refl)
        parsed (ok e) k = check_expressions-Returns (find_entity_uses e) h k
