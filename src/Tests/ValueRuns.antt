-- ===== src/Tests/ValueRuns.antt =====
-- The properties of values at concrete values.
use mathlib.Core.Path.{subst}
use mathlib.Core.Option.{some-injective}
use policy_conditions.Base.{
  ◌≡◌, sym, Option, none, some, [], ◌∷◌, arith, if◌then◌else◌, Bool-cases, inl, inr,
}
use policy_conditions.Base.Lists.{length}
use policy_conditions.Base.Text.{Text, codes, text_eq, text_eq_iff}
use policy_conditions.Base.Dict.{Dict}
use policy_conditions.Types.Platform.{Platform}
use policy_conditions.Types.Value.Parse.{parse_value_fuel, parse_value}
use policy_conditions.Types.Value.Parse.Fuel.{
  ShorterFields, HasPartialFields, parse_value_fuel_enough,
}
use policy_conditions.Tests.Sample.{sample}

abbrev object_text : Text
object_text = codes "{\"a\":1}"

-- a decoder that knows one object
abbrev one_object : Text → Option (Dict Text)
one_object s = if text_eq s object_text then some ((codes "a", codes "1") ∷ []) else none

abbrev with_object : Platform
with_object = record sample { json_fields = one_object }

with_object-HasPartialFields : HasPartialFields with_object
with_object-HasPartialFields s m e = elim (Bool-cases (text_eq s object_text)) [
  | inl h ↦
      let same : object_text ≡ s = sym ((text_eq_iff s object_text).0 h) in
      let fields : ((codes "a", codes "1") ∷ []) ≡ m = some-injective _ _ (ground arith) in
      subst (λ t. ShorterFields (length t) m) same
        (subst (ShorterFields (length object_text)) fields (ground arith, tt))
  | inr h ↦ ground arith
]

parse_value_fuel_enough_example :
    parse_value_fuel with_object 20 (codes "[1, {\"a\":1}]")
    ≡ parse_value with_object (codes "[1, {\"a\":1}]")
parse_value_fuel_enough_example =
    parse_value_fuel_enough with_object with_object-HasPartialFields 20 (codes "[1, {\"a\":1}]")
      (omega arith)
