-- ===== src/Types/Value/Parse.antt =====
-- `ParseValue`, with `ParseArray`, `ParseObject` and the constructors `New*`.
pub mod Fuel
use policy_conditions.Base.{
  ℕ, zero, suc, ◌-◌, Bool, ◌&&◌, ◌||◌, Option, none, some, List, [], ◌∷◌, ◌==◌, if◌then◌else◌,
}
use policy_conditions.Base.Lists.{length, take, slice}
use policy_conditions.Base.Text.{
  Text, codes, equal_fold, has_prefix, has_suffix, trim_space, split, cut_prefix,
}
use policy_conditions.Base.Dict.{Dict}
use policy_conditions.Types.Entity.{parse_entity}
use policy_conditions.Types.Platform.{Platform}
use policy_conditions.Types.Value.{
  Comparable, string, number, date, boolean, Value, variable, comparable, array, object, Fields,
  end, field,
}
use policy_conditions.Types.Value.Numeric.{is_numeric}

-- `s[1:len(s)-1]` of a text with two bytes at least
abbrev pub inner : Text → Text
inner s = slice s 1 (length s - 1)

-- `strings.TrimSuffix(s, "]")`
unfoldable trim_bracket : Text → Text
trim_bracket s = if has_suffix s (b']' ∷ []) then take (length s - 1) s else s

module _ (P : Platform) where
  -- `NewString`; it panics on a text of one quote, which is sliced from 1 to 0.
  unfoldable pub new_string : Text → Option (Comparable P)
  new_string s =
      if has_prefix s (b'"' ∷ [])
      then (if length s == 1 then none else some (string (inner s)))
      else some (string s)

  -- `NewNumeric`
  unfoldable pub new_numeric : Text → Option (Value P)
  new_numeric s = elim (P.parse_float s) [ none ↦ none | some n ↦ some (comparable (number n s)) ]

  -- `NewBoolean`
  unfoldable pub new_boolean : Text → Comparable P
  new_boolean s = boolean (equal_fold s (codes "true"))

  -- The last tests of `ParseValue`: a time, or an entity path.
  time_or_entity : Text → Value P
  time_or_entity s = elim (P.parse_time s) [
    | none ↦ variable (parse_entity s)
    | some d ↦ comparable (date d)
  ]

  -- The test for numbers and those behind it.
  scalar : Text → Option (Value P)
  unfolding new_numeric new_boolean time_or_entity
  scalar s =
      if is_numeric s
      then new_numeric s
      else if equal_fold s (codes "true") || equal_fold s (codes "false")
      then some (comparable (new_boolean s))
      else some (time_or_entity s)

  unfoldable add_item :
      Option (Value P) → Option (List (Comparable P)) → Option (List (Comparable P))
  add_item (some (comparable v)) (some vs) = some (v ∷ vs)
  add_item _ _ = none

  unfoldable add_field : Text → Option (Value P) → Option (Fields P) → Option (Fields P)
  add_field k (some v) (some fs) = some (field k v fs)
  add_field k _ _ = none

  -- The loop of `ParseArray`; none for an item that is no comparable value.
  unfoldable items : (Text → Option (Value P)) → List Text → Option (List (Comparable P))
  unfolding add_item
  items parse [] = some []
  items parse (t ∷ ts) = add_item (parse t) (items parse ts)

  -- The loop of `Object.UnmarshalJSON`
  unfoldable fields : (Text → Option (Value P)) → Dict Text → Option (Fields P)
  unfolding add_field
  fields parse [] = some end
  fields parse ((k, t) ∷ ts) = add_field k (parse t) (fields parse ts)

  -- `ParseArray`
  unfoldable parse_array : (Text → Option (Value P)) → Text → Option (Value P)
  unfolding items trim_bracket
  parse_array parse s =
      let body = trim_bracket (cut_prefix (trim_space s) (b'[' ∷ [])) in
      elim (items parse (split b',' body)) [ none ↦ none | some vs ↦ some (array vs) ]

  -- `ParseObject`
  unfoldable parse_object : (Text → Option (Value P)) → Text → Option (Value P)
  unfolding fields
  parse_object parse s = elim (P.json_fields s) [
    | none ↦ none
    | some raw ↦ elim (fields parse raw) [ none ↦ none | some fs ↦ some (object fs) ]
  ]

  unfoldable wrapped : Text → Text → Text → Bool
  wrapped s left right = has_prefix s left && has_suffix s right

  -- The tests of `ParseValue` on the trimmed text, in their order.
  unfoldable classify : (Text → Option (Value P)) → Text → Option (Value P)
  unfolding wrapped new_string parse_array parse_object scalar
  classify parse s =
      if wrapped s (b'"' ∷ []) (b'"' ∷ [])
      then elim (new_string s) [ none ↦ none | some v ↦ some (comparable v) ]
      else if wrapped s (b'[' ∷ []) (b']' ∷ [])
      then parse_array parse s
      else if wrapped s (b'{' ∷ []) (b'}' ∷ [])
      then parse_object parse s
      else scalar s

  -- `ParseValue` on fuel, a unit for each level of arrays and objects; none is an error, or the panic of
  -- `NewString` on a value that is one quote.
  unfoldable pub parse_value_fuel : ℕ → Text → Option (Value P)
  unfolding classify
  parse_value_fuel zero s = none
  parse_value_fuel (suc n) [] = some (comparable (string []))
  parse_value_fuel (suc n) (c ∷ cs) = classify (parse_value_fuel n) (trim_space (c ∷ cs))

  -- Each level takes a pair of brackets off its text, so the length is enough fuel.
  unfoldable pub parse_value : Text → Option (Value P)
  unfolding parse_value_fuel
  parse_value s = parse_value_fuel (suc (length s)) s
