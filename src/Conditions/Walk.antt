-- ===== src/Conditions/Walk.antt =====
-- The walks over a syntax tree of pkg/hexapolicy/conditions/conditions.go: the comparison of two
-- conditions, the uses of entities, and the name mapper.
pub mod Entities
pub mod Names
use policy_conditions.Base.{
  Bool, true, false, ◌||◌, Option, none, some, List, [], ◌∷◌, ◌++◌, if◌then◌else◌,
}
use policy_conditions.Base.Lists.{is_empty}
use policy_conditions.Base.Text.{Text, to_lower}
use policy_conditions.Base.Dict
use policy_conditions.Base.Dict.{Dict}
use policy_conditions.Types.Entity.{Entity}
use policy_conditions.Types.Platform.{Platform}
use policy_conditions.Types.Value.{Value, variable}
use policy_conditions.Conditions.Ast.{
  Expression, logical, negation, precedence, attribute, value_path, dif,
}

unfoldable pub sent : Text → List Text
sent t = if is_empty t then [] else t ∷ []

-- `compareWalk`: what goes over the channel, in order
unfoldable pub compare_walk : {P : Platform} → Expression P → List Text
unfolding sent
compare_walk (logical op l r) = sent (dif (logical op l r)) ++ (compare_walk l ++ compare_walk r)
compare_walk (negation e) = sent (dif (negation e)) ++ compare_walk e
compare_walk (precedence e) = sent (dif (precedence e)) ++ compare_walk e
compare_walk e = sent (dif e)

unfoldable is_variable : {P : Platform} → Value P → Bool
is_variable (variable e) = true
is_variable v = false

unfoldable is_some_variable : {P : Platform} → Option (Value P) → Bool
unfolding is_variable
is_some_variable none = false
is_some_variable (some v) = is_variable v

-- `FindEntityUses`
unfoldable pub find_entity_uses : {P : Platform} → Expression P → List (Expression P)
unfolding is_some_variable
find_entity_uses (logical op l r) = find_entity_uses l ++ find_entity_uses r
find_entity_uses (negation e) = find_entity_uses e
find_entity_uses (precedence e) = find_entity_uses e
find_entity_uses (attribute v op w) =
    if is_variable v || is_some_variable w then attribute v op w ∷ [] else []
find_entity_uses (value_path a sub f op w) = value_path a sub f op w ∷ []

unfoldable entity_of : {P : Platform} → Value P → List Entity
entity_of (variable e) = e ∷ []
entity_of v = []

unfoldable entity_of_some : {P : Platform} → Option (Value P) → List Entity
unfolding entity_of
entity_of_some none = []
entity_of_some (some v) = entity_of v

unfoldable pub use_entities : {P : Platform} → Expression P → List Entity
unfolding entity_of_some
use_entities (attribute v op w) = entity_of v ++ entity_of_some w
use_entities (value_path a sub f op w) = a ∷ entity_of_some w
use_entities e = []

unfoldable uses_entities : {P : Platform} → List (Expression P) → List Entity
unfolding use_entities
uses_entities [] = []
uses_entities (e ∷ es) = use_entities e ++ uses_entities es

-- `FindEntities`
unfoldable pub find_entities : {P : Platform} → Expression P → List Entity
unfolding uses_entities
find_entities e = uses_entities (find_entity_uses e)

-- `AttributeMap`
pub record AttributeMap : Type 0 where
  pub forward : Dict Text
  pub reverse : Dict Text

unfoldable add_names : AttributeMap → Dict Text → AttributeMap
add_names n [] = n
add_names n ((k, v) ∷ m) =
    add_names
      (record n {
        forward = Dict.put (to_lower k) v n.forward;
        reverse = Dict.put (to_lower v) k n.reverse;
      })
      m

-- `NewNameMapper`, over the entries in the order in which the range gives them
unfoldable pub new_name_mapper : Dict Text → AttributeMap
unfolding add_names
new_name_mapper = add_names (record { forward = []; reverse = [] })

abbrev pub or_else : Option Text → Text → Text
or_else none t = t
or_else (some s) t = s

-- `GetProviderAttributeName`
unfoldable pub get_provider_attribute_name : AttributeMap → Text → Text
get_provider_attribute_name n name = or_else (Dict.get (to_lower name) n.forward) name

-- `GetHexaFilterAttributePath`. It looks the name up as it is, while the keys are in lower case.
unfoldable pub get_hexa_filter_attribute_path : AttributeMap → Text → Text
get_hexa_filter_attribute_path n name = or_else (Dict.get name n.reverse) name
