-- ===== src/Tests/EntityRuns.antt =====
-- The properties of entity paths at concrete paths.
use policy_conditions.Base.{◌≡◌, refl, none, some, [], ◌∷◌}
use policy_conditions.Base.Text.{codes, equal_fold}
use policy_conditions.Types.Entity.{
  Entity, entity, equals, is_in, absent, members, of_list, parse_fuel, parse_entity, to_string,
}
use policy_conditions.Types.Entity.Shape.{IsCanonical, type_within, instance_of}
use policy_conditions.Types.Entity.RoundTrip.{parse_entity-to_string}
use policy_conditions.Types.Entity.Fuel.{parse_fuel_enough}

abbrev group_a : Entity
group_a = entity (codes "Group" ∷ []) equals (some (codes "a")) absent

-- `Photo:User[Group:a]`
abbrev users_in_group : Entity
users_in_group =
    entity (codes "Photo" ∷ codes "User" ∷ []) is_in none (members (of_list (group_a ∷ [])))

users_in_group-IsCanonical : IsCanonical users_in_group
unfolding equal_fold
users_in_group-IsCanonical =
    type_within group_a [] (refl, (refl, tt)) tt
      (instance_of (codes "Group" ∷ []) (codes "a") (refl, tt) (refl, refl, refl), tt)

parse_entity-to_string_example : parse_entity (to_string users_in_group) ≡ users_in_group
parse_entity-to_string_example = parse_entity-to_string users_in_group-IsCanonical

parse_fuel_enough_example :
    parse_fuel 5 (codes "User[Group:a,b]") ≡ parse_entity (codes "User[Group:a,b]")
parse_fuel_enough_example = parse_fuel_enough 3 (codes "User[Group:a,b]")
