-- ===== src/Pim/Validate/Returns.antt =====
-- ValidatePolicy returns: no nil pointer is followed, and each search for an attribute ends.
use policy_conditions.Base.{
  ℕ, ◌≡◌, refl, ◌||◌, ◌⊎◌, inl, inr, Bool, true, false, Option, none, some, List, [], ◌∷◌, arith,
  if◌then◌else◌,
}
use policy_conditions.Base.Lists.{is_empty}
use policy_conditions.Base.Text.{Text, equal_fold}
use policy_conditions.Base.Dict
use policy_conditions.Base.Dict.{Dict}
use policy_conditions.Types.Platform.{Platform}
use policy_conditions.Types.Entity.{Entity, parse_entity, get_type, get_namespace, id}
use policy_conditions.Policy.Info.{PolicyInfo, elements}
use policy_conditions.Pim.Schema.{EntityType, SchemaType}
use policy_conditions.Pim.Entities
use policy_conditions.Pim.Entities.{Problem, Problems, append}
use policy_conditions.Pim.Validate
use policy_conditions.Pim.Operands.Compared.{Returns, append-Returns}
use policy_conditions.Pim.Operands.Returns.{AreRanked, HasWholeRule, check_conditions-Returns}

module _ (namespaces : Dict SchemaType) (def_namespace : Text) where
  -- The object is blank or the default namespace, or it has a type or an identifier.
  abbrev pub IsNamed : Text → Type 0
  IsNamed o =
      ((is_empty o || equal_fold o def_namespace) ≡ true)
      ⊎ ((is_empty (get_type (parse_entity o)) ≡ false)
          ⊎ ((i : Text) × (id (parse_entity o) ≡ some i)))

  object_problems-Returns :
      (e : Entity)
      → (is_empty (get_type e) ≡ false) ⊎ ((i : Text) × (id e ≡ some i))
      → Returns (Entities.object_problems namespaces def_namespace e)
  unfolding Entities.object_problems Entities.missing_type
  object_problems-Returns e h = schema (Dict.get (get_namespace def_namespace e) namespaces)
    where
      ns : Text
      ns = get_namespace def_namespace e

      known :
          (o : Option EntityType)
          → Returns (elim o [
            | none ↦ some (Entities.object_type ns (get_type e) ∷ [])
            | some t ↦ some []
          ])
      known none = (_, refl)
      known (some t) = (_, refl)

      missing :
          (i : Option Text) → ((j : Text) × (i ≡ some j)) → Returns (Entities.missing_type ns i)
      missing none (j, k) = ground (arith, k)
      missing (some i) k = (_, refl)

      typed :
          (s : SchemaType) (b : Bool)
          → (b ≡ false) ⊎ ((i : Text) × (id e ≡ some i))
          → Returns (
              if b
              then Entities.missing_type ns (id e)
              else elim (Dict.get (get_type e) s.entity_types) [
                | none ↦ some (Entities.object_type ns (get_type e) ∷ [])
                | some t ↦ some []
              ])
      typed s false k = known (Dict.get (get_type e) s.entity_types)
      typed s true (inl k) = ground (arith, k)
      typed s true (inr k) = missing (id e) k

      schema :
          (o : Option SchemaType)
          → Returns (elim o [
            | none ↦ some (Entities.object_namespace ns ∷ [])
            | some s ↦
                if is_empty (get_type e)
                then Entities.missing_type ns (id e)
                else elim (Dict.get (get_type e) s.entity_types) [
                  | none ↦ some (Entities.object_type ns (get_type e) ∷ [])
                  | some t ↦ some []
                ]
          ])
      schema none = (_, refl)
      schema (some s) = typed s (is_empty (get_type e)) h

  check_object-Returns :
      (o : Text) → IsNamed o → Returns (Entities.check_object namespaces def_namespace o)
  unfolding Entities.check_object
  check_object-Returns o h = tested (is_empty o || equal_fold o def_namespace) h
    where
      tested :
          (b : Bool)
          → (b ≡ true)
            ⊎ ((is_empty (get_type (parse_entity o)) ≡ false)
                ⊎ ((i : Text) × (id (parse_entity o) ≡ some i)))
          → Returns (
              if b
              then some []
              else Entities.object_problems namespaces def_namespace (parse_entity o))
      tested true k = (_, refl)
      tested false (inl k) = ground (arith, k)
      tested false (inr k) = object_problems-Returns (parse_entity o) k

  module _ (rank : Text → Text → ℕ) (bound n : ℕ) (P : Platform) where
    -- ValidatePolicy returns, without a panic, where the common types of every schema have bounded ranks above those of
    -- the common types of their attributes, the fuel is enough for the identifiers and the bound, the object is
    -- blank or the default namespace or has a type or an identifier, each value of the condition's rule can be
    -- read, and each comparison of it that uses an entity has identifiers on its sides and both sides, but
    -- for a presence test.
    pub validate_policy-returns :
        (unquote : Text → Text) (p : PolicyInfo)
        → AreRanked namespaces def_namespace rank bound n
        → IsNamed p.object
        → HasWholeRule namespaces def_namespace rank bound n P p.condition
        → (es : List Problem) × (Validate.validate_policy namespaces def_namespace unquote P n p
            ≡ some es)
    unfolding Validate.validate_policy
    validate_policy-returns unquote p h g k =
        append-Returns
          (some (Entities.check_subject namespaces def_namespace (elements p.subjects))) _ (_, refl)
          (append-Returns (Entities.check_object namespaces def_namespace p.object) _
            (check_object-Returns p.object g)
            (append-Returns (some (Entities.check_action namespaces def_namespace unquote p)) _
              (_, refl)
              (check_conditions-Returns namespaces def_namespace rank bound n P p.condition h k)))
