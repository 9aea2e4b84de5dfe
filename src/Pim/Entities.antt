-- ===== src/Pim/Entities.antt =====
-- pkg/hexapolicy/pimValidate/validate.go: the checks of subjects, objects and actions against the schemas.
-- A result of none is a panic on a nil pointer.
pub mod Known
pub mod Allowed
use policy_conditions.Base.{
  ℕ, suc, Bool, true, false, ◌&&◌, ◌||◌, Option, none, some, List, [], ◌∷◌, ◌++◌, if◌then◌else◌,
}
use policy_conditions.Base.Lists.{is_empty}
use policy_conditions.Base.Text.{Text, codes, text_eq, equal_fold, contains, to_lower}
use policy_conditions.Base.Dict
use policy_conditions.Base.Dict.{Dict}
use policy_conditions.Base.Except.{Except, raise, done}
use policy_conditions.Base.Maybe.{◌>>=◌}
use policy_conditions.Types.Platform.{Platform}
use policy_conditions.Types.Entity
use policy_conditions.Types.Entity.{
  RelType, any, any_authenticated, empty, Entity, parse_entity, get_type, get_namespace, is_path,
  id, id_text, rel_type,
}
use policy_conditions.Types.Value.{
  Comparable, string, number, date, boolean, unassigned, Value, variable, comparable, array, object,
}
use policy_conditions.Types.Value.Compare.{
  CompareOperator, pr, eq, ne, within, sw, ew, gt, lt, ge, le, is_type, co,
}
use policy_conditions.Conditions.Ast.{Expression, attribute, value_path}
use policy_conditions.Conditions.Walk.{find_entity_uses}
use policy_conditions.Parser.Result.{ParseError, ok, err}
use policy_conditions.Parser.Loop.{parse_filter}
use policy_conditions.Policy.Info.{Slice, elements, ConditionInfo, PolicyInfo}
use policy_conditions.Pim.Schema.{
  SchemaType, ActionType, AppliesType, AttrType, type_name, find_attr_type,
}

-- The errors, with the namespaces, types and texts that they name.
pub data Problem : Type 0 where
  subject_namespace object_namespace unknown_namespace operand_namespace : Text → Problem
  subject_type object_type : Text → Text → Problem
  missing_object_type : Text → Text → Problem
  unknown_action not_for_subject not_for_object : Text → Problem
  unknown_operand_type unknown_attribute : Text → Problem
  invalid_operand value_path_unsupported : Problem
  mismatched_types : Text → Text → Problem
  requires_string requires_entity_or_string : Text → Problem
  bad_rule : ParseError → Problem

-- Each of the checks returns a slice of errors, or panics.
abbrev pub Problems : Type 0
Problems = Option (List Problem)

abbrev pub append : Problems → Problems → Problems
append none ys = none
append (some xs) none = none
append (some xs) (some ys) = some (xs ++ ys)

-- whether the type is `any` or `anyAuthenticated`
unfoldable pub is_anyone : RelType → Bool
is_anyone any = true
is_anyone any_authenticated = true
is_anyone r = false

unfoldable pub is_none : RelType → Bool
is_none empty = true
is_none r = false

unfoldable pub in_list : Text → List Text → Bool
in_list t [] = false
in_list t (u ∷ us) = text_eq u t || in_list t us

-- `specialEntities`
abbrev pub special_entities : List Text
special_entities = codes "subject" ∷ codes "action" ∷ codes "resource" ∷ codes "principal" ∷ []

-- `fmt.Sprintf("%s:%s", namespace, entity.GetType())`
abbrev qualified_type : Text → Entity → Text
qualified_type namespace e = namespace ++ (codes ":" ++ get_type e)

-- Whether a type of the list is the entity's, in the loops of `checkAppliesTo`.
unfoldable pub applies : Text → Text → Entity → List Text → Bool
applies action_namespace namespace e [] = false
applies action_namespace namespace e (t ∷ ts) =
    (if contains t (codes ":")
      then equal_fold t (qualified_type namespace e)
      else text_eq action_namespace namespace && equal_fold (get_type e) t)
    || applies action_namespace namespace e ts

-- the error for an object without a type, whose identifier the source reads
unfoldable pub missing_type : Text → Option Text → Problems
missing_type namespace none = none
missing_type namespace (some i) = some (missing_object_type namespace i ∷ [])

-- the fields of the validator
module _ (namespaces : Dict SchemaType) (def_namespace : Text) where
  -- `checkSubject` of one entity
  unfoldable pub subject_problems : Entity → List Problem
  unfolding is_anyone
  subject_problems e =
      if is_anyone (rel_type e)
      then []
      else elim (Dict.get (get_namespace def_namespace e) namespaces) [
        | none ↦ subject_namespace (get_namespace def_namespace e) ∷ []
        | some s ↦ elim (Dict.get (get_type e) s.entity_types) [
          | none ↦ subject_type (get_namespace def_namespace e) (get_type e) ∷ []
          | some t ↦ []
        ]
      ]

  -- `checkSubject`
  unfoldable pub check_subject : List Text → List Problem
  unfolding subject_problems
  check_subject [] = []
  check_subject (t ∷ ts) = subject_problems (parse_entity t) ++ check_subject ts

  -- the checks of `checkObject` on the entity
  unfoldable pub object_problems : Entity → Problems
  unfolding missing_type
  object_problems e = elim (Dict.get (get_namespace def_namespace e) namespaces) [
    | none ↦ some (object_namespace (get_namespace def_namespace e) ∷ [])
    | some s ↦
        if is_empty (get_type e)
        then missing_type (get_namespace def_namespace e) (id e)
        else elim (Dict.get (get_type e) s.entity_types) [
          | none ↦ some (object_type (get_namespace def_namespace e) (get_type e) ∷ [])
          | some t ↦ some []
        ]
  ]

  -- `checkObject`
  unfoldable pub check_object : Text → Problems
  unfolding object_problems
  check_object o =
      if is_empty o || equal_fold o def_namespace then some [] else object_problems (parse_entity o)

  unfoldable principal_problems : Text → List Text → List Text → List Problem
  unfolding is_anyone is_none applies
  principal_problems action_namespace principals [] = []
  principal_problems action_namespace principals (t ∷ ts) =
      let e = parse_entity t in
      (if is_anyone (rel_type e)
          || (is_none (rel_type e)
              || applies action_namespace (get_namespace def_namespace e) e principals)
        then []
        else not_for_subject (Entity.to_string e) ∷ [])
      ++ principal_problems action_namespace principals ts

  unfoldable resource_problems : Text → List Text → Text → List Problem
  unfolding is_none applies
  resource_problems action_namespace resources o =
      let e = parse_entity o in
      if is_none (rel_type e)
        || applies action_namespace (get_namespace def_namespace e) e resources
      then []
      else not_for_object o ∷ []

  -- `checkAppliesTo`
  unfoldable pub check_applies_to : Text → AppliesType → PolicyInfo → List Problem
  unfolding principal_problems resource_problems
  check_applies_to action_namespace a p =
      elim a.principal_types [
        | none ↦ []
        | some ts ↦ principal_problems action_namespace ts (elements p.subjects)
      ]
      ++ elim a.resource_types [
        | none ↦ []
        | some ts ↦ resource_problems action_namespace ts p.object
      ]

  -- `unquote` stands for `strconv.Unquote`, in which an error leaves an empty text.
  module _ (unquote : Text → Text) where
    -- `GetId` of an entity
    unfoldable pub get_id : Entity → Text
    get_id e = if is_path (id_text (id e)) then id_text (id e) else unquote (id_text (id e))

    -- `checkAction` of one action
    unfoldable pub action_problems : PolicyInfo → Entity → List Problem
    unfolding get_id
    action_problems p e = elim (Dict.get (get_namespace def_namespace e) namespaces) [
      | none ↦ unknown_namespace (get_namespace def_namespace e) ∷ []
      | some s ↦ elim (Dict.get (get_id e) s.actions) [
        | none ↦ unknown_action (Entity.to_string e) ∷ []
        | some a ↦ check_applies_to (get_namespace def_namespace e) a.applies_to p
      ]
    ]

    unfoldable each_action : PolicyInfo → List Text → List Problem
    unfolding action_problems
    each_action p [] = []
    each_action p (t ∷ ts) = action_problems p (parse_entity t) ++ each_action p ts

    -- `checkAction`
    unfoldable pub check_action : PolicyInfo → List Problem
    unfolding each_action
    check_action p = each_action p (elements p.actions)
