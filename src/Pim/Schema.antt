-- ===== src/Pim/Schema.antt =====
-- models/policyInfoModel/schema.go: the schema of an application, and the search for an attribute in it.
-- A nil map of attributes and an empty one are both `end`, as the code finds nothing in either.
pub mod Ends
use policy_conditions.Base.{
  ℕ, zero, suc, Bool, true, false, ◌||◌, Option, none, some, List, [], ◌∷◌, ◌==◌, if◌then◌else◌,
}
use policy_conditions.Base.Lists.{is_empty}
use policy_conditions.Base.Text.{Text, codes, text_eq, equal_fold}
use policy_conditions.Base.Dict
use policy_conditions.Base.Dict.{Dict}
use policy_conditions.Types.Entity.{Entity, get_type, is_path, id, id_text}

mutual
  -- `AttrType`: its type, `Element` and `Attributes`; the search reads no other field.
  pub data AttrType : Type 0 where
    attr_type : Text → Element → Attributes → AttrType

  -- `SetType`, nil or the type of the elements
  pub data Element : Type 0 where
    no_element : Element
    element : AttrType → Element

  -- `map[string]AttrType`, in the order in which the range gives the entries
  pub data Attributes : Type 0 where
    end : Attributes
    entry : Text → AttrType → Attributes → Attributes

abbrev pub type_name : AttrType → Text
type_name (attr_type t el as') = t

-- `EntityType`; of its shape the attributes
pub record EntityType : Type 0 where
  pub member_of_types : List Text
  pub shape : Attributes

-- `AppliesType`; of the context the attributes
pub record AppliesType : Type 0 where
  pub principal_types : Option (List Text)
  pub resource_types : Option (List Text)
  pub context : Option Attributes

-- `ActionType`
pub record ActionType : Type 0 where
  pub member_of : List Text
  pub applies_to : AppliesType

-- `SchemaType`; of a common type the attributes
pub record SchemaType : Type 0 where
  pub entity_types : Dict EntityType
  pub actions : Dict ActionType
  pub common_types : Dict Attributes

abbrev first_part : ℕ → Text × Option Text → Text × Option Text
first_part c (w, rest) = (c ∷ w, rest)

-- `strings.SplitN(path, ".", 2)`
unfoldable pub split_path : Text → Text × Option Text
split_path [] = ([], none)
split_path (c ∷ cs) = if c == b'.' then ([], some cs) else first_part c (split_path cs)

-- What a search returns; the outer none is a search that does not end.
abbrev pub Search : Type 0
Search = Option (Option AttrType)

-- the first result, and the later one where it found nothing
abbrev or_later : Search → Search → Search
or_later none later = none
or_later (some none) later = later
or_later (some (some a)) later = some (some a)

-- the types that are not looked up under `commonTypes`
unfoldable pub is_builtin : Text → Bool
is_builtin t =
    text_eq t (codes "String")
    || (text_eq t (codes "Bool")
        || (text_eq t (codes "Date")
            || (text_eq t (codes "Numeric")
                || (text_eq t (codes "Long")
                    || (text_eq t (codes "Extension")
                        || (text_eq t (codes "Record") || text_eq t (codes "Set")))))))

-- an attribute of a map, by its exact name
unfoldable lookup : Text → Attributes → Option AttrType
lookup k end = none
lookup k (entry j a as') = if text_eq j k then some a else lookup k as'

-- the attribute itself where the path ends, and else what `find` finds in it
abbrev within : (AttrType → Text → Search) → Option Text → AttrType → Search
within find none a = some (some a)
within find (some rest) a = find a rest

module _ (s : SchemaType) where
  -- the attribute under the type that is found under `commonTypes`
  unfoldable in_common : (Attributes → Text → Search) → Text → Text → Search
  unfolding is_builtin
  in_common search path t =
      if is_builtin t
      then some none
      else elim (Dict.get t s.common_types) [ none ↦ some none | some c ↦ search c path ]

  -- the loop of `doFindAttr`, where `find` and `search` stand for the calls
  unfoldable each_attr :
      (AttrType → Text → Search)
      → (Attributes → Text → Search)
      → Text
      → Text × Option Text
      → Attributes
      → Search
  unfolding in_common
  each_attr find search path comps end = some none
  each_attr find search path (first, rest) (entry name a as') =
      or_later (if equal_fold first name then within find rest a else some none) (
        or_later (in_common search path (type_name a))
          (each_attr find search path (first, rest) as'))

  -- `FindAttrTypes` behind the split, from the attribute that the element has under the first part
  unfoldable in_element :
      (AttrType → Text → Search) → Option Text → Search → Option AttrType → Search
  in_element find rest later none = later
  in_element find rest later (some a) = within find rest a

  abbrev element_attributes : Element → Attributes
  element_attributes no_element = end
  element_attributes (element (attr_type t el as')) = as'

  -- both on fuel, a unit for each level of nested calls
  unfoldable mutual
    unfolding each_attr split_path in_element lookup

    -- `doFindAttr`. The source ranges over the attributes in an order of the map's choice, anew at each call;
    -- here that order is the list's, the same at each call.
    pub do_find_attr : ℕ → Attributes → Text → Search
    do_find_attr zero as' path = none
    do_find_attr (suc n) as' path =
        if is_empty path
        then some none
        else each_attr (find_attr_types n) (do_find_attr n) path (split_path path) as'

    -- `AttrType.FindAttrTypes`
    pub find_attr_types : ℕ → AttrType → Text → Search
    find_attr_types zero a path = none
    find_attr_types (suc n) (attr_type t el as') path =
        let (first, rest) = split_path path in
        in_element (find_attr_types n) rest (do_find_attr n as' path)
          (lookup first (element_attributes el))

  -- `Entity.IsPath`, which panics on a nil `Id`, and then the search in the shape
  unfoldable pub find_in_shape : ℕ → Attributes → Option Text → Search
  unfolding do_find_attr
  find_in_shape n as' none = none
  find_in_shape n as' (some i) = if is_path i then do_find_attr n as' i else some none

  -- `SchemaType.FindAttrType`
  unfoldable pub find_attr_type : ℕ → Entity → Search
  unfolding find_in_shape
  find_attr_type n e = elim (Dict.get (get_type e) s.entity_types) [
    | none ↦ some none
    | some t ↦ find_in_shape n t.shape (id e)
  ]
