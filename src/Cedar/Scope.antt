-- ===== src/Cedar/Scope.antt =====
-- models/formats/cedar/cedar_mapper.go: the scopes of a Cedar policy, and the subjects, actions and objects of
-- IDQL.
mod Splitting
pub mod Texts
pub mod RoundTrip
use policy_conditions.Base.{
  Bool, true, false, Option, none, some, List, [], ◌∷◌, ◌++◌, ◌==◌, map, if◌then◌else◌,
}
use policy_conditions.Base.Lists.{is_empty}
use policy_conditions.Base.Text.{Text, codes, equal_fold, join}
use policy_conditions.Types.Entity
use policy_conditions.Types.Entity.{
  RelType, Entity, entity, Members, absent, members, Entities, nil, cons, of_list, is_in, in_set,
  equals, any_authenticated, empty, parse_entity,
}
use policy_conditions.Types.Quote.{quote}

-- `EntityUID`
pub record Uid : Type 0 where
  pub type : Text
  pub id : Text

-- The verbs that the functions are called with.
pub data Verb : Type 0 where
  principal action resource : Verb

abbrev pub verb_text : Verb → Text
verb_text principal = codes "principal"
verb_text action = codes "action"
verb_text resource = codes "resource"

-- `ScopeJSON`, by its `Op` with the fields that come with it
pub data Scope : Type 0 where
  all other_op : Scope
  equal : Uid → Scope
  is_type : Text → Scope
  is_type_in : Text → Uid → Scope
  in_one : Uid → Scope
  in_many : List Uid → Scope

-- `strings.Split(s, "::")`, with the segment so far; the flag says that a colon was read before.
pub split_after : Bool → Text → Text → List Text
split_after pending seg [] = (if pending then seg ++ codes ":" else seg) ∷ []
split_after pending seg (c ∷ cs) =
    let cut = split_after false [] cs in
    let colon = split_after true seg cs in
    let other = split_after false ((if pending then seg ++ codes ":" else seg) ++ (c ∷ [])) cs in
    if c == b':' then (if pending then seg ∷ cut else colon) else other

unfoldable pub split_types : Text → List Text
unfolding split_after
split_types = split_after false []

-- an entity of the last cases, whose type is not split
abbrev pub whole_entity : Uid → Entity
whole_entity u = entity (u.type ∷ []) equals (some (quote u.id)) absent

-- `mapCedarScope`
unfoldable pub map_cedar_scope : Verb → Scope → List Text
unfolding split_types
map_cedar_scope principal all = codes "any" ∷ []
map_cedar_scope verb all = []
map_cedar_scope verb (equal u) =
    Entity.to_string (entity (split_types u.type) equals (some (quote u.id)) absent) ∷ []
map_cedar_scope verb (is_type t) = Entity.to_string (entity (t ∷ []) RelType.is none absent) ∷ []
map_cedar_scope verb (is_type_in t u) =
    Entity.to_string (
      entity (t ∷ []) is_in none
        (members (of_list (parse_entity (u.type ++ (codes ":" ++ quote u.id)) ∷ []))))
    ∷ []
map_cedar_scope verb (in_one u) =
    Entity.to_string (entity [] in_set none (members (of_list (whole_entity u ∷ [])))) ∷ []
map_cedar_scope action (in_many us) = map (λ u. Entity.to_string (whole_entity u)) us
map_cedar_scope verb (in_many us) =
    Entity.to_string (entity [] in_set none (members (of_list (map whole_entity us)))) ∷ []
map_cedar_scope verb other_op = []

-- the types and the identifier of an entity, in Cedar
abbrev pub entity_ref : Entity → Text
entity_ref (entity ts r none m) = join (codes "::") ts
entity_ref (entity ts r (some i) m) = join (codes "::") ts ++ (codes "::" ++ quote i)

abbrev refs_after : Entities → Text
refs_after nil = []
refs_after (cons e es) = codes "," ++ (entity_ref e ++ refs_after es)

-- the entities of a set: one alone has no brackets
abbrev pub set_text : Members → Text
set_text absent = []
set_text (members nil) = codes "[]"
set_text (members (cons e nil)) = entity_ref e
set_text (members (cons e (cons f es))) =
    codes "[" ++ (entity_ref e ++ (refs_after (cons f es) ++ codes "]"))

abbrev pub comma : Verb → Text
comma resource = []
comma verb = codes ","

abbrev unexpected : Text → Text
unexpected t = codes "<unexpected type [" ++ (t ++ codes "]>")

-- The switch of `mapHexaValue`. Where an entity has no identifier or set it panics; `ParseEntity` makes no such
-- entity.
abbrev pub entity_value : Verb → Entity → Text
entity_value action (entity ts equals i m) = entity_ref (entity ts equals i m)
entity_value verb (entity ts equals i m) =
    verb_text verb ++ (codes " == " ++ (entity_ref (entity ts equals i m) ++ comma verb))
entity_value verb (entity ts RelType.is i m) =
    verb_text verb ++ (codes " is " ++ (join (codes "::") ts ++ comma verb))
entity_value verb (entity ts in_set i m) =
    verb_text verb ++ (codes " in " ++ (set_text m ++ comma verb))
entity_value verb (entity ts is_in i m) =
    verb_text verb
    ++ (codes " is " ++ (join (codes "::") ts ++ (codes " in " ++ (set_text m ++ comma verb))))
entity_value verb (entity ts RelType.any i m) = unexpected (codes "any")
entity_value verb (entity ts any_authenticated i m) = unexpected (codes "anyAuthenticated")
entity_value verb (entity ts empty i m) = unexpected (codes "nil")
entity_value verb (entity ts (RelType.other r) i m) = unexpected r

-- the part of `mapHexaValue` behind the tests for `any` and `anyAuthenticated`
abbrev pub member_value : Verb → Text → Text
member_value verb [] = verb_text verb ++ comma verb
member_value verb (c ∷ cs) = entity_value verb (parse_entity (c ∷ cs))

-- `mapHexaValue`
unfoldable pub map_hexa_value : Verb → Text → Text
map_hexa_value principal member =
    if equal_fold member (codes "any")
    then codes "principal,"
    else if equal_fold member (codes "anyAuthenticated")
    then codes "principal is User,"
    else member_value principal member
map_hexa_value verb member = member_value verb member
