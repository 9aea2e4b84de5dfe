-- ===== src/Types/Entity.antt =====
-- pkg/hexapolicy/types/entity.go: the entity paths of subjects, actions, objects and operands.
-- A nil slice and an empty one are both `[]`, as `ParseEntity` makes no empty `Types` that is not nil.
mod Segments
pub mod Shape
pub mod RoundTrip
pub mod Fuel
use policy_conditions.Base.{
  ℕ, zero, suc, ◌+◌, ◌-◌, ltb, Bool, true, false, not, ◌&&◌, Option, none, some, List, [], ◌∷◌,
  ◌++◌, ◌==◌, if◌then◌else◌,
}
use policy_conditions.Base.Lists.{length, is_empty, get_elem?}
use policy_conditions.Base.Text.{Text, codes, equal_fold, has_prefix, text_eq, join, split}

-- The constants `RelType*`; `other` is any other text in the field `Type`.
pub data RelType : Type 0 where
  any any_authenticated is is_in in_set equals empty : RelType
  other : Text → RelType

mutual
  -- The fields `Types`, `Type`, `Id` and `In`.
  pub data Entity : Type 0 where
    entity : List Text → RelType → Option Text → Members → Entity

  -- `*[]Entity`, nil or a list
  pub data Members : Type 0 where
    absent : Members
    members : Entities → Members

  pub data Entities : Type 0 where
    nil : Entities
    cons : Entity → Entities → Entities

abbrev pub types : Entity → List Text
types (entity ts r i m) = ts

abbrev pub rel_type : Entity → RelType
rel_type (entity ts r i m) = r

abbrev pub id : Entity → Option Text
id (entity ts r i m) = i

abbrev pub of_list : List Entity → Entities
of_list [] = nil
of_list (e ∷ es) = cons e (of_list es)

-- The local variables of the loop of `ParseEntity`.
pub record Scan : Type 0 where
  pub type_path : List Text
  pub sets : List Entity
  pub sb : Text
  pub setb : Text
  pub is_set : Bool

abbrev pub start : Scan
start = record { type_path = []; sets = []; sb = []; setb = []; is_set = false }

abbrev parse_all : (Text → Entity) → List Text → List Entity
parse_all parse [] = []
parse_all parse (m ∷ ms) = parse m ∷ parse_all parse ms

-- One round of the loop; `parse` stands for the recursive calls on the members of a set.
pub step : (Text → Entity) → Scan → ℕ → Scan
step parse s r =
    if r == b':' && not s.is_set
    then record s { type_path = s.type_path ++ (s.sb ∷ []); sb = [] }
    else if r == b'['
    then (if is_empty s.sb
        then record s { is_set = true }
        else record s { type_path = s.type_path ++ (s.sb ∷ []); sb = []; is_set = true })
    else if r == b']'
    then record s {
      sets = s.sets ++ parse_all parse (split b',' s.setb);
      setb = [];
      is_set = false;
    }
    else if s.is_set
    then record s { setb = s.setb ++ (r ∷ []) }
    else record s { sb = s.sb ++ (r ∷ []) }

pub scan : (Text → Entity) → Scan → Text → Scan
unfolding step
scan parse s [] = s
scan parse s (r ∷ rs) = scan parse (step parse s r) rs

-- The part behind the tests for `any` and `anyauthenticated`.
relation : List Text → List Entity → Option Text → Entity
relation ts [] none = entity ts RelType.is none absent
relation ts [] (some i) = entity ts equals (some i) absent
relation [] sets i = entity [] in_set none (members (of_list sets))
relation ts sets i = entity ts is_in none (members (of_list sets))

-- The part of `ParseEntity` behind the loop.
pub finish : Scan → Entity
unfolding relation
finish s =
    if not (is_empty s.sb) && equal_fold s.sb (codes "any")
    then entity [] RelType.any none absent
    else if not (is_empty s.sb) && equal_fold s.sb (codes "anyauthenticated")
    then entity [] any_authenticated none absent
    else relation s.type_path s.sets (if is_empty s.sb then none else some s.sb)

abbrev pub empty_entity : Entity
empty_entity = entity [] empty none absent

-- `ParseEntity` on fuel, a unit for each level of nested calls. The members of a set hold
-- no brackets, so two are enough.
pub parse_fuel : ℕ → Text → Entity
unfolding scan finish
parse_fuel zero value = empty_entity
parse_fuel (suc n) [] = empty_entity
parse_fuel (suc n) (r ∷ rs) = let s = scan (parse_fuel n) start (r ∷ rs) in finish s

unfoldable pub parse_entity : Text → Entity
unfolding parse_fuel
parse_entity = parse_fuel 2

abbrev pub id_text : Option Text → Text
id_text none = []
id_text (some i) = i

-- `Entity.String`. Where the source follows a nil `Id` or `In` it panics; here that prints nothing.
unfoldable mutual
  pub to_string : Entity → Text
  to_string (entity ts RelType.any i m) = codes "any"
  to_string (entity ts any_authenticated i m) = codes "anyAuthenticated"
  to_string (entity [] equals i m) = id_text i
  to_string (entity (t ∷ ts) equals i m) = join (b':' ∷ []) (t ∷ ts) ++ (b':' ∷ id_text i)
  to_string (entity ts RelType.is i m) = join (b':' ∷ []) ts ++ (b':' ∷ [])
  to_string (entity ts is_in i m) =
      join (b':' ∷ []) ts ++ (b'[' ∷ (members_string m ++ (b']' ∷ [])))
  to_string (entity ts in_set i m) = b'[' ∷ (members_string m ++ (b']' ∷ []))
  to_string (entity ts empty i m) = []
  to_string (entity ts (other r) i m) = codes "unexpected type: " ++ r

  members_string : Members → Text
  members_string absent = []
  members_string (members es) = list_string es

  list_string : Entities → Text
  list_string nil = []
  list_string (cons e es) = to_string e ++ tail_string es

  tail_string : Entities → Text
  tail_string nil = []
  tail_string (cons e es) = b',' ∷ (to_string e ++ tail_string es)

-- `IsPath`: the identifier is not quoted. The source reads `*e.Id`, and panics without one.
unfoldable pub is_path : Text → Bool
is_path i = not (has_prefix i (b'"' ∷ []))

last_type : List Text → Text
last_type [] = []
last_type (t ∷ []) = t
last_type (t ∷ u ∷ ts) = last_type (u ∷ ts)

-- `GetType`
unfoldable pub get_type : Entity → Text
unfolding last_type
get_type (entity ts RelType.any i m) = codes "any"
get_type (entity ts any_authenticated i m) = codes "anyAuthenticated"
get_type (entity ts r i m) = last_type ts

-- `GetNamespace`
unfoldable pub get_namespace : Text → Entity → Text
get_namespace default (entity (t ∷ u ∷ ts) r i m) = t
get_namespace default (entity ts r i m) = default
