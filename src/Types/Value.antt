-- ===== src/Types/Value.antt =====
-- pkg/hexapolicy/types: the values of IDQL conditions (value.go, string.go, numeric.go, date.go,
-- boolean.go, array.go, object.go and emptyValue.go).
pub mod Numeric
pub mod Compare
pub mod Parse
use policy_conditions.Base.{
  ℕ, Bool, true, false, Option, none, some, List, [], ◌∷◌, ◌++◌, ◌==◌, if◌then◌else◌,
}
use policy_conditions.Base.Text.{Text, codes, has_prefix}
use policy_conditions.Types.Entity
use policy_conditions.Types.Entity.{Entity}
use policy_conditions.Types.Platform.{Platform}
use policy_conditions.Types.Quote.{quote}

-- `ComparableValue`: the value types that have `LessThan` and `Equals`
pub data Comparable (P : Platform) : Type 0 where
  string : Text → Comparable P
  number : P.Float → Text → Comparable P
  date : P.Time → Comparable P
  boolean : Bool → Comparable P
  unassigned : Entity → Comparable P

mutual
  -- `Value`
  pub data Value (P : Platform) : Type 0 where
    variable : Entity → Value P
    comparable : Comparable P → Value P
    array : List (Comparable P) → Value P
    object : Fields P → Value P

  -- the map of an object
  pub data Fields (P : Platform) : Type 0 where
    end : Fields P
    field : Text → Value P → Fields P → Fields P

-- The constants `Type*`, as `ValueType` returns them.
pub data ValueType : Type 0 where
  type_variable type_string type_number type_date type_bool type_array type_object : ValueType
  type_unassigned : ValueType

unfoldable pub comparable_type : {P : Platform} → Comparable P → ValueType
comparable_type (string s) = type_string
comparable_type (number n raw) = type_number
comparable_type (date d) = type_date
comparable_type (boolean b) = type_bool
comparable_type (unassigned e) = type_unassigned

-- `ValueType`
unfoldable pub value_type : {P : Platform} → Value P → ValueType
unfolding comparable_type
value_type (variable e) = type_variable
value_type (comparable v) = comparable_type v
value_type (array vs) = type_array
value_type (object fs) = type_object

-- `String` of a comparable value
unfoldable pub comparable_string : {P : Platform} → Comparable P → Text
comparable_string (string s) = quote s
comparable_string (number n raw) = raw
comparable_string {P} (date d) = P.format_time d
comparable_string (boolean true) = codes "true"
comparable_string (boolean false) = codes "false"
comparable_string (unassigned e) = []

array_tail : {P : Platform} → List (Comparable P) → Text
array_tail [] = []
array_tail (v ∷ vs) = b',' ∷ 32 ∷ (comparable_string v ++ array_tail vs)

-- `Array.String`
unfoldable pub array_string : {P : Platform} → List (Comparable P) → Text
unfolding array_tail
array_string [] = codes "[]"
array_string (v ∷ vs) = b'[' ∷ (comparable_string v ++ (array_tail vs ++ codes "]"))

-- `String`; an object's fields are written in the order of the list.
unfoldable mutual
  pub value_string : {P : Platform} → Value P → Text
  value_string (variable e) = Entity.to_string e
  value_string (comparable v) = comparable_string v
  value_string (array vs) = array_string vs
  value_string (object fs) = b'{' ∷ fields_string false fs

  -- the flag is `i > 0`
  pub fields_string : {P : Platform} → Bool → Fields P → Text
  fields_string later end = codes "}"
  fields_string later (field k v fs) =
      (if later then codes "," else [])
      ++ (b'"' ∷ (k ++ (b'"' ∷ b':' ∷ (value_string v ++ fields_string true fs))))
