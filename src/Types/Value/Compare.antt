-- ===== src/Types/Value/Compare.antt =====
-- `LessThan`, `Equals` and `CompareValues`.
use policy_conditions.Base.{
  Bool, true, false, not, ◌&&◌, Option, none, some, [], ◌∷◌, if◌then◌else◌,
}
use policy_conditions.Base.Text.{
  Text, codes, text_eq, text_lt, equal_fold, has_prefix, has_suffix, contains,
}
use policy_conditions.Types.Platform.{Platform}
use policy_conditions.Types.Quote.{unquote}
use policy_conditions.Types.Value.{
  Comparable, string, number, date, boolean, unassigned, comparable_string,
}

-- The operators of a condition.
pub data CompareOperator : Type 0 where
  pr eq ne co within sw ew gt lt ge le is_type : CompareOperator

-- A comparison, or `incompatible`; the source returns the pair `false, true` for the latter.
pub data Outcome : Type 0 where
  answer : Bool → Outcome
  incompatible : Outcome

unquoted : Text → Text
unquoted s = if has_prefix s (b'"' ∷ []) then unquote s else s

-- `strings.HasPrefix(s, "\"") && strings.HasSuffix(s, "\"")`, and then unquoted
unquoted_both : Text → Text
unquoted_both s = if has_prefix s (b'"' ∷ []) && has_suffix s (b'"' ∷ []) then unquote s else s

or_less : Option Bool → Outcome → Option Outcome
or_less none less = none
or_less (some true) less = some (answer true)
or_less (some false) less = some less

answered : (Bool → Bool) → Option Bool → Option Outcome
answered f none = none
answered f (some b) = some (answer (f b))

module _ {P : Platform} where
  -- `String.LessThan`
  string_less_than : Text → Comparable P → Outcome
  string_less_than s (string t) = answer (text_lt s t)
  string_less_than s (number n raw) = answer (text_lt s raw)
  string_less_than s _ = incompatible

  -- `Numeric.LessThan`. It compares the texts where the other side is a string.
  number_less_than : P.Float → Text → Comparable P → Outcome
  number_less_than a raw (number b _) = answer (P.float_lt a b)
  number_less_than a raw (string t) = answer (text_lt raw t)
  number_less_than a raw _ = incompatible

  -- `Date.LessThan`
  date_less_than : P.Time → Comparable P → Outcome
  date_less_than a (date b) = answer (P.time_before a b)
  date_less_than a _ = incompatible

  -- `Boolean.LessThan`
  boolean_less_than : Bool → Comparable P → Outcome
  boolean_less_than a (boolean b) = answer (not a && b)
  boolean_less_than a _ = incompatible

  -- `LessThan` of the interface
  unfoldable pub less_than : Comparable P → Comparable P → Outcome
  unfolding string_less_than number_less_than date_less_than boolean_less_than
  less_than (string s) v = string_less_than s v
  less_than (number a raw) v = number_less_than a raw v
  less_than (date a) v = date_less_than a v
  less_than (boolean a) v = boolean_less_than a v
  less_than (unassigned e) v = incompatible

  -- `String.Equals`
  string_equals : Text → Comparable P → Bool
  unfolding unquoted
  string_equals s v = equal_fold s (unquoted (comparable_string v))

  -- `Numeric.Equals`
  number_equals : P.Float → Comparable P → Bool
  number_equals a (number b _) = P.float_eq a b
  number_equals a _ = false

  -- `Date.Equals`. None stands for its panic: the type assertion to `time.Time` fails on any other
  -- value.
  date_equals : P.Time → Comparable P → Option Bool
  date_equals a (date b) = some (P.time_equal a b)
  date_equals a _ = none

  -- `Boolean.Equals`
  boolean_equals : Bool → Comparable P → Bool
  boolean_equals true (boolean b) = b
  boolean_equals false (boolean b) = not b
  boolean_equals a _ = false

  -- `EmptyValue.Equals`
  unassigned_equals : Comparable P → Bool
  unassigned_equals (unassigned e) = true
  unassigned_equals _ = false

  -- `Equals` of the interface
  unfoldable pub equals : Comparable P → Comparable P → Option Bool
  unfolding string_equals number_equals date_equals boolean_equals unassigned_equals
  equals (string s) v = some (string_equals s v)
  equals (number a raw) v = some (number_equals a v)
  equals (date a) v = date_equals a v
  equals (boolean a) v = some (boolean_equals a v)
  equals (unassigned e) v = some (unassigned_equals v)

  -- `strings.Contains` for `CO` and `IN`: the sides are a string and the text of the other side.
  plain : Comparable P → Text
  plain (string s) = s
  plain v = comparable_string v

  contained : CompareOperator → Comparable P → Comparable P → Outcome
  unfolding plain
  contained co (string s) right = answer (contains s (plain right))
  contained within (string s) right = answer (contains (plain right) s)
  contained _ _ _ = incompatible

  -- `CompareValues`
  unfoldable pub compare_values : Comparable P → Comparable P → CompareOperator → Option Outcome
  unfolding or_less answered contained unquoted_both
  compare_values left right pr =
      some (answer (not (text_eq (comparable_string left) (codes "\"\""))))
  compare_values left right eq = answered (λ b. b) (equals left right)
  compare_values left right ne = answered not (equals left right)
  compare_values left right lt = some (less_than left right)
  compare_values left right le = or_less (equals left right) (less_than left right)
  compare_values left right gt = some (less_than right left)
  compare_values left right ge = or_less (equals left right) (less_than right left)
  compare_values left right sw = some (
      answer (
        has_prefix (unquoted_both (comparable_string left))
          (unquoted_both (comparable_string right))))
  compare_values left right ew = some (
      answer (
        has_suffix (unquoted_both (comparable_string left))
          (unquoted_both (comparable_string right))))
  compare_values left right is_type = some incompatible
  compare_values left right co = some (contained co left right)
  compare_values left right within = some (contained within left right)
