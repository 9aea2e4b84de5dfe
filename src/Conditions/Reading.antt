-- ===== src/Conditions/Reading.antt =====
-- How `ParseFilter` reads the text of a rule: `and` and `or` bind alike, and a chain of them is read from left
-- to right. A `not` in a chain is not forgotten, so each pair of brackets behind it is negated too. Comparisons
-- are told apart as wholes, and value paths are left out.
pub mod Printed
use policy_conditions.Base.{
  Bool, true, false, not, ◌&&◌, ◌||◌, Option, none, some, [], ◌++◌, if◌then◌else◌,
}
use policy_conditions.Base.Text.{Text, codes}
use policy_conditions.Types.Platform.{Platform}
use policy_conditions.Types.Value.{Value, value_string}
use policy_conditions.Types.Value.Compare.{
  CompareOperator, pr, eq, ne, within, sw, ew, gt, lt, ge, le, is_type, co,
}
use policy_conditions.Conditions.Ast.{attribute}
use policy_conditions.Conditions.Meaning.{Truth}

-- a comparison, a negation or a text in brackets
pub data Part : Type 0 where
  comparison opposite bracketed : Part

-- One such part, or a chain of them; the flag says whether it has a negation outside brackets.
pub data Level : Type 0 where
  single : Part → Level
  chain : Bool → Level

abbrev pub is_opposite : Part → Bool
is_opposite comparison = false
is_opposite opposite = true
is_opposite bracketed = false

-- the value of a part of a chain, where the flag says whether a negation stands before it
abbrev pub read_behind : Part → Bool → Bool → Bool
read_behind comparison negated b = b
read_behind opposite negated b = b
read_behind bracketed negated b = if negated then not b else b

-- the operators of the language of rules
abbrev pub word : CompareOperator → Text
word eq = codes "eq"
word ne = codes "ne"
word gt = codes "gt"
word lt = codes "lt"
word ge = codes "ge"
word le = codes "le"
word sw = codes "sw"
word ew = codes "ew"
word co = codes "co"
word within = codes "in"
word is_type = codes "is"
word pr = codes "pr"

abbrev value_text : {P : Platform} → Option (Value P) → Text
value_text none = []
value_text (some v) = value_string v

abbrev pub comparison_text : {P : Platform} → Value P → CompareOperator → Option (Value P) → Text
comparison_text v pr w = value_string v ++ codes " pr"
comparison_text v op w = value_string v ++ (codes " " ++ (word op ++ (codes " " ++ value_text w)))

-- A text of a level, and its value where `ρ` says which comparisons hold.
pub data Reads {P : Platform} (ρ : Truth P) : Level → Text → Bool → Type 0 where
  compared :
      (v : Value P) (op : CompareOperator) (w : Option (Value P))
      → Reads ρ (single comparison) (comparison_text v op w) (ρ (attribute v op w))
  negated :
      {n : Bool} {t : Text} {b : Bool}
      → Reads ρ (chain n) t b
      → Reads ρ (single opposite) (codes "not (" ++ (t ++ codes ")")) (not b)
  grouped :
      {n : Bool} {t : Text} {b : Bool}
      → Reads ρ (chain n) t b
      → Reads ρ (single bracketed) (codes "(" ++ (t ++ codes ")")) b
  of_single :
      {k : Part} {t : Text} {b : Bool}
      → Reads ρ (single k) t b
      → Reads ρ (chain (is_opposite k)) t b
  with_and :
      {n : Bool} {k : Part} {s t : Text} {a b : Bool}
      → Reads ρ (chain n) s a
      → Reads ρ (single k) t b
      → Reads ρ (chain (n || is_opposite k)) (s ++ (codes " and " ++ t)) (a && read_behind k n b)
  with_or :
      {n : Bool} {k : Part} {s t : Text} {a b : Bool}
      → Reads ρ (chain n) s a
      → Reads ρ (single k) t b
      → Reads ρ (chain (n || is_opposite k)) (s ++ (codes " or " ++ t)) (a || read_behind k n b)
