-- ===== src/Gcp/Cel/Grammar.antt =====
-- The operators of CEL by their precedence: `!` binds tighter than a relation such as `==`, a relation
-- tighter than `&&`, and `&&` tighter than `||`. Only whole comparisons are told apart from one another.
use policy_conditions.Base.{Bool, true, false, not, ◌&&◌, ◌||◌, ◌≡◌, Option, ◌++◌}
use policy_conditions.Base.Text.{Text, codes}
use policy_conditions.Types.Platform.{Platform}
use policy_conditions.Types.Value.{Value}
use policy_conditions.Types.Value.Compare.{CompareOperator, pr, sw, ew, co}
use policy_conditions.Conditions.Ast.{attribute}
use policy_conditions.Conditions.Meaning.{Truth}
use policy_conditions.Conditions.Walk.{AttributeMap}
use policy_conditions.Gcp.Cel.{map_filter_attr_expr, bracketed}

-- from the tightest to the loosest
pub data Level : Type 0 where
  member unary relation conjunction disjunction : Level

-- Whether CEL writes the comparison as a relation; the others are calls.
abbrev pub is_relation : CompareOperator → Bool
is_relation pr = false
is_relation sw = false
is_relation ew = false
is_relation co = false
is_relation op = true

-- A text of a level, and its value where `ρ` says which comparisons hold.
pub data Denotes {P : Platform} (n : AttributeMap) (ρ : Truth P)
    : Level → Text → Bool → Type 0 where
  called :
      (v : Value P) (op : CompareOperator) (w : Option (Value P))
      → is_relation op ≡ false
      → Denotes n ρ member (map_filter_attr_expr n v op w) (ρ (attribute v op w))
  related :
      (v : Value P) (op : CompareOperator) (w : Option (Value P))
      → is_relation op ≡ true
      → Denotes n ρ relation (map_filter_attr_expr n v op w) (ρ (attribute v op w))
  grouped : {t : Text} {b : Bool} → Denotes n ρ disjunction t b → Denotes n ρ member (bracketed t) b
  negated :
      {t : Text} {b : Bool} → Denotes n ρ unary t b → Denotes n ρ unary (codes "!" ++ t) (not b)
  conjoined :
      {s t : Text} {a b : Bool}
      → Denotes n ρ conjunction s a
      → Denotes n ρ relation t b
      → Denotes n ρ conjunction (s ++ (codes " && " ++ t)) (a && b)
  disjoined :
      {s t : Text} {a b : Bool}
      → Denotes n ρ disjunction s a
      → Denotes n ρ conjunction t b
      → Denotes n ρ disjunction (s ++ (codes " || " ++ t)) (a || b)
  of_member : {t : Text} {b : Bool} → Denotes n ρ member t b → Denotes n ρ unary t b
  of_unary : {t : Text} {b : Bool} → Denotes n ρ unary t b → Denotes n ρ relation t b
  of_relation : {t : Text} {b : Bool} → Denotes n ρ relation t b → Denotes n ρ conjunction t b
  of_conjunction : {t : Text} {b : Bool} → Denotes n ρ conjunction t b → Denotes n ρ disjunction t b
