-- ===== src/Pim/Operands/Compared.antt =====
-- The checks of the types of a comparison return.
use mathlib.Core.Path.{subst}
use policy_conditions.Base.{
  sym, ◌≡◌, refl, ◌||◌, Bool, true, false, Option, none, some, [], ◌∷◌, arith,
}
use policy_conditions.Base.Text.{Text, codes, equal_fold}
use policy_conditions.Base.Except.{Except, raise, done}
use policy_conditions.Types.Platform.{Platform}
use policy_conditions.Types.Entity.{Entity}
use policy_conditions.Types.Value.{Comparable, string, boolean, date, number, unassigned, Value}
use policy_conditions.Types.Value.Compare.{
  CompareOperator, pr, eq, ne, within, sw, ew, gt, lt, ge, le, is_type, co,
}
use policy_conditions.Pim.Schema.{AttrType}
use policy_conditions.Pim.Entities
use policy_conditions.Pim.Entities.{Problem, Problems, append}
use policy_conditions.Pim.Operands

abbrev pub Returns : {A : Type 0} → Option A → Type 0
Returns {A} r = (x : A) × (r ≡ some x)

pub append-Returns : (r q : Problems) → Returns r → Returns q → Returns (append r q)
append-Returns none q (x, e) h = ground (arith, e)
append-Returns (some xs) none h (y, e) = ground (arith, e)
append-Returns (some xs) (some ys) h g = (_, refl)

-- A value to compare with is there, or the operator is `pr`.
abbrev pub IsCompared : {P : Platform} → CompareOperator → Option (Value P) → Type 0
IsCompared op none = op ≡ pr
IsCompared op (some w) = Unit

unless-Returns :
    {P : Platform} (b : Bool) (w : Value P) (e : Problem) → Returns (Operands.unless b (some w) e)
unfolding Operands.unless Operands.printed
unless-Returns true w e = ([], refl)
unless-Returns false w e = (e ∷ [], refl)

both-Returns :
    {P : Platform} (b c : Bool) (w : Value P) (e f : Problem)
    → Returns (append (Operands.unless b (some w) e) (Operands.unless c (some w) f))
both-Returns b c w e f =
    append-Returns (Operands.unless b (some w) e) (Operands.unless c (some w) f)
      (unless-Returns b w e) (unless-Returns c w f)

compared_types-Returns :
    {P : Platform} (op : CompareOperator) (w : Option (Value P)) (l r : Text)
    → IsCompared op w
    → Returns (Operands.compared_types op w l r)
unfolding Operands.compared_types
compared_types-Returns {P = P} op none l r e =
    subst (λ o. Returns (Operands.compared_types {P = P} o none l r)) (sym e) ([], refl)
compared_types-Returns pr (some w) l r e = ([], refl)
compared_types-Returns is_type (some w) l r e = ([], refl)
compared_types-Returns sw (some w) l r e =
    both-Returns (equal_fold l (codes "String")) (equal_fold r (codes "String")) w
      (Entities.requires_string l) (Entities.requires_string r)
compared_types-Returns ew (some w) l r e =
    both-Returns (equal_fold l (codes "String")) (equal_fold r (codes "String")) w
      (Entities.requires_string l) (Entities.requires_string r)
compared_types-Returns co (some w) l r e =
    both-Returns (equal_fold l (codes "Record") || equal_fold r (codes "String"))
      (equal_fold r (codes "Record") || equal_fold l (codes "String")) w
      (Entities.requires_entity_or_string l) (Entities.requires_entity_or_string r)
compared_types-Returns within (some w) l r e =
    both-Returns (equal_fold l (codes "Record") || equal_fold r (codes "String"))
      (equal_fold r (codes "Record") || equal_fold l (codes "String")) w
      (Entities.requires_entity_or_string l) (Entities.requires_entity_or_string r)
compared_types-Returns eq (some w) l r e =
    unless-Returns (equal_fold l r) w (Entities.mismatched_types l r)
compared_types-Returns ne (some w) l r e =
    unless-Returns (equal_fold l r) w (Entities.mismatched_types l r)
compared_types-Returns gt (some w) l r e =
    unless-Returns (equal_fold l r) w (Entities.mismatched_types l r)
compared_types-Returns lt (some w) l r e =
    unless-Returns (equal_fold l r) w (Entities.mismatched_types l r)
compared_types-Returns ge (some w) l r e =
    unless-Returns (equal_fold l r) w (Entities.mismatched_types l r)
compared_types-Returns le (some w) l r e =
    unless-Returns (equal_fold l r) w (Entities.mismatched_types l r)

pub both_sides-Returns :
    {P : Platform} (op : CompareOperator) (w : Option (Value P)) (l r : Except Problem Text)
    → IsCompared op w
    → Returns (Operands.both_sides op w l r)
unfolding Operands.both_sides
both_sides-Returns op w (raise e) (raise f) h = (_, refl)
both_sides-Returns op w (raise e) (done r) h = (_, refl)
both_sides-Returns op w (done l) (raise f) h = (_, refl)
both_sides-Returns op w (done l) (done r) h = compared_types-Returns op w l r h

pub found_type-Returns :
    (e : Entity) (r : Option (Option AttrType)) → Returns r → Returns (Operands.found_type e r)
unfolding Operands.found_type
found_type-Returns e none (x, h) = ground (arith, h)
found_type-Returns e (some none) h = (_, refl)
found_type-Returns e (some (some a)) h = (_, refl)

pub comparable_operand-Returns :
    {P : Platform} (v : Comparable P) → Returns (Operands.comparable_operand v)
unfolding Operands.comparable_operand
comparable_operand-Returns (string s) = (_, refl)
comparable_operand-Returns (boolean b) = (_, refl)
comparable_operand-Returns (date d) = (_, refl)
comparable_operand-Returns (number x raw) = (_, refl)
comparable_operand-Returns (unassigned e) = (_, refl)
