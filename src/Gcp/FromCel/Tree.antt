-- ===== src/Gcp/FromCel/Tree.antt =====
-- The syntax trees of CEL, as far as the mapper tells their messages apart. A getter on a nil message
-- gives the zero value.
use policy_conditions.Base.{Bool, []}
use policy_conditions.Base.Text.{Text}

-- `Constant`. An integer or a floating point number is the text that Go prints for it.
pub data Constant : Type 0 where
  string_value : Text → Constant
  bool_value : Bool → Constant
  int64_value : Text → Constant
  double_value : Text → Constant
  other_constant : Constant

mutual
  -- `Expr` by its kind: a call has a function, a target and arguments, and a selection an operand and
  -- a field.
  pub data Cel : Type 0 where
    call : Text → Target → Args → Cel
    select : Cel → Text → Cel
    ident : Text → Cel
    constant : Constant → Cel
    other_kind : Cel

  -- `Target`, nil for a call that is no method
  pub data Target : Type 0 where
    no_target : Target
    target : Cel → Target

  pub data Args : Type 0 where
    no_args : Args
    arg : Cel → Args → Args

-- `GetIdentExpr().GetName()`
unfoldable pub ident_name : Cel → Text
ident_name (ident x) = x
ident_name c = []

-- `GetConstExpr().GetStringValue()`
unfoldable pub string_of : Cel → Text
string_of (constant (string_value s)) = s
string_of c = []
