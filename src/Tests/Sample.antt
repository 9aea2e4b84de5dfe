-- ===== src/Tests/Sample.antt =====
-- Data to run the definitions with. On the platform numbers are compared as texts, and no text is a time.
use policy_conditions.Base.{none, some, []}
use policy_conditions.Base.Text.{Text, codes, text_eq, text_lt}
use policy_conditions.Types.Entity.{entity, equals, absent}
use policy_conditions.Types.Value.{variable}
use policy_conditions.Types.Value.Compare.{pr}
use policy_conditions.Conditions.Ast.{Expression, attribute}
use policy_conditions.Policy.Info.{ConditionInfo}
use policy_conditions.Types.Platform.{Platform}

abbrev pub sample : Platform
sample = record {
  Float = Text;
  parse_float = some;
  float_lt = text_lt;
  float_eq = text_eq;
  Time = Text;
  parse_time = λ s. none;
  format_time = λ t. t;
  time_before = text_lt;
  time_equal = text_eq;
  json_fields = λ s. none;
}

abbrev pub present : Text → Expression sample
present t = attribute (variable (entity [] equals (some t) absent)) pr none

abbrev pub a_pr : Expression sample
a_pr = present (codes "a")

abbrev pub b_pr : Expression sample
b_pr = present (codes "b")

abbrev pub c_pr : Expression sample
c_pr = present (codes "c")

abbrev pub condition_of : Text → ConditionInfo
condition_of t = record { rule = t; action = codes "allow" }
