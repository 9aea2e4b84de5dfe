-- ===== src/Cedar/Conditions/Grammar.antt =====
-- The operators of Cedar by their precedence, a relation tighter than `&&` and `&&` tighter than `||`, and
-- the clauses of a policy, all of which have to be met. Only whole comparisons are told apart.
use policy_conditions.Base.{Bool, not, ◌&&◌, ◌||◌, ◌≡◌, Option, some, ◌∷◌, ◌++◌}
use policy_conditions.Base.Text.{Text, codes}
use policy_conditions.Types.Platform.{Platform}
use policy_conditions.Types.Value.{Value}
use policy_conditions.Types.Value.Compare.{CompareOperator}
use policy_conditions.Conditions.Ast.{attribute}
use policy_conditions.Conditions.Meaning.{Truth}
use policy_conditions.Conditions.Walk.{AttributeMap}
use policy_conditions.Cedar.Conditions.{map_filter_attr_expr}

-- from the tightest to the loosest
pub data Level : Type 0 where
  relation conjunction disjunction : Level

-- A text of a level, and its value where `ρ` says which comparisons hold.
pub data Denotes {P : Platform} (unquote decimal : Text → Option Text) (n : AttributeMap)
    (ρ : Truth P) : Level → Text → Bool → Type 0 where
  compared :
      (v : Value P) (op : CompareOperator) (w : Option (Value P)) {t : Text}
      → map_filter_attr_expr unquote decimal n v op w ≡ some t
      → Denotes unquote decimal n ρ relation t (ρ (attribute v op w))
  grouped :
      {t : Text} {b : Bool}
      → Denotes unquote decimal n ρ disjunction t b
      → Denotes unquote decimal n ρ relation (codes "(" ++ (t ++ codes ")")) b
  negated :
      {t : Text} {b : Bool}
      → Denotes unquote decimal n ρ disjunction t b
      → Denotes unquote decimal n ρ relation (codes "!( " ++ (t ++ codes " )")) (not b)
  after_space :
      {t : Text} {b : Bool}
      → Denotes unquote decimal n ρ relation t b
      → Denotes unquote decimal n ρ relation (32 ∷ t) b
  conjoined :
      {s t : Text} {a b : Bool}
      → Denotes unquote decimal n ρ conjunction s a
      → Denotes unquote decimal n ρ relation t b
      → Denotes unquote decimal n ρ conjunction (s ++ (codes " && " ++ t)) (a && b)
  disjoined :
      {s t : Text} {a b : Bool}
      → Denotes unquote decimal n ρ disjunction s a
      → Denotes unquote decimal n ρ conjunction t b
      → Denotes unquote decimal n ρ disjunction (s ++ (codes " || " ++ t)) (a || b)
  of_relation :
      {t : Text} {b : Bool}
      → Denotes unquote decimal n ρ relation t b
      → Denotes unquote decimal n ρ conjunction t b
  of_conjunction :
      {t : Text} {b : Bool}
      → Denotes unquote decimal n ρ conjunction t b
      → Denotes unquote decimal n ρ disjunction t b

-- Lines of clauses, and whether all of them are met.
pub data Clauses {P : Platform} (unquote decimal : Text → Option Text) (n : AttributeMap)
    (ρ : Truth P) : Text → Bool → Type 0 where
  when :
      {t : Text} {b : Bool}
      → Denotes unquote decimal n ρ disjunction t b
      → Clauses unquote decimal n ρ (codes "when { " ++ (t ++ codes " }")) b
  unless :
      {t : Text} {b : Bool}
      → Denotes unquote decimal n ρ disjunction t b
      → Clauses unquote decimal n ρ (codes "unless { " ++ (t ++ codes " }")) (not b)
  next_line :
      {s t : Text} {a b : Bool}
      → Clauses unquote decimal n ρ s a
      → Clauses unquote decimal n ρ t b
      → Clauses unquote decimal n ρ (s ++ (10 ∷ t)) (a && b)
