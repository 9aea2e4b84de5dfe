-- ===== src/Cedar/FromCedar/Meaning.antt =====
-- The condition that is made of a Cedar tree has the tree's logical structure.
use policy_conditions.Base.{Bool, false, not, ◌&&◌, ◌||◌, Option, ◌++◌, if◌then◌else◌}
use policy_conditions.Base.Text.{Text, codes, contains}
use policy_conditions.Base.Except.{Except, raise, done}
use policy_conditions.Types.Platform.{Platform}
use policy_conditions.Types.Quote.{quote}
use policy_conditions.Types.Value.Compare.{eq, ne, gt, ge, lt, le, within, co, is_type}
use policy_conditions.Conditions.Ast.{Expression}
use policy_conditions.Conditions.Meaning.{Truth, holds}
use policy_conditions.Cedar.FromCedar.Tree
use policy_conditions.Cedar.FromCedar.Tree.{
  Node, conjunction, disjunction, negation, relation, method, is_and_in, has, like, equals,
  not_equals, greater_than, greater_or_equal, less_than, less_or_equal, is_in, greater_method,
  greater_or_equal_method, less_method, less_or_equal_method,
}
use policy_conditions.Cedar.FromCedar.Leaves.{CedarError, map_like}
use policy_conditions.Cedar.FromCedar.Leaves.Operands.{
  operand, compares, present, sides, group_text,
}

module _ {P : Platform} (unquote : Text → Option Text) (ρ : Truth P) where
  -- the value of what a node is mapped to
  abbrev value : Except CedarError (Expression P) → Bool
  value (raise e) = false
  value (done e) = holds ρ e

  -- The value of a tree, where `ρ` says which comparisons hold. The texts of the arguments of a method, and
  -- patterns, are taken as they are mapped.
  abbrev pub node_holds : Node → Bool
  node_holds (conjunction l r) = node_holds l && node_holds r
  node_holds (disjunction l r) = node_holds l || node_holds r
  node_holds (negation n) = not (node_holds n)
  node_holds (relation equals l r) = compares ρ eq (operand l) (operand r)
  node_holds (relation not_equals l r) = compares ρ ne (operand l) (operand r)
  node_holds (relation greater_than l r) = compares ρ gt (operand l) (operand r)
  node_holds (relation greater_or_equal l r) = compares ρ ge (operand l) (operand r)
  node_holds (relation less_than l r) = compares ρ lt (operand l) (operand r)
  node_holds (relation less_or_equal l r) = compares ρ le (operand l) (operand r)
  node_holds (relation is_in l r) = compares ρ within (operand l) (operand r)
  node_holds (relation Tree.contains l r) = compares ρ co (operand l) (operand r)
  node_holds (method greater_method ns) = compares ρ gt (sides ρ ns).0 (sides ρ ns).1
  node_holds (method greater_or_equal_method ns) = compares ρ ge (sides ρ ns).0 (sides ρ ns).1
  node_holds (method less_method ns) = compares ρ lt (sides ρ ns).0 (sides ρ ns).1
  node_holds (method less_or_equal_method ns) = compares ρ le (sides ρ ns).0 (sides ρ ns).1
  node_holds (Tree.is n type) = compares ρ is_type (operand n) type
  node_holds (is_and_in n type m) =
      compares ρ is_type (operand n) type && compares ρ within (operand n) (group_text ρ m)
  node_holds (has n attr) =
      present ρ
        (operand n ++ (codes "." ++ (if contains attr (codes " ") then quote attr else attr)))
  node_holds (like n pattern) = value (map_like P unquote n pattern)
  node_holds n = false
