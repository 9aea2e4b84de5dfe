-- ===== src/Cedar/FromCedar/Tree.antt =====
-- The JSON trees of Cedar's conditions, as far as the mapper tells their nodes apart: a node has one of the
-- fields of `NodeJSON`.
use policy_conditions.Base.Text.{Text}

-- `types.Value` by the cases of the mapper, each with the text that `String` gives for it
pub data CedarValue : Type 0 where
  string_value : Text → CedarValue
  entity_uid : Text → Text → Text → CedarValue
  other_value : Text → CedarValue

-- the operators between two nodes that make a comparison
pub data Relation : Type 0 where
  equals not_equals greater_than greater_or_equal less_than less_or_equal is_in contains : Relation

-- the methods of decimals
pub data Method : Type 0 where
  greater_method greater_or_equal_method less_method less_or_equal_method : Method

mutual
  pub data Node : Type 0 where
    value : CedarValue → Node
    var : Text → Node
    set : Nodes → Node
    access : Node → Text → Node
    conjunction : Node → Node → Node
    disjunction : Node → Node → Node
    negation : Node → Node
    relation : Relation → Node → Node → Node
    method : Method → Nodes → Node
    is : Node → Text → Node
    is_and_in : Node → Text → Node → Node
    has : Node → Text → Node
    like : Node → Text → Node
    if_then_else : Node → Node → Node → Node
    calculation : Node
    other_node : Node

  pub data Nodes : Type 0 where
    nil : Nodes
    cons : Node → Nodes → Nodes

-- `ConditionJSON`, and its kinds
pub data Kind : Type 0 where
  when unless other_kind : Kind

pub record ConditionJson : Type 0 where
  pub kind : Kind
  pub body : Node
