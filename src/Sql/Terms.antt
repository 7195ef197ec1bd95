-- ===== src/Sql/Terms.antt =====
-- What statements are made of: attributes, operands, conditions, relations.
use dimdb.Prelude.{ℕ, Bool, true, List, [], Option, none}
use dimdb.Value.{Value, new_null}

pub record RelAttrSqlNode : Type 0 where
  pub relation_name : List ℕ
  pub attribute_name : List ℕ
  pub alias : List ℕ

abbrev pub new_rel_attr : RelAttrSqlNode
new_rel_attr = record { relation_name = []; attribute_name = []; alias = [] }

pub data DataType : Type 0 where
  unknown chars dates floats ints texts : DataType
  booleans nulls max_type : DataType

pub data AttrConstraint : Type 0 where
  none_constraint not_null primary_key unique_constraint default_constraint check_constraint :
      AttrConstraint

pub record AttrSqlNode : Type 0 where
  pub name : List ℕ
  pub type : DataType
  pub length : ℕ
  pub nullable : Bool
  pub default_value : Value
  pub constraints : List AttrConstraint

abbrev pub new_attr : AttrSqlNode
new_attr = record {
  name = [];
  type = chars;
  length = 0;
  nullable = true;
  default_value = new_null;
  constraints = [];
}

pub data OperandType : Type 0 where
  field_operand value_operand null_operand : OperandType

pub record OperandSqlNode : Type 0 where
  pub type : OperandType
  pub rel_attr : RelAttrSqlNode
  pub value : Value

abbrev pub new_operand : OperandSqlNode
new_operand = record { type = value_operand; rel_attr = new_rel_attr; value = new_null }

pub data CompOp : Type 0 where
  equal_to not_equal less_than less_equal great_than great_equal : CompOp
  is_null is_not_null in_op not_in like not_like : CompOp
  exists_op not_exists between not_between : CompOp

pub record CompConditionSqlNode : Type 0 where
  pub left : OperandSqlNode
  pub op : Option CompOp
  pub right : OperandSqlNode

abbrev pub new_comp_condition : CompConditionSqlNode
new_comp_condition = record { left = new_operand; op = none; right = new_operand }

pub data LogicOp : Type 0 where
  and_op or_op : LogicOp

pub record ConditionSqlNode : Type 0 where
  pub logic_op : LogicOp
  pub comp_cond : CompConditionSqlNode

abbrev pub new_condition : ConditionSqlNode
new_condition = record { logic_op = and_op; comp_cond = new_comp_condition }

pub record RelationSqlNode : Type 0 where
  pub relation_name : List ℕ
  pub alias : List ℕ

abbrev pub new_relation : RelationSqlNode
new_relation = record { relation_name = []; alias = [] }

pub data JoinType : Type 0 where
  inner_join left_join right_join full_join : JoinType

pub record JoinSqlNode : Type 0 where
  pub join_type : JoinType
  pub left_table : RelationSqlNode
  pub right_table : RelationSqlNode
  pub conditions : List ConditionSqlNode

abbrev pub new_join : JoinSqlNode
new_join = record {
  join_type = inner_join;
  left_table = new_relation;
  right_table = new_relation;
  conditions = [];
}

pub data OrderDirection : Type 0 where
  asc desc : OrderDirection

pub record OrderBySqlNode : Type 0 where
  pub attr : RelAttrSqlNode
  pub direction : OrderDirection

abbrev pub new_order_by : OrderBySqlNode
new_order_by = record { attr = new_rel_attr; direction = asc }

pub data AggregationType : Type 0 where
  count_of sum_of avg_of max_of min_of no_aggregation : AggregationType

pub record SelectItemSqlNode : Type 0 where
  pub attr : RelAttrSqlNode
  pub agg_type : AggregationType
  pub alias : List ℕ

abbrev pub new_select_item : SelectItemSqlNode
new_select_item = record { attr = new_rel_attr; agg_type = no_aggregation; alias = [] }
