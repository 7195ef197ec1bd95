-- ===== src/Sql/Statements.antt =====
-- The nodes of the statements.
use dimdb.Prelude.{ℕ, Bool, false, List, [], Option, none}
use dimdb.Prelude.Int.{ℤ}
use dimdb.Value.{Value, new_null}
use dimdb.Sql.Terms.{
  RelAttrSqlNode, AttrSqlNode, ConditionSqlNode, RelationSqlNode, SelectItemSqlNode, JoinSqlNode,
  OrderBySqlNode,
}

pub record SelectSqlNode : Type 0 where
  pub select_items : List SelectItemSqlNode
  pub relations : List RelationSqlNode
  pub joins : List JoinSqlNode
  pub where_condition : Option ConditionSqlNode
  pub group_by : List RelAttrSqlNode
  pub having_condition : Option ConditionSqlNode
  pub order_by : List OrderBySqlNode
  pub distinct : Bool

abbrev pub new_select : SelectSqlNode
new_select = record {
  select_items = [];
  relations = [];
  joins = [];
  where_condition = none;
  group_by = [];
  having_condition = none;
  order_by = [];
  distinct = false;
}

pub data ArithOp : Type 0 where
  plus minus multiply divide modulo : ArithOp

pub record CalcSqlNode : Type 0 where
  pub expr : Option ℤ

abbrev pub new_calc : CalcSqlNode
new_calc = record { expr = none }

pub record InsertSqlNode : Type 0 where
  pub relation_name : List ℕ
  pub field_names : List (List ℕ)
  pub values : List (List Value)
  pub select : Option SelectSqlNode

abbrev pub new_insert : InsertSqlNode
new_insert = record { relation_name = []; field_names = []; values = []; select = none }

pub record DeleteSqlNode : Type 0 where
  pub relation_name : List ℕ
  pub condition : Option ConditionSqlNode

abbrev pub new_delete : DeleteSqlNode
new_delete = record { relation_name = []; condition = none }

pub record UpdateSqlNode : Type 0 where
  pub relation_name : List ℕ
  pub field_names : List (List ℕ)
  pub values : List Value
  pub condition : Option ConditionSqlNode

abbrev pub new_update : UpdateSqlNode
new_update = record { relation_name = []; field_names = []; values = []; condition = none }

pub record CreateTableSqlNode : Type 0 where
  pub relation_name : List ℕ
  pub field_defs : List AttrSqlNode
  pub primary_keys : List (List ℕ)
  pub unique_keys : List (List (List ℕ))
  pub foreign_keys : List (List (List ℕ))
  pub foreign_ref_tables : List (List ℕ)
  pub foreign_ref_fields : List (List (List ℕ))

abbrev pub new_create_table : CreateTableSqlNode
new_create_table = record {
  relation_name = [];
  field_defs = [];
  primary_keys = [];
  unique_keys = [];
  foreign_keys = [];
  foreign_ref_tables = [];
  foreign_ref_fields = [];
}

pub record DropTableSqlNode : Type 0 where
  pub relation_name : List ℕ
  pub cascade : Bool

abbrev pub new_drop_table : DropTableSqlNode
new_drop_table = record { relation_name = []; cascade = false }

pub data IndexType : Type 0 where
  normal_index unique_index primary_index : IndexType

pub record CreateIndexSqlNode : Type 0 where
  pub index_name : List ℕ
  pub relation_name : List ℕ
  pub field_names : List (List ℕ)
  pub index_type : IndexType
  pub unique : Bool

abbrev pub new_create_index : CreateIndexSqlNode
new_create_index = record {
  index_name = [];
  relation_name = [];
  field_names = [];
  index_type = normal_index;
  unique = false;
}

pub record DropIndexSqlNode : Type 0 where
  pub index_name : List ℕ
  pub relation_name : List ℕ

abbrev pub new_drop_index : DropIndexSqlNode
new_drop_index = record { index_name = []; relation_name = [] }

pub record DescTableSqlNode : Type 0 where
  pub relation_name : List ℕ

abbrev pub new_desc_table : DescTableSqlNode
new_desc_table = record { relation_name = [] }

pub data FieldTerminator : Type 0 where
  comma tab space custom : FieldTerminator

pub record LoadDataSqlNode : Type 0 where
  pub relation_name : List ℕ
  pub file_path : List ℕ
  pub field_names : List (List ℕ)
  pub terminator : FieldTerminator
  pub custom_terminator : List ℕ
  pub ignore_header : Bool
  pub skip_lines : ℕ

abbrev pub new_load_data : LoadDataSqlNode
new_load_data = record {
  relation_name = [];
  file_path = [];
  field_names = [];
  terminator = comma;
  custom_terminator = [];
  ignore_header = false;
  skip_lines = 0;
}

pub data VariableScope : Type 0 where
  session global local : VariableScope

pub record SetVariableSqlNode : Type 0 where
  pub variable_name : List ℕ
  pub value : Value
  pub scope : VariableScope

abbrev pub new_set_variable : SetVariableSqlNode
new_set_variable = record { variable_name = []; value = new_null; scope = session }

pub record ErrorSqlNode : Type 0 where
  pub error_msg : List ℕ

abbrev pub new_error : ErrorSqlNode
new_error = record { error_msg = [] }

pub record SourceSqlNode : Type 0 where
  pub filename : List ℕ

abbrev pub new_source : SourceSqlNode
new_source = record { filename = [] }
