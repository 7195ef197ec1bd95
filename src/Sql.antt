-- ===== src/Sql.antt =====
-- src/dimserver/sql/parser/sql_node.h: the syntax tree of a statement and the result of parsing. A
-- string is the list of its bytes, a pointer that can be null an option, and a member that its
-- constructor leaves uninitialised is none.
pub mod Flags
pub mod Terms
pub mod Statements
mod Tests
use dimdb.Prelude.{ℕ, Bool, true, false, List, [], ◌∷◌, ◌++◌, Option, none, some, length}
use dimdb.Sql.Terms.{
  RelAttrSqlNode, new_rel_attr, DataType, unknown, chars, dates, floats, ints, texts, booleans,
  nulls, max_type, AttrConstraint, none_constraint, not_null, primary_key, unique_constraint,
  default_constraint, check_constraint, AttrSqlNode, new_attr, OperandType, field_operand,
  value_operand, null_operand, OperandSqlNode, new_operand, CompOp, equal_to, not_equal, less_than,
  less_equal, great_than, great_equal, is_null, is_not_null, in_op, not_in, like, not_like,
  exists_op, not_exists, between, not_between, CompConditionSqlNode, new_comp_condition, LogicOp,
  and_op, or_op, ConditionSqlNode, new_condition, RelationSqlNode, new_relation, JoinType,
  inner_join, left_join, right_join, full_join, JoinSqlNode, new_join, OrderDirection, asc, desc,
  OrderBySqlNode, new_order_by, AggregationType, count_of, sum_of, avg_of, max_of, min_of,
  no_aggregation, SelectItemSqlNode, new_select_item,
}
use dimdb.Sql.Statements.{
  SelectSqlNode, new_select, ArithOp, plus, minus, multiply, divide, modulo, CalcSqlNode, new_calc,
  InsertSqlNode, new_insert, DeleteSqlNode, new_delete, UpdateSqlNode, new_update,
  CreateTableSqlNode, new_create_table, DropTableSqlNode, new_drop_table, IndexType, normal_index,
  unique_index, primary_index, CreateIndexSqlNode, new_create_index, DropIndexSqlNode,
  new_drop_index, DescTableSqlNode, new_desc_table, FieldTerminator, comma, tab, space, custom,
  LoadDataSqlNode, new_load_data, VariableScope, session, global, local, SetVariableSqlNode,
  new_set_variable, ErrorSqlNode, new_error, SourceSqlNode, new_source,
}
use dimdb.Sql.Flags.{
  SqlCommandFlag, scf_error, scf_create_table, scf_drop_table, scf_create_index, scf_drop_index,
  scf_alter_table, scf_truncate_table, scf_create_view, scf_drop_view, scf_create_database,
  scf_drop_database, scf_create_schema, scf_drop_schema, scf_select, scf_insert, scf_update,
  scf_delete, scf_load_data, scf_merge, scf_call, scf_grant, scf_revoke, scf_deny, scf_grant_role,
  scf_revoke_role, scf_begin, scf_commit, scf_rollback, scf_savepoint, scf_release_savepoint,
  scf_set_transaction, scf_set, scf_show, scf_desc, scf_calc, scf_explain, scf_analyze,
  scf_optimize, scf_check, scf_repair, scf_create_user, scf_drop_user, scf_alter_user,
  scf_rename_user, scf_set_password, scf_backup, scf_restore, scf_dump, scf_load, scf_help,
  scf_exit, scf_quit, scf_source, scf_use, scf_change_db, scf_unknown,
}

-- An expression and its subexpression, which can be null.
mutual
  pub data ExprSqlNode : Type 0 where
    expression : ArithOp → OperandSqlNode → OperandSqlNode → Subexpression → ExprSqlNode

  pub data Subexpression : Type 0 where
    no_expression : Subexpression
    subexpression : ExprSqlNode → Subexpression

abbrev pub new_expression : ExprSqlNode
new_expression = expression plus new_operand new_operand no_expression

-- The members of `ParsedSqlNode` but `explain`, which holds another statement.
pub record Members : Type 0 where
  pub flag : SqlCommandFlag
  pub error : ErrorSqlNode
  pub calc : CalcSqlNode
  pub selection : SelectSqlNode
  pub insertion : InsertSqlNode
  pub deletion : DeleteSqlNode
  pub update : UpdateSqlNode
  pub create_table : CreateTableSqlNode
  pub drop_table : DropTableSqlNode
  pub create_index : CreateIndexSqlNode
  pub drop_index : DropIndexSqlNode
  pub desc_table : DescTableSqlNode
  pub load_data : LoadDataSqlNode
  pub set_variable : SetVariableSqlNode
  pub source : SourceSqlNode

abbrev pub new_members : SqlCommandFlag → Members
new_members flag = record {
  flag = flag;
  error = new_error;
  calc = new_calc;
  selection = new_select;
  insertion = new_insert;
  deletion = new_delete;
  update = new_update;
  create_table = new_create_table;
  drop_table = new_drop_table;
  create_index = new_create_index;
  drop_index = new_drop_index;
  desc_table = new_desc_table;
  load_data = new_load_data;
  set_variable = new_set_variable;
  source = new_source;
}

mutual
  pub data ParsedSqlNode : Type 0 where
    parsed : Members → ExplainSqlNode → ParsedSqlNode

  pub data ExplainSqlNode : Type 0 where
    no_statement : ExplainSqlNode
    explained : ParsedSqlNode → ExplainSqlNode

abbrev pub new_parsed_of : SqlCommandFlag → ParsedSqlNode
new_parsed_of flag = parsed (new_members flag) no_statement

abbrev pub new_parsed : ParsedSqlNode
new_parsed = new_parsed_of scf_unknown

pub record ParsedSqlResult : Type 0 where
  pub sql_nodes : List (Option ParsedSqlNode)
  pub success : Bool
  pub error_msg : List ℕ

abbrev pub new_result : ParsedSqlResult
new_result = record { sql_nodes = []; success = true; error_msg = [] }

unfoldable pub add_sql_node : Option ParsedSqlNode → ParsedSqlResult → ParsedSqlResult
add_sql_node node r = record r { sql_nodes = r.sql_nodes ++ node ∷ [] }

unfoldable pub set_error : List ℕ → ParsedSqlResult → ParsedSqlResult
set_error msg r = record r { success = false; error_msg = msg }

unfoldable pub clear : ParsedSqlResult → ParsedSqlResult
clear r = record { sql_nodes = []; success = true; error_msg = [] }

unfoldable pub size : ParsedSqlResult → ℕ
size r = length r.sql_nodes

abbrev pub is_empty {ℓ} : {A : Type ℓ} → List A → Bool
is_empty [] = true
is_empty (node ∷ nodes) = false

unfoldable pub empty : ParsedSqlResult → Bool
empty r = is_empty r.sql_nodes
