-- ===== src/Rc/Names.antt =====
-- src/dimserver/common/rc.cpp: `strrc`.
use dimdb.Prelude.{ℕ, List}
use dimdb.Text.{codes}
use dimdb.Rc.{
  Rc, success, internal, invalid_argument, out_of_memory, unimplemented, timeout, file_not_found,
  file_exists, file_permission, file_corrupted, file_opend, file_not_open, file_full,
  file_name_invalid, file_create_err, buffer_pool_full, page_not_found, page_unpin_error,
  sql_syntax, sql_semantic, sql_execution, table_not_exist, table_exist, field_not_exist,
  field_type_mismatch, index_exist, index_not_found, txn_aborted, txn_conflict, lock_timeout,
  type_mismatch, type_not_supported, value_out_of_range, expr_invalid, expr_type_mismatch,
  expr_evaluation, not_authorized, config_error, ioerr_read, ioerr_write, ioerr_seek,
  message_invaid, no_mem_pool, bufferpool_invalid_page_num, bufferpool_opened, schema_db_exist,
}

unfoldable pub strrc : Rc → List ℕ
strrc success = codes "SUCCESS"
strrc internal = codes "INTERNAL"
strrc invalid_argument = codes "INVALID_ARGUMENT"
strrc out_of_memory = codes "OUT_OF_MEMORY"
strrc unimplemented = codes "UNIMPLEMENTED"
strrc timeout = codes "TIMEOUT"
strrc file_not_found = codes "FILE_NOT_FOUND"
strrc file_exists = codes "FILE_EXISTS"
strrc file_permission = codes "FILE_PERMISSION"
strrc file_corrupted = codes "FILE_CORRUPTED"
strrc file_opend = codes "FILE_OPEND"
strrc file_not_open = codes "FILE_NOT_OPEN"
strrc file_full = codes "FILE_FULL"
strrc file_name_invalid = codes "FILE_NAME_INVALID"
strrc file_create_err = codes "FILE_CREATE_ERR"
strrc buffer_pool_full = codes "BUFFER_POOL_FULL"
strrc page_not_found = codes "PAGE_NOT_FOUND"
strrc page_unpin_error = codes "PAGE_UNPIN_ERROR"
strrc sql_syntax = codes "SQL_SYNTAX"
strrc sql_semantic = codes "SQL_SEMANTIC"
strrc sql_execution = codes "SQL_EXECUTION"
strrc table_not_exist = codes "TABLE_NOT_EXIST"
strrc table_exist = codes "TABLE_EXIST"
strrc field_not_exist = codes "FIELD_NOT_EXIST"
strrc field_type_mismatch = codes "FIELD_TYPE_MISMATCH"
strrc index_exist = codes "INDEX_EXIST"
strrc index_not_found = codes "INDEX_NOT_FOUND"
strrc txn_aborted = codes "TXN_ABORTED"
strrc txn_conflict = codes "TXN_CONFLICT"
strrc lock_timeout = codes "LOCK_TIMEOUT"
strrc type_mismatch = codes "TYPE_MISMATCH"
strrc type_not_supported = codes "TYPE_NOT_SUPPORTED"
strrc value_out_of_range = codes "VALUE_OUT_OF_RANGE"
strrc expr_invalid = codes "EXPR_INVALID"
strrc expr_type_mismatch = codes "EXPR_TYPE_MISMATCH"
strrc expr_evaluation = codes "EXPR_EVALUATION"
strrc not_authorized = codes "NOT_AUTHORIZED"
strrc config_error = codes "CONFIG_ERROR"
strrc ioerr_read = codes "IOERR_READ"
strrc ioerr_write = codes "IOERR_WRITE"
strrc ioerr_seek = codes "IOERR_SEEK"
strrc message_invaid = codes "MESSAGE_INVAID"
strrc no_mem_pool = codes "NO_MEM_POOL"
strrc bufferpool_invalid_page_num = codes "BUFFERPOOL_INVALID_PAGE_NUM"
strrc bufferpool_opened = codes "BUFFERPOOL_OPENED"
strrc schema_db_exist = codes "SCHEMA_DB_EXIST"
