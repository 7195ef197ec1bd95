-- ===== src/Rc.antt =====
-- src/dimserver/common/rc.h and rc.cpp: the result codes.
pub mod Names
use dimdb.Prelude.{zero, suc, Bool, true, false, not}
use dimdb.Prelude.Int.{ℤ, pos, negsuc}

pub data Rc : Type 0 where
  success internal invalid_argument out_of_memory unimplemented timeout file_not_found file_exists
        file_permission file_corrupted file_opend file_not_open file_full file_name_invalid
        file_create_err buffer_pool_full page_not_found page_unpin_error sql_syntax sql_semantic
        sql_execution table_not_exist table_exist field_not_exist field_type_mismatch index_exist
        index_not_found txn_aborted txn_conflict lock_timeout type_mismatch type_not_supported
        value_out_of_range expr_invalid expr_type_mismatch expr_evaluation not_authorized
        config_error ioerr_read ioerr_write ioerr_seek message_invaid no_mem_pool
        bufferpool_invalid_page_num bufferpool_opened schema_db_exist :
      Rc

abbrev pub code : Rc → ℤ
code success = pos 0
code internal = negsuc 0
code invalid_argument = negsuc 1
code out_of_memory = negsuc 2
code unimplemented = negsuc 3
code timeout = negsuc 4
code file_not_found = negsuc 99
code file_exists = negsuc 100
code file_permission = negsuc 101
code file_corrupted = negsuc 102
code file_opend = negsuc 103
code file_not_open = negsuc 104
code file_full = negsuc 109
code file_name_invalid = negsuc 119
code file_create_err = negsuc 129
code buffer_pool_full = negsuc 199
code page_not_found = negsuc 200
code page_unpin_error = negsuc 201
code sql_syntax = negsuc 299
code sql_semantic = negsuc 300
code sql_execution = negsuc 301
code table_not_exist = negsuc 302
code table_exist = negsuc 303
code field_not_exist = negsuc 304
code field_type_mismatch = negsuc 305
code index_exist = negsuc 306
code index_not_found = negsuc 307
code txn_aborted = negsuc 399
code txn_conflict = negsuc 400
code lock_timeout = negsuc 401
code type_mismatch = negsuc 499
code type_not_supported = negsuc 500
code value_out_of_range = negsuc 501
code expr_invalid = negsuc 599
code expr_type_mismatch = negsuc 600
code expr_evaluation = negsuc 601
code not_authorized = negsuc 699
code config_error = negsuc 700
code ioerr_read = negsuc 709
code ioerr_write = negsuc 710
code ioerr_seek = negsuc 711
code message_invaid = negsuc 749
code no_mem_pool = negsuc 759
code bufferpool_invalid_page_num = negsuc 799
code bufferpool_opened = negsuc 809
code schema_db_exist = negsuc 819

-- `rc == RC::SUCCESS`
abbrev pub is_zero : ℤ → Bool
is_zero (pos zero) = true
is_zero (pos (suc n)) = false
is_zero (negsuc n) = false

abbrev pub is_succ : Rc → Bool
is_succ rc = is_zero (code rc)

abbrev pub is_fail : Rc → Bool
is_fail rc = not (is_succ rc)
