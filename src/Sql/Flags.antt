-- ===== src/Sql/Flags.antt =====
-- The kinds of statements.

pub data SqlCommandFlag : Type 0 where
  scf_error scf_create_table scf_drop_table scf_create_index scf_drop_index scf_alter_table :
      SqlCommandFlag
  scf_truncate_table scf_create_view scf_drop_view scf_create_database scf_drop_database
        scf_create_schema :
      SqlCommandFlag
  scf_drop_schema scf_select scf_insert scf_update scf_delete scf_load_data : SqlCommandFlag
  scf_merge scf_call scf_grant scf_revoke scf_deny scf_grant_role : SqlCommandFlag
  scf_revoke_role scf_begin scf_commit scf_rollback scf_savepoint scf_release_savepoint :
      SqlCommandFlag
  scf_set_transaction scf_set scf_show scf_desc scf_calc scf_explain : SqlCommandFlag
  scf_analyze scf_optimize scf_check scf_repair scf_create_user scf_drop_user : SqlCommandFlag
  scf_alter_user scf_rename_user scf_set_password scf_backup scf_restore scf_dump : SqlCommandFlag
  scf_load scf_help scf_exit scf_quit scf_source scf_use : SqlCommandFlag
  scf_change_db scf_unknown : SqlCommandFlag
