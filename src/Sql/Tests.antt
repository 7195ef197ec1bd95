-- ===== src/Sql/Tests.antt =====
-- A parsing result at work.
use dimdb.Prelude.{◌≡◌, refl, true, [], ◌∷◌, some}
use dimdb.Sql.Flags.{scf_select, scf_drop_table}
use dimdb.Sql.{new_result, new_parsed_of, add_sql_node, size, set_error, clear, empty}

two_statements :
    size (
      add_sql_node
        (some (new_parsed_of scf_drop_table))
        (add_sql_node (some (new_parsed_of scf_select)) new_result))
    ≡ 2
unfolding size add_sql_node
two_statements = refl

cleared : empty (clear (set_error (101 ∷ []) new_result)) ≡ true
unfolding empty clear
cleared = refl
