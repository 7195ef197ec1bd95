-- ===== src/LogEntry/Text.antt =====
-- src/dimserver/storage/clog/log_module.h and log_entry.cpp: the texts of modules and entries.
use dimdb.Prelude.{ℕ, List, ◌++◌, take, if◌then◌else◌}
use dimdb.Prelude.Int.{ℤ}
use dimdb.Text.{codes, decimal_ℤ}
use dimdb.Frame.{eq_ℤ, to_size}
use dimdb.LogEntry.{
  buffer_pool, bplus_tree, record_manager, transaction, index, LogHeader, LogEntry,
}

-- `LogModule::name` of the module with the number: any `int32_t` may be cast to an `Id`.
unfoldable pub module_name : ℤ → List ℕ
module_name id =
    if eq_ℤ id (index buffer_pool)
    then codes "BUFFER_POOL"
    else if eq_ℤ id (index bplus_tree)
    then codes "BPLUS_TREE"
    else if eq_ℤ id (index record_manager)
    then codes "RECORD_MANAGER"
    else if eq_ℤ id (index transaction)
    then codes "TRANSACTION"
    else codes "UNKNOWN"

-- `LogHeader::to_string`
unfoldable pub header_text : LogHeader → List ℕ
unfolding module_name
header_text h =
    codes "lsn="
    ++ decimal_ℤ h.lsn
    ++ codes ",size="
    ++ decimal_ℤ h.data_size
    ++ codes ",module_id="
    ++ decimal_ℤ h.module_id
    ++ codes ",module_name="
    ++ module_name h.module_id

-- `LogEntry::to_string`; the read of `payload_size()` bytes is undefined past the end of the data.
unfoldable pub entry_text : LogEntry → List ℕ
unfolding header_text
entry_text entry =
    header_text entry.header
    ++ codes ",data="
    ++ take (to_size entry.header.data_size) entry.payload
