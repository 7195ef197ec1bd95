-- ===== src/LogEntry.antt =====
-- src/dimserver/storage/clog/log_module.h, log_entry.h and log_entry.cpp: log modules and entries.
--
-- A byte is a number below 256. `data.size()` and the sizes are `int32_t`, cut to 32 bits where the
-- code casts. The names of modules and the texts of `to_string` are left out.
pub mod Text
pub mod Size
use dimdb.Prelude.{
  ℕ, zero, suc, ◌+◌, ◌-◌, ◌*◌, ◌%◌, ◌^◌, ◌≡◌, Bool, true, false, List, [], length, ltb, leb,
  if◌then◌else◌,
}
use dimdb.Prelude.Int.{ℤ, pos, negsuc, ltb_ℤ}
use dimdb.Rc.{Rc, success, message_invaid}

pub data ModuleId : Type 0 where
  buffer_pool bplus_tree record_manager transaction : ModuleId

-- `static_cast<int32_t>(m_id)`
abbrev pub index : ModuleId → ℤ
index buffer_pool = pos 0
index bplus_tree = pos 1
index record_manager = pos 2
index transaction = pos 3

pub record LogHeader : Type 0 where
  pub lsn : ℤ
  pub data_size : ℤ
  pub module_id : ℤ

abbrev pub head_size : ℕ
head_size = 16

pub record LogEntry : Type 0 where
  pub header : LogHeader
  pub payload : List ℕ

abbrev pub empty_header : LogHeader
empty_header = record { lsn = pos 0; data_size = pos 0; module_id = pos 0 }

abbrev pub new_entry : LogEntry
new_entry = record { header = empty_header; payload = [] }

-- The entry that a move leaves behind, and the one that it makes.
pub move : LogEntry → LogEntry × LogEntry
move other = (record { header = empty_header; payload = [] }, other)

abbrev pub max_size : ℕ
max_size = 4 * 1024 * 1024

abbrev pub max_payload_size : ℕ
max_payload_size = max_size - head_size

-- `static_cast<int32_t>` of a `size_t`.
unfoldable pub to_int32 : ℕ → ℤ
to_int32 n =
    if ltb (n % 2 ^ 32) (2 ^ 31) then pos (n % 2 ^ 32) else negsuc (2 ^ 32 - 1 - n % 2 ^ 32)

-- `init`, with the module's id as a number. A failed call changes nothing.
unfoldable pub init : LogEntry → ℤ → ℤ → List ℕ → LogEntry × Rc
init entry lsn module_id payload =
    if ltb_ℤ (pos max_payload_size) (to_int32 (length payload)) then (entry, message_invaid) else (
      record {
        header = record { lsn = lsn; data_size = to_int32 (length payload); module_id = module_id };
        payload = payload;
      },
      success,
    )

pub payload_size : LogEntry → ℤ
payload_size entry = entry.header.data_size

-- `m_header.data_size + LogHeader::HEAD_SIZE`
abbrev pub plus_head : ℤ → ℤ
plus_head (pos n) = pos (n + head_size)
plus_head (negsuc n) = if ltb n head_size then pos (head_size - 1 - n) else negsuc (n - head_size)

unfoldable pub total_size : LogEntry → ℤ
total_size entry = plus_head entry.header.data_size

unfoldable pub set_lsn : LogEntry → ℤ → LogEntry
set_lsn entry lsn = record entry { header = record entry.header { lsn = lsn } }

abbrev pub lsn : LogEntry → ℤ
lsn entry = entry.header.lsn
