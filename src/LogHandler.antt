-- ===== src/LogHandler.antt =====
-- src/dimserver/storage/clog/log_handler.h, log_replayer.h and vacuous_log_handler.h: the interfaces
-- of the log to the rest of the storage, and the handler that keeps no log.
--
-- A record of operations stands for an abstract class: `H` and `R` are the states of the class that
-- implements it. The three overloads of `append` are virtual functions without a body, which
-- no class overrides, and `create` has no body either; they are left out.
use dimdb.Prelude.{ℕ, List}
use dimdb.Prelude.Int.{ℤ, pos}
use dimdb.Rc.{Rc, success}
use dimdb.LogEntry.{LogEntry, ModuleId}

pub record LogReplayer (R : Type 0) : Type 0 where
  pub replay : LogEntry → R → R × Rc
  pub on_done : R → R × Rc

-- `on_done` of the base class
abbrev pub on_done : {R : Type 0} → R → R × Rc
on_done r = (r, success)

-- `_append` is `append_entry` here; it gives the LSN first, as the argument that it writes.
pub record LogHandler (H : Type 0) : Type 1 where
  pub init : List ℕ → H → H × Rc
  pub start : H → H × Rc
  pub stop : H → H × Rc
  pub await_termination : H → H × Rc
  pub replay : {R : Type 0} → LogReplayer R → ℤ → H × R → (H × R) × Rc
  pub iterate : {S : Type 0} → (LogEntry → S → S × Rc) → ℤ → H × S → (H × S) × Rc
  pub wait_lsn : ℤ → H → H × Rc
  pub current_lsn : H → ℤ
  pub append_entry : ModuleId → List ℕ → H → ℤ × H × Rc

-- `VacuousLogHandler` has no members.
abbrev pub vacuous : LogHandler Unit
vacuous = record {
  init = λ dir h. (h, success);
  start = λ h. (h, success);
  stop = λ h. (h, success);
  await_termination = λ h. (h, success);
  replay = λ replayer start_lsn h. (h, success);
  iterate = λ consumer start_lsn h. (h, success);
  wait_lsn = λ lsn h. (h, success);
  current_lsn = λ h. pos 0;
  append_entry = λ id payload h. (pos 0, h, success);
}
