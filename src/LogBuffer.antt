-- ===== src/LogBuffer.antt =====
-- src/dimserver/storage/clog/log_buffer.h and log_buffer.cpp: `LogBuffer`, the entries that wait for
-- the log file.
--
-- `size_t` counters are numbers modulo 2 ^ 64, LSNs are `int64_t` and wrap around. `reaches` stands
-- for the comparison `current_bytes_ >= max_bytes_ * flush_threshold_` of `float` numbers, and a
-- threshold is given by its bits. The calls on the condition variable are recorded in `signals`. Log
-- lines are left out.
pub mod Text
pub mod Order
pub mod Append
pub mod Flush
pub mod Recovery
pub mod History
mod Tests
use dimdb.Prelude.{
  ℕ, zero, suc, ◌+◌, ◌-◌, ◌*◌, ◌%◌, ◌^◌, ◌≡◌, Bool, true, false, not, ◌&&◌, Option, none, some,
  List, [], ◌∷◌, ◌++◌, length, leb, ltb, ◌==◌, min, if◌then◌else◌,
}
use dimdb.Prelude.Int.{ℤ, pos, negsuc}
use dimdb.Rc.{Rc, success, is_fail}
use dimdb.Frame.{to_size}
use dimdb.LogEntry
use dimdb.LogEntry.{LogEntry, new_entry, total_size, set_lsn, lsn}

-- `notify_one` and `notify_all`
pub data Signal : Type 0 where
  one all : Signal

pub record LogBuffer : Type 0 where
  pub entries : List LogEntry
  pub current_bytes : ℕ
  pub current_lsn : ℤ
  pub flushed_lsn : ℤ
  pub max_bytes : ℕ
  pub flush_threshold : ℕ
  pub default_batch_size : ℕ
  pub total_appends : ℕ
  pub total_flushes : ℕ
  pub total_wait_time_us : ℕ
  pub signals : List Signal

abbrev pub new_buffer : LogBuffer
new_buffer = record {
  entries = [];
  current_bytes = 0;
  current_lsn = pos 0;
  flushed_lsn = pos 0;
  max_bytes = 16 * 1024 * 1024;
  flush_threshold = 126 * 2 ^ 23 + 2 ^ 22;
  default_batch_size = 1024;
  total_appends = 0;
  total_flushes = 0;
  total_wait_time_us = 0;
  signals = [];
}

-- `max_bytes > 0` of an `int32_t`
pub init : LogBuffer → ℤ → ℤ → LogBuffer
init b lsn (pos (suc max_bytes)) = record b {
  current_lsn = lsn;
  flushed_lsn = lsn;
  max_bytes = suc max_bytes;
}
init b lsn (pos zero) = record b { current_lsn = lsn; flushed_lsn = lsn }
init b lsn (negsuc n) = record b { current_lsn = lsn; flushed_lsn = lsn }

pub is_full : LogBuffer → Bool
is_full b = leb b.max_bytes b.current_bytes

pub size : LogBuffer → ℕ
size b = length b.entries

pub set_max_bytes : LogBuffer → ℕ → LogBuffer
set_max_bytes b max_bytes = record b { max_bytes = max_bytes }

pub set_flush_threshold : LogBuffer → ℕ → LogBuffer
set_flush_threshold b threshold = record b { flush_threshold = threshold }

-- `++current_lsn_`
pub next : ℤ → ℤ
next (pos n) = if n + 1 == 2 ^ 63 then negsuc (2 ^ 63 - 1) else pos (n + 1)
next (negsuc zero) = pos 0
next (negsuc (suc n)) = negsuc n

-- `current_bytes_ += total_size` and `current_bytes_ -= total_size`
pub add_bytes : ℕ → ℤ → ℕ
add_bytes bytes n = (bytes + to_size n) % 2 ^ 64

pub sub_bytes : ℕ → ℤ → ℕ
sub_bytes bytes n = (bytes + (2 ^ 64 - to_size n)) % 2 ^ 64

abbrev notify : Signal → LogBuffer → LogBuffer
notify signal b = record b { signals = b.signals ++ signal ∷ [] }

-- What both kinds of `append` do while they hold the mutex.
push : LogEntry → LogBuffer → LogBuffer
unfolding next add_bytes
push entry b = record b {
  entries = b.entries ++ set_lsn entry (next b.current_lsn) ∷ [];
  current_bytes = add_bytes b.current_bytes (total_size entry);
  current_lsn = next b.current_lsn;
  total_appends = (b.total_appends + 1) % 2 ^ 64;
}

module _ (reaches : ℕ → ℕ → ℕ → Bool) where
  pub should_flush : LogBuffer → Bool
  should_flush b = reaches b.current_bytes b.max_bytes b.flush_threshold

  -- `append(LogEntry&&)` behind its first loop, which waits while the buffer is full.
  pub append_entry_locked : LogEntry → LogBuffer → LogBuffer
  unfolding push
  append_entry_locked entry b =
      let b' = push entry b in if should_flush b' then notify one b' else b'

  -- The whole call, when no other thread comes between the loop and the rest. A call that waits is
  -- `none`.
  pub append_entry : LogEntry → LogBuffer → Option LogBuffer
  unfolding append_entry_locked
  append_entry entry b = if is_full b then none else some (append_entry_locked entry b)

-- `append(LSN&, LogModule, std::vector<char>&&)` behind its first loop, which waits while the buffer
-- is full, with the LSN that it stores through the reference.
pub append_locked : ℤ → ℤ → List ℕ → LogBuffer → LogBuffer × ℤ × Rc
unfolding push
append_locked lsn module_id payload b =
    let (entry, rc) = LogEntry.init new_entry lsn module_id payload in
    if is_fail rc then (b, lsn, rc) else (push entry b, next b.current_lsn, success)

-- The whole call, when no other thread comes between the loop and the rest.
pub append : ℤ → ℤ → List ℕ → LogBuffer → Option (LogBuffer × ℤ × Rc)
unfolding append_locked
append lsn module_id payload b =
    if is_full b then none else some (append_locked lsn module_id payload b)

-- The end of `flush_batch`: the statistics and the next signal. `elapsed` is the time that the loop
-- took, in microseconds.
finish : (ℕ → ℕ → ℕ → Bool) → ℕ → LogBuffer → LogBuffer
finish reaches elapsed b =
    let b' = record b {
      total_flushes = (b.total_flushes + 1) % 2 ^ 64;
      total_wait_time_us = (b.total_wait_time_us + elapsed) % 2 ^ 64;
    } in
    notify (if not (length b'.entries == 0) && should_flush reaches b' then one else all) b'

-- `writer.write(entry)` of a writer in the state of type `W`.
module _ {W : Type 0} (write : LogEntry → W → W × Rc) where
  -- The loop, by the number of rounds left. The third result is what `return rc` leaves the loop with.
  write_batch : ℕ → W → LogBuffer → W × LogBuffer × Rc
  unfolding sub_bytes
  write_batch zero w b = (w, b, success)
  write_batch (suc rounds) w b = elim b.entries [
    | [] ↦ (w, b, success)
    | entry ∷ entries ↦
        let (w', rc) = write entry w in
        let rest = write_batch rounds w' (record b {
          entries = entries;
          current_bytes = sub_bytes b.current_bytes (total_size entry);
          flushed_lsn = lsn entry;
        }) in
        if is_fail rc then (w', b, rc) else rest
  ]

  pub flush_batch : (ℕ → ℕ → ℕ → Bool) → ℕ → ℕ → W → LogBuffer → W × LogBuffer × Rc
  unfolding write_batch finish
  flush_batch reaches elapsed batch_size w b =
      if length b.entries == 0
      then (w, b, success)
      else let (w', b', rc) = write_batch (min batch_size (length b.entries)) w b in
        if is_fail rc then (w', b', rc) else (w', finish reaches elapsed b', success)

  pub flush : (ℕ → ℕ → ℕ → Bool) → ℕ → W → LogBuffer → W × LogBuffer × Rc
  flush reaches elapsed w b = flush_batch reaches elapsed (length b.entries) w b

-- The total size of the entries, as `current_bytes_` counts it.
pub bytes_of : List LogEntry → ℕ
bytes_of [] = 0
bytes_of (entry ∷ entries) = (to_size (total_size entry) + bytes_of entries) % 2 ^ 64

-- The entries have the LSNs from the one after `flushed` on, up to `current`.
abbrev pub IsContiguous : ℤ → List LogEntry → ℤ → Type 0
IsContiguous flushed [] current = flushed ≡ current
IsContiguous flushed (entry ∷ entries) current =
    (lsn entry ≡ next flushed) × IsContiguous (lsn entry) entries current

pub record IsValid (b : LogBuffer) : Type 0 where
  pub counted : b.current_bytes ≡ bytes_of b.entries
  pub contiguous : IsContiguous b.flushed_lsn b.entries b.current_lsn
