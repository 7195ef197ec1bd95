-- ===== src/LogBuffer/Tests.antt =====
-- Runs of the buffer, and the theorems at a buffer with one entry and a writer that collects the entries.
use dimdb.Prelude.{
  ℕ, ◌+◌, ◌<◌, ◌≤◌, ◌≡◌, refl, Bool, some, List, [], ◌∷◌, ◌++◌, leb, length, if◌then◌else◌, arith,
}
use dimdb.Prelude.Int.{pos}
use dimdb.Rc.{ioerr_write, Rc, success, message_invaid, file_full}
use dimdb.Frame.{to_size}
use dimdb.LogEntry.{LogEntry, head_size, max_size, total_size}
use dimdb.LogBuffer.{
  append_locked, size, LogBuffer, new_buffer, append, flush, flush_batch, next, bytes_of, IsValid,
}
use dimdb.Text.{codes, decimal, decimal_ℤ, digits}
use dimdb.LogBuffer.Text.{to_string}
use dimdb.LogBuffer.Append.{append-IsValid}
use dimdb.LogBuffer.Flush.{write_all, flush_batch-IsValid, flush-write_all}
use dimdb.Prelude.{replicate, true}
use dimdb.LogEntry
use dimdb.LogEntry.{to_int32, set_lsn}
use dimdb.LogBuffer.{all, init, push, add_bytes, write_batch, finish, sub_bytes, should_flush}
use dimdb.LogBuffer.History.{
  recording, Reaches, here, onward, appends, flushes, IsComplete, Reaches-IsComplete,
}
use dimdb.Io.{failed, writen, Answer, moved, returned, all_soft, all_live, moves}
use dimdb.LogFile.{
  File, LogFileReader, LogFileWriter, new_reader, new_writer, header_bytes, le, iterate, write,
  append_file, bits_32,
}
use dimdb.LogFile.Entries.{IsEntry, file_bytes}
use dimdb.LogFile.Iterate.{visit_all}
use dimdb.LogFile.RoundTrip.{new_file}
use dimdb.LogBuffer.Recovery.{file_write, flush-iterate}

abbrev entry : LogEntry
entry = record {
  header = record { lsn = pos 8; data_size = pos 2; module_id = pos 0 };
  payload = 65 ∷ 66 ∷ [];
}

abbrev buffer : LogBuffer
buffer = record new_buffer {
  entries = entry ∷ [];
  current_bytes = 18;
  current_lsn = pos 8;
  flushed_lsn = pos 7;
  max_bytes = 40;
}

buffer-IsValid : IsValid buffer
unfolding bytes_of total_size to_size next
buffer-IsValid = record { counted = refl; contiguous = (refl, refl) }

abbrev most : ℕ → ℕ → ℕ → Bool
most bytes max_bytes threshold = leb max_bytes (bytes + bytes)

-- A log file that takes two entries.
abbrev collect : LogEntry → List LogEntry → List LogEntry × Rc
collect e written =
    if leb 2 (length written) then (written, file_full) else (written ++ e ∷ [], success)

abbrev two : List ℕ
two = 1 ∷ 2 ∷ []

append-IsValid_example :
    (max_size < length two + head_size
      → append (pos 0) (pos 1) two buffer ≡ some (buffer, pos 0, message_invaid))
    × (length two + head_size ≤ max_size
        → (b' : LogBuffer) × (e : LogEntry) × (append (pos 0) (pos 1) two buffer
            ≡ some (b', next (pos 8), success))
          × IsValid b'
          × (b'.entries ≡ entry ∷ e ∷ [])
          × (e.payload ≡ two)
          × (e.header.lsn ≡ next (pos 8))
          × (e.header.module_id ≡ pos 1)
          × (b'.current_lsn ≡ next (pos 8)))
append-IsValid_example =
    append-IsValid buffer buffer-IsValid (pos 0) (pos 1) two (omega arith) (omega arith)

flush_batch-IsValid_example : IsValid (flush_batch collect most 5 1 (entry ∷ []) buffer).1
flush_batch-IsValid_example =
    flush_batch-IsValid collect most 5 1 (entry ∷ []) buffer buffer-IsValid

flush-write_all_example :
    ((flush collect most 5 (entry ∷ entry ∷ []) buffer).0
      ≡ (write_all collect buffer.entries (entry ∷ entry ∷ [])).0)
    × ((flush collect most 5 (entry ∷ entry ∷ []) buffer).1.entries
        ≡ (write_all collect buffer.entries (entry ∷ entry ∷ [])).1)
    × ((flush collect most 5 (entry ∷ entry ∷ []) buffer).2
        ≡ (write_all collect buffer.entries (entry ∷ entry ∷ [])).2)
flush-write_all_example = flush-write_all collect most 5 (entry ∷ entry ∷ []) buffer

entry-IsEntry : IsEntry entry
entry-IsEntry = record {
  lsn_fits = omega arith;
  module_fits = omega arith;
  sized = refl;
  small = omega arith;
}

abbrev answers : List Answer
answers = replicate 40 (moved 7)

abbrev writer : LogFileWriter
writer = record new_writer { fd = pos 4; end_lsn = pos 100 }

abbrev reader : LogFileReader
reader = record new_reader { fd = pos 3 }

abbrev notice : LogEntry → ℕ → ℕ × Rc
notice e seen = (seen + 1, success)

flush-iterate_example :
    (w' : LogFileWriter) × (file : File) × (b' : LogBuffer) × (file' : File) × (flush file_write
        most 5
        (writer, new_file answers)
        buffer
      ≡ ((w', file), b', success))
    × (b'.entries ≡ [])
    × (iterate notice reader (pos 8) 0 (record file { answers = answers })
        ≡ returned
            ((visit_all notice (entry ∷ []) 0).0, file', (visit_all notice (entry ∷ []) 0).1))
flush-iterate_example =
    flush-iterate notice most 5 buffer writer reader (pos 8) 0 answers answers refl refl
      (entry-IsEntry, tt) (refl, tt) refl (unfold all_soft replicate in refl)
      (unfold file_bytes header_bytes le moves replicate in omega arith)
      (unfold all_live replicate in refl)
      (unfold file_bytes header_bytes le moves replicate in omega arith)

abbrev started : LogBuffer
started = record new_buffer { current_lsn = pos 7; flushed_lsn = pos 7; max_bytes = 100 }

abbrev numbered : LogEntry
numbered = record {
  header = record { lsn = pos 8; data_size = pos 2; module_id = pos 1 };
  payload = two;
}

abbrev filled : LogBuffer
filled = record started {
  entries = numbered ∷ [];
  current_bytes = 18;
  current_lsn = pos 8;
  total_appends = 1;
}

abbrev emptied : LogBuffer
emptied = record filled {
  entries = [];
  current_bytes = 0;
  flushed_lsn = pos 8;
  total_flushes = 1;
  total_wait_time_us = 5;
  signals = all ∷ [];
}

-- The answers of a write that takes the header and fails at the payload.
abbrev torn : List Answer
torn = moved 16 ∷ failed 5 ∷ []

abbrev with_answers : List Answer → LogFileWriter × File
with_answers given = (writer, new_file given)

abbrev after_flush : List Answer → LogFileWriter × File
after_flush given =
    (flush_batch (recording file_write) most 5 3 (with_answers given, []) filled).0.0

-- An append, a flush that fails behind the header, and one that succeeds.
append_flush :
    Reaches most
      (LogFileWriter × File)
      (init new_buffer (pos 7) (pos 100))
      []
      emptied
      (numbered ∷ [])
unfolding init append_locked LogEntry.init push next add_bytes to_int32 flush_batch write_batch
    finish sub_bytes should_flush total_size to_size set_lsn file_write write append_file writen
    header_bytes le bits_32 replicate dimdb.Prelude.take dimdb.Prelude.drop dimdb.Io.is_soft
append_flush =
    onward
      (onward (onward here (appends (pos 0) (pos 1) two (pos 8) success refl refl))
        (flushes file_write 5 3 (with_answers torn) (after_flush torn) ioerr_write refl))
      (flushes file_write 5 3 (with_answers answers) (after_flush answers) success refl)

Reaches-IsComplete_example : IsComplete (pos 7) emptied (numbered ∷ [])
Reaches-IsComplete_example =
    Reaches-IsComplete most (LogFileWriter × File) (pos 7) (pos 100) append_flush

-- The text of the buffer with one entry.
buffer_text :
    to_string (λ used limit. codes "45") (λ time flushes. codes "0") buffer
    ≡ codes
        "LogBuffer(current_bytes=18/40(45%), entries=1, current_lsn=8, flushed_lsn=7, total_appends=0, total_flushes=0, avg_flush_time=0ms)"
unfolding to_string size decimal decimal_ℤ digits
buffer_text = refl
