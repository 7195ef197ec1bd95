-- ===== src/LogFile.antt =====
-- src/dimserver/storage/clog/log_file.h and log_file.cpp: `LogFileReader` and `LogFileWriter`.
--
-- A file is the list of its bytes with the offset of the reader and the answers that the operating
-- system gives next. What `::open` returns is an argument. `lseek` on a regular file fails only for
-- an offset before its start. A header is written as its 16 bytes in memory: little-endian, in the
-- order of its members. Log lines are left out.
pub mod Text
pub mod Manager
pub mod Bytes
pub mod Entries
pub mod Iterate
pub mod Landing
pub mod Skip
pub mod Append
pub mod RoundTrip
mod Tests
use dimdb.Prelude.{
  ℕ, zero, suc, ◌+◌, ◌-◌, ◌*◌, ◌/◌, ◌%◌, ◌^◌, ◌<◌, ◌≡◌, Bool, true, false, not, ◌&&◌, ◌||◌, List,
  [], ◌∷◌, ◌++◌, length, take, drop, ltb, leb, ◌==◌, if◌then◌else◌,
}
use dimdb.Prelude.Int.{ℤ, pos, negsuc, ltb_ℤ}
use dimdb.Rc.{
  Rc, success, file_not_found, file_opend, file_not_open, file_full, ioerr_seek, ioerr_read,
  ioerr_write, is_fail, is_zero,
}
use dimdb.Io.{Answer, Run, returned, running, thrown, ◌>>=◌, readn, writen}
use dimdb.Frame.{to_size, eq_ℤ}
use dimdb.LogEntry
use dimdb.LogEntry.{LogHeader, LogEntry, head_size, max_payload_size, to_int32, new_entry, lsn}

-- The `k` low bytes of a number, the lowest first.
unfoldable pub le : ℕ → ℕ → List ℕ
le zero n = []
le (suc k) n = n % 256 ∷ le k (n / 256)

unfoldable pub from_le : List ℕ → ℕ
from_le [] = 0
from_le (b ∷ bytes) = b + 256 * from_le bytes

-- The bits of an `int32_t`, and the `int64_t` of 64 bits.
unfoldable pub bits_32 : ℤ → ℕ
bits_32 (pos n) = n % 2 ^ 32
bits_32 (negsuc n) = 2 ^ 32 - 1 - n % 2 ^ 32

unfoldable pub to_int64 : ℕ → ℤ
to_int64 n = if ltb n (2 ^ 63) then pos n else negsuc (2 ^ 64 - 1 - n)

unfoldable pub header_bytes : LogHeader → List ℕ
header_bytes h = le 8 (to_size h.lsn) ++ (le 4 (bits_32 h.data_size) ++ le 4 (bits_32 h.module_id))

unfoldable pub header_of : List ℕ → LogHeader
header_of bytes = record {
  lsn = to_int64 (from_le (take 8 bytes));
  data_size = to_int32 (from_le (take 4 (drop 8 bytes)));
  module_id = to_int32 (from_le (drop 12 bytes));
}

pub record File : Type 0 where
  pub content : List ℕ
  pub offset : ℕ
  pub answers : List Answer

-- `readn` of the file from its offset on.
unfoldable pub read_file : ℕ → File → Run (ℤ × List ℕ × File)
read_file size file = do
  (ret, bytes, rest, answers) ← readn file.answers size (drop file.offset file.content) []
  returned
      (ret, bytes, record file { offset = length file.content - length rest; answers = answers })

-- `writen` to the file, which is opened with O_APPEND.
unfoldable pub append_file : List ℕ → File → Run (ℕ × File)
append_file bytes file = do
  (ret, content, answers) ← writen file.answers bytes file.content
  returned (ret, record file { content = content; answers = answers })

pub record LogFileReader : Type 0 where
  pub filename : List ℕ
  pub fd : ℤ

abbrev pub new_reader : LogFileReader
new_reader = record { filename = []; fd = negsuc 0 }

abbrev pub is_negative : ℤ → Bool
is_negative z = ltb_ℤ z (pos 0)

pub open_reader : LogFileReader → List ℕ → ℤ → LogFileReader × Rc
open_reader r filename fd =
    (record { filename = filename; fd = fd }, (if is_negative fd then file_not_found else success))

pub close_reader : LogFileReader → LogFileReader × Rc
close_reader r =
    if is_negative r.fd then (r, file_not_found) else (record r { fd = negsuc 0 }, success)

-- The loop of `go_to`. `fuel` bounds the rounds: each reads 16 bytes.
unfoldable pub go_to_loop : ℕ → ℤ → File → Run (File × Rc)
go_to_loop zero lsn file = running
go_to_loop (suc fuel) lsn file = do
  (ret, bytes, file') ← read_file head_size file
  let header = header_of bytes
  let on = go_to_loop fuel lsn (record file' { offset = file'.offset + head_size })
  if not (is_zero ret)
      then returned (file', (if eq_ℤ ret (negsuc 0) then success else ioerr_read))
      else if not (ltb_ℤ header.lsn lsn)
      then returned (
          if ltb file'.offset head_size
          then (file', ioerr_seek)
          else (record file' { offset = file'.offset - head_size }, success))
      else if ltb_ℤ header.data_size (pos 0) || ltb_ℤ (pos max_payload_size) header.data_size
      then returned (file', ioerr_read)
      else on

unfoldable pub go_to : LogFileReader → ℤ → File → Run (File × Rc)
go_to r lsn file =
    if is_negative r.fd
    then returned (file, file_not_found)
    else go_to_loop (suc (length file.content)) lsn (record file { offset = 0 })

-- `callback`, with the state that it keeps.
module _ {S : Type 0} (callback : LogEntry → S → S × Rc) where
  -- The loop of `iterate`. A vector of a negative size throws; the result of `init` is ignored.
  unfoldable pub iterate_loop : ℕ → S → File → Run (S × File × Rc)
  iterate_loop zero s file = running
  iterate_loop (suc fuel) s file = do
    (ret, bytes, file') ← read_file head_size file
    let header = header_of bytes
    if not (is_zero ret)
        then returned (s, file', (if eq_ℤ ret (negsuc 0) then success else ioerr_read))
        else if is_negative header.data_size
        then thrown
        else do
          (ret', payload, file'') ← read_file (to_size header.data_size) file'
          let (s', rc) = callback (LogEntry.init new_entry header.lsn header.module_id payload).0 s
          let on = iterate_loop fuel s' file''
          if not (is_zero ret')
              then returned (s, file'', ioerr_read)
              else if is_fail rc
              then returned (s', file'', rc)
              else on

  unfoldable pub iterate : LogFileReader → ℤ → S → File → Run (S × File × Rc)
  iterate r start_lsn s file = if is_negative r.fd then returned (s, file, file_not_found) else do
    (file', rc) ← go_to r start_lsn file
    if is_fail rc then returned (s, file', rc) else iterate_loop (suc (length file.content)) s file'

pub record LogFileWriter : Type 0 where
  pub filename : List ℕ
  pub fd : ℤ
  pub last_lsn : ℤ
  pub end_lsn : ℤ

abbrev pub new_writer : LogFileWriter
new_writer = record { filename = []; fd = negsuc 0; last_lsn = pos 0; end_lsn = pos 0 }

unfoldable pub open_writer : LogFileWriter → List ℕ → ℤ → ℤ → LogFileWriter × Rc
open_writer w filename end_lsn fd =
    if not (is_negative w.fd)
    then (w, file_opend)
    else if is_negative fd
    then (record w { fd = fd }, file_not_found)
    else (record w { fd = fd; filename = filename; end_lsn = end_lsn }, success)

unfoldable pub close_writer : LogFileWriter → LogFileWriter × Rc
close_writer w =
    if is_negative w.fd then (w, success) else (record w { fd = negsuc 0; filename = [] }, success)

-- `payload_size()` bytes from `data()` on; past the end of the data the read is undefined, and here
-- stands for the whole data.
unfoldable pub write : LogEntry → LogFileWriter → File → Run (LogFileWriter × File × Rc)
write entry w file =
    if is_negative w.fd
    then returned (w, file, file_not_open)
    else if not (ltb_ℤ (lsn entry) w.end_lsn)
    then returned (w, file, file_full)
    else do
      (ret, file') ← append_file (header_bytes entry.header) file
      if not (ret == 0) then returned (w, file', ioerr_write) else do
        (ret', file'') ← append_file (take (to_size entry.header.data_size) entry.payload) file'
        if not (ret' == 0)
            then returned (w, file'', ioerr_write)
            else returned (record w { last_lsn = lsn entry }, file'', success)

pub is_open : LogFileWriter → Bool
is_open w = not (is_negative w.fd)

unfoldable pub is_full : LogFileWriter → Bool
is_full w = not (ltb_ℤ w.last_lsn w.end_lsn)
