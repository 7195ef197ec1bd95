-- ===== src/LogFile/Text.antt =====
-- src/dimserver/storage/clog/log_file.cpp: `LogFileWriter::to_string`.
use dimdb.Prelude.{ℕ, List, ◌++◌}
use dimdb.Text.{codes, decimal_ℤ}
use dimdb.LogFile.{LogFileWriter}

unfoldable pub writer_text : LogFileWriter → List ℕ
writer_text w =
    codes "LogFileWriter(filename="
    ++ w.filename
    ++ codes ", last_lsn="
    ++ decimal_ℤ w.last_lsn
    ++ codes ", end_lsn="
    ++ decimal_ℤ w.end_lsn
    ++ codes ")"
