-- ===== src/LogBuffer/Text.antt =====
-- `to_string` of the buffer. The texts of the two `double` numbers are parameters, of the members that
-- they are computed from: the used bytes in percent, and the time of a flush in milliseconds.
use dimdb.Prelude.{ℕ, List, ◌++◌}
use dimdb.Text.{codes, decimal, decimal_ℤ}
use dimdb.LogBuffer.{LogBuffer, size}

module _ (percent average : ℕ → ℕ → List ℕ) where
  unfoldable pub to_string : LogBuffer → List ℕ
  to_string b =
      codes "LogBuffer(current_bytes="
      ++ decimal b.current_bytes
      ++ codes "/"
      ++ decimal b.max_bytes
      ++ codes "("
      ++ percent b.current_bytes b.max_bytes
      ++ codes "%), entries="
      ++ decimal (size b)
      ++ codes ", current_lsn="
      ++ decimal_ℤ b.current_lsn
      ++ codes ", flushed_lsn="
      ++ decimal_ℤ b.flushed_lsn
      ++ codes ", total_appends="
      ++ decimal b.total_appends
      ++ codes ", total_flushes="
      ++ decimal b.total_flushes
      ++ codes ", avg_flush_time="
      ++ average b.total_wait_time_us b.total_flushes
      ++ codes "ms)"
