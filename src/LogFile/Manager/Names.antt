-- ===== src/LogFile/Manager/Names.antt =====
-- The names of log files: what the manager writes for a first LSN it reads back.
use dimdb.Prelude.{
  ℕ, ◌-◌, ◌≡◌, sym, ap, ◌∙◌, true, some, Option, List, ◌++◌, length, take, drop, append_assoc,
}
use dimdb.Prelude.Int.{ℤ}
use dimdb.Text.{decimal_ℤ}
use dimdb.Utils.{starts_with, ends_with}
use dimdb.Utils.Append.{starts_with-append, ends_with-append, take-front}
use dimdb.LogFile.Manager.{
  clog_file_prefix, clog_file_suffix, clog_file_name, get_lsn_from_filename,
}

pub clog_file_name-ends_with : (lsn : ℤ) → ends_with (clog_file_name lsn) clog_file_suffix ≡ true
unfolding clog_file_name
clog_file_name-ends_with lsn =
    ap (λ (l : List ℕ). ends_with l clog_file_suffix)
      (sym (append_assoc clog_file_prefix (decimal_ℤ lsn) clog_file_suffix))
    ∙ ends_with-append (clog_file_prefix ++ decimal_ℤ lsn) clog_file_suffix

pub clog_file_name-starts_with :
    (lsn : ℤ) → starts_with (clog_file_name lsn) clog_file_prefix ≡ true
unfolding clog_file_name
clog_file_name-starts_with lsn =
    starts_with-append clog_file_prefix (decimal_ℤ lsn ++ clog_file_suffix)

-- What stands between the prefix and the suffix.
clog_file_name-middle :
    (lsn : ℤ)
    → let rest = drop (length clog_file_prefix) (clog_file_name lsn) in
      take (length rest - length clog_file_suffix) rest ≡ decimal_ℤ lsn
unfolding clog_file_name drop
clog_file_name-middle lsn = take-front (decimal_ℤ lsn) clog_file_suffix

module _ (stol : List ℕ → Option ℤ) where
  pub get_lsn_from_filename-clog_file_name :
      (lsn : ℤ)
      → stol (decimal_ℤ lsn) ≡ some lsn
      → get_lsn_from_filename stol (clog_file_name lsn) ≡ some lsn
  unfolding get_lsn_from_filename
  get_lsn_from_filename-clog_file_name lsn h =
      rw (clog_file_name-starts_with lsn)
        (rw (clog_file_name-ends_with lsn) (ap stol (clog_file_name-middle lsn) ∙ h))
