-- ===== src/Page/Tests.antt =====
-- Runs of the checksum, and the theorems at a page with four bytes of data.
use dimdb.Prelude.{◌≡◌, refl, false, [], ◌∷◌, set, arith}
use dimdb.Prelude.Int.{pos}
use dimdb.Page.{Page, checksum_of, calc_checksum, verify_checksum, crc_table, crc_step}
use dimdb.Page.Checksum.{verify_checksum-set}

-- The check value of CRC-32: the ASCII text "123456789".
check_value : checksum_of (49 ∷ 50 ∷ 51 ∷ 52 ∷ 53 ∷ 54 ∷ 55 ∷ 56 ∷ 57 ∷ []) ≡ 0xCBF43926
unfolding checksum_of crc_step crc_table
check_value = refl

abbrev page : Page
page = record {
  header = record {
    page_num = pos 3;
    lsn = pos 7;
    check_sum = 0;
    free_space = 100;
    free_space_offset = 20;
    slot_count = 2;
    page_type = 2;
    flags = 1;
    last_trx_id = pos 1;
  };
  bytes = 10 ∷ 200 ∷ 0 ∷ 255 ∷ [];
}

verify_checksum-set_example :
    (verify_checksum (record (calc_checksum page) { bytes = set page.bytes 1 201 })).0 ≡ false
verify_checksum-set_example =
    verify_checksum-set page 1 200 201 (omega arith) refl (omega arith) (omega arith)
