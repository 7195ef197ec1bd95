-- ===== src/Page.antt =====
-- src/dimserver/storage/buffer/page.h: a page with its header and its checksum.
--
-- `data` is `BP_PAGE_DATA_SIZE` bytes, numbers below 256. `data[i]` is a `char`; of `crc ^ data[i]`
-- the mask 0xFF keeps the low byte, which its sign does not touch, and `& 0xFF`, `& 1` and `>> k`
-- are written `% 256`, `% 2` and `/ 2 ^ k`. The table is a static local that the first call fills.
-- Here each use computes its entry.
pub mod Crc
pub mod Checksum
mod Tests
use dimdb.Prelude.{
  ℕ, zero, suc, ◌+◌, ◌-◌, ◌*◌, ◌/◌, ◌%◌, ◌^◌, bit_xor, ◌≡◌, Bool, true, false, List, [], ◌∷◌,
  length, ltb, ◌==◌, if◌then◌else◌, replicate,
}
use dimdb.Prelude.Int.{ℤ, pos, negsuc}

pub record PageHeader : Type 0 where
  pub page_num : ℤ
  pub lsn : ℤ
  pub check_sum : ℕ
  pub free_space : ℕ
  pub free_space_offset : ℕ
  pub slot_count : ℕ
  pub page_type : ℕ
  pub flags : ℕ
  pub last_trx_id : ℤ

pub record Page : Type 0 where
  pub header : PageHeader
  pub bytes : List ℕ

-- `(1 << 13)`, less the 32 bytes of a header whose `lsn` is aligned to 8.
abbrev pub bp_page_data_size : ℕ
bp_page_data_size = 2 ^ 13 - 32

abbrev pub bp_invalid_page_num : ℤ
bp_invalid_page_num = negsuc 0

pub init : Page → Page
init p = record {
  header = record {
    page_num = bp_invalid_page_num;
    lsn = pos 0;
    check_sum = 0;
    free_space = bp_page_data_size;
    free_space_offset = 0;
    slot_count = 0;
    page_type = 0;
    flags = 0;
    last_trx_id = pos 0;
  };
  bytes = replicate bp_page_data_size 0;
}

-- One round of the loop that fills the table.
crc_round : ℕ → ℕ
crc_round c = if c % 2 == 1 then bit_xor 0xEDB88320 (c / 2) else c / 2

rounds : ℕ → ℕ → ℕ
rounds zero c = c
rounds (suc left) c = rounds left (crc_round c)

-- `crc_table[i]`
unfoldable pub crc_table : ℕ → ℕ
unfolding rounds crc_round
crc_table i = rounds 8 i

-- `crc_table[(crc ^ data[i]) & 0xFF] ^ (crc >> 8)`
unfoldable pub crc_step : ℕ → ℕ → ℕ
crc_step crc byte = bit_xor (crc_table (bit_xor crc byte % 256)) (crc / 256)

-- The loop over the data.
unfoldable pub crc_loop : ℕ → List ℕ → ℕ
crc_loop crc [] = crc
crc_loop crc (byte ∷ bytes) = crc_loop (crc_step crc byte) bytes

-- `~crc` of 32 bits
unfoldable pub complement : ℕ → ℕ
complement crc = 2 ^ 32 - 1 - crc

unfoldable pub checksum_of : List ℕ → ℕ
unfolding crc_loop complement
checksum_of bytes = complement (crc_loop 0xFFFFFFFF bytes)

pub calc_checksum : Page → Page
calc_checksum p = record p { header = record p.header { check_sum = checksum_of p.bytes } }

-- The method casts its `const` away: it stores the new checksum and then the old one again.
pub verify_checksum : Page → Bool × Page
unfolding calc_checksum
verify_checksum p =
    let old_checksum = p.header.check_sum in
    let p' = calc_checksum p in
    let valid = old_checksum == p'.header.check_sum in
    (valid, record p' { header = record p'.header { check_sum = old_checksum } })
