-- ===== src/BufferPool.antt =====
-- src/dimserver/storage/buffer/buffer_pool.h: the head of a buffer pool's file, `BPFileHeader`.
--
-- It stands at the front of the data of the file's first page. `bitmap` are the bytes behind the
-- other members, of which each has 4 bytes.
use dimdb.Prelude.{ℕ, ◌+◌, ◌-◌, ◌*◌, ◌/◌, ◌≡◌, List, arith}
use dimdb.Prelude.Int.{ℤ}
use dimdb.Page.{bp_page_data_size}

pub record BpFileHeader : Type 0 where
  pub buffer_pool_id : ℤ
  pub page_count : ℤ
  pub allocated_pages : ℤ
  pub bitmap : List ℕ

abbrev pub max_page_num : ℕ
max_page_num = (bp_page_data_size - 4 - 4) * 8

-- A bitmap with a bit for each of the pages, behind the three members, ends 4 bytes behind the page.
bitmap_end : 3 * 4 + max_page_num / 8 ≡ bp_page_data_size + 4
bitmap_end = omega arith
