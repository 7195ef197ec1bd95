-- ===== src/DoubleWrite/Load.antt =====
-- `load_pages` and `open_file` of the double write buffer, over the file's bytes and the answers of
-- the operating system.
use dimdb.Prelude.{
  ℕ, zero, suc, ◌+◌, ◌*◌, ◌^◌, Bool, true, false, not, ◌&&◌, List, [], ◌∷◌, ◌++◌, Option, none,
  some, length, take, drop, ◌==◌, if◌then◌else◌,
}
use dimdb.Prelude.Int.{ℤ, pos, negsuc}
use dimdb.Crc.{crc32}
use dimdb.Frame.{eq_ℤ}
use dimdb.Io.{Run, returned, ◌>>=◌}
use dimdb.LogEntry.{to_int32}
use dimdb.LogFile.{File, read_file, from_le, le, bits_32, to_int64, is_negative}
use dimdb.Page.{bp_page_data_size}
use dimdb.Rc.{Rc, success, bufferpool_opened, schema_db_exist, ioerr_read, ioerr_seek, is_zero}
use dimdb.DoubleWrite.{
  DoubleWritePage, Pages, Placement, DiskDoubleWriteBuffer, find, live, Pointer,
}

-- `DoubleWriteBufferHeader::SIZE` and `DoubleWritePage::SIZE`: a page behind 16 bytes.
abbrev pub header_size : ℕ
header_size = 4

abbrev pub page_size : ℕ
page_size = 16 + 2 ^ 13

unfoldable pub bytes_at : ℕ → ℕ → List ℕ → ℕ
bytes_at offset size bytes = from_le (take size (drop offset bytes))

-- The page whose bytes in memory these are: little-endian members, each aligned to its size. A flag
-- is set by any byte but 0.
unfoldable pub page_of : List ℕ → DoubleWritePage
page_of bytes = record {
  key = record {
    buffer_pool_id = to_int32 (bytes_at 0 4 bytes);
    page_num = to_int32 (bytes_at 4 4 bytes);
  };
  page_index = to_int32 (bytes_at 8 4 bytes);
  valid = not (bytes_at 12 1 bytes == 0);
  page = record {
    header = record {
      page_num = to_int32 (bytes_at 16 4 bytes);
      lsn = to_int64 (bytes_at 24 8 bytes);
      check_sum = bytes_at 32 4 bytes;
      free_space = bytes_at 36 2 bytes;
      free_space_offset = bytes_at 38 2 bytes;
      slot_count = bytes_at 40 2 bytes;
      page_type = bytes_at 42 1 bytes;
      flags = bytes_at 43 1 bytes;
      last_trx_id = to_int32 (bytes_at 44 4 bytes);
    };
    bytes = take bp_page_data_size (drop 48 bytes);
  };
}

-- The data agrees with the checksum of its header. The data stands at an address that 4 divides.
unfoldable pub is_verified : DoubleWritePage → Bool
is_verified p = crc32 0 p.page.bytes == p.page.header.check_sum

abbrev pub rounds : ℤ → ℕ
rounds (pos n) = n
rounds (negsuc n) = 0

-- What a read that can end early leaves of the header's `page_cnt`.
unfoldable pub page_cnt_of : List ℕ → ℤ → ℤ
page_cnt_of bytes page_cnt =
    to_int32 (from_le (bytes ++ drop (length bytes) (le 4 (bits_32 page_cnt))))

abbrev pub is_nil : Pages → Bool
is_nil [] = true
is_nil (entry ∷ pages) = false

module _ (placement : Placement) where
  unfoldable pub insert_found : Option Pointer → DoubleWritePage → Pages → Pages
  insert_found none p pages = placement.arrange ((p.key, live p) ∷ pages)
  insert_found (some held) p pages = pages

  -- `insert`, which leaves a page of the same key.
  unfoldable pub insert : DoubleWritePage → Pages → Pages
  insert p pages = insert_found (find p.key pages) p pages

  unfoldable pub keep_verified : DoubleWritePage → Pages → Pages
  keep_verified p pages = if is_verified p then insert p pages else pages

-- `seeks` says to which places `lseek` succeeds.
module _ (placement : Placement) (seeks : ℕ → Bool) where
  -- The loop from `page_num` on, for the pages that are left.
  unfoldable pub load_loop : ℕ → ℕ → Pages → File → Run (Pages × File × Rc)
  load_loop zero page_num pages file = returned (pages, file, success)
  load_loop (suc left) page_num pages file =
      let place = page_num * page_size + header_size in
      let loaded = do
        (ret, bytes, file') ← read_file page_size (record file { offset = place })
        let later =
            load_loop left (page_num + 1) (keep_verified placement (page_of bytes) pages) file'
        if is_zero ret then later else returned (pages, file', ioerr_read)
      in if not (seeks place) then returned (pages, file, ioerr_seek) else loaded

  unfoldable pub load_pages : DiskDoubleWriteBuffer → File → Run (DiskDoubleWriteBuffer × File × Rc)
  load_pages b file =
      if is_negative b.file_desc_
      then returned (b, file, bufferpool_opened)
      else if not (is_nil b.dblwr_pages_)
      then returned (b, file, bufferpool_opened)
      else if not (seeks 0)
      then returned (b, file, ioerr_seek)
      else do
        (ret, bytes, file') ← read_file header_size (record file { offset = 0 })
        let b' = record b { page_cnt = page_cnt_of bytes b.page_cnt }
        let loaded = do
          (pages, file'', rc) ← load_loop (rounds b'.page_cnt) 0 [] file'
          returned (record b' { dblwr_pages_ = pages }, file'', rc)
        if not (is_zero ret) && not (eq_ℤ ret (negsuc 0))
            then returned (b', file', ioerr_read)
            else loaded

  -- `fd` is what `open` returns.
  unfoldable pub open_file :
      ℤ → DiskDoubleWriteBuffer → File → Run (DiskDoubleWriteBuffer × File × Rc)
  open_file fd b file =
      if not (is_negative b.file_desc_)
      then returned (b, file, bufferpool_opened)
      else if is_negative fd
      then returned (b, file, schema_db_exist)
      else load_pages (record b { file_desc_ = fd }) file
