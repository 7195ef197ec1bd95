-- ===== src/DoubleWrite/Tests.antt =====
-- Runs of the double write buffer, and the theorems at buffers of one and two pages in a world whose
-- second write of a page fails.
use dimdb.Prelude.{if◌then◌else◌, ◌==◌, ℕ, suc, ◌<◌, ◌≡◌, refl, true, [], ◌∷◌, take, drop, arith}
use dimdb.Prelude.Int.{pos}
use dimdb.Io.{moved, readn}
use dimdb.LogEntry.{to_int32}
use dimdb.LogFile.{File, le, bits_32, from_le, read_file}
use dimdb.Outcome.{Returns, done}
use dimdb.Page.{Page}
use dimdb.Rc.{Rc, success, ioerr_read, ioerr_write}
use dimdb.DoubleWrite.{
  DoubleWritePageKey, DoubleWritePage, live, dangling, Placement, World, DiskDoubleWriteBuffer,
  new_buffer, flush_page, flush_loop, find, equal, add_page, add_found, add_new, write_header,
  flush_full,
}
use dimdb.DoubleWrite.Load.{open_file, load_pages, load_loop, page_cnt_of}
use dimdb.DoubleWrite.Flush.{write_pages, deleted, flush_page-write_pages}
use dimdb.DoubleWrite.Add.{Added, add_page-Added}
use dimdb.DoubleWrite.Limit.{Below, add_page-Below}
use dimdb.DoubleWrite.Verified.{IsLoaded, open_file-IsLoaded}

abbrev page : Page
page = record {
  header = record {
    page_num = pos 0;
    lsn = pos 0;
    check_sum = 0;
    free_space = 0;
    free_space_offset = 0;
    slot_count = 0;
    page_type = 0;
    flags = 0;
    last_trx_id = pos 0;
  };
  bytes = [];
}

abbrev key : ℕ → DoubleWritePageKey
key n = record { buffer_pool_id = pos 1; page_num = pos n }

abbrev held : ℕ → DoubleWritePage
held n = record { key = key n; page_index = pos 0; valid = true; page = page }

-- The world counts the writes of pages, and the second fails.
abbrev second_fails : ℕ → Rc
second_fails n = if n == 1 then ioerr_write else success

abbrev world : World
world = record {
  W = ℕ;
  write_page = λ p w. (suc w, second_fails w);
  write_page_internal = λ p w. (w, success);
  seek_start = λ w. (w, true);
  writen = λ bytes w. (w, 0);
}

abbrev placement : Placement
placement = record {
  arrange = λ pages. pages;
  length-arrange = λ pages. refl;
  arrange-AllLive = λ pages h. h;
  arrange-IsDistinct = λ pages h. h;
  find-arrange = λ key pages h. refl;
}

abbrev one_page : DiskDoubleWriteBuffer
one_page = record {
  file_desc_ = pos 3;
  max_pages_ = pos 2;
  page_cnt = pos 1;
  dblwr_pages_ = (key 1, live (held 1)) ∷ [];
}

abbrev two_pages : DiskDoubleWriteBuffer
two_pages = record one_page {
  page_cnt = pos 2;
  dblwr_pages_ = (key 1, live (held 1)) ∷ (key 2, live (held 2)) ∷ [];
}

-- A second page fills the buffer, whose flush in a world of 2 writes is the end of it.
fills :
    add_page world placement (pos 1) (pos 2) page one_page 2
    ≡ done (record one_page { dblwr_pages_ = []; page_cnt = pos 0 }, 4, success)
unfolding add_page add_found add_new write_header flush_full flush_page flush_loop find equal
    to_int32
fills = refl

flush_page-write_pages_example :
    flush_page world two_pages 0
    ≡ done (
      record two_pages { dblwr_pages_ = (key 1, dangling) ∷ (key 2, live (held 2)) ∷ [] },
      2,
      ioerr_write,
    )
unfolding write_pages deleted
flush_page-write_pages_example = flush_page-write_pages world two_pages 0 tt

some_written : 0 < (write_pages world two_pages.dblwr_pages_ 0).0
unfolding write_pages
some_written = omega arith

-- The page fills the buffer, whose flush succeeds.
add_page-Added_example :
    Returns
      (Added world (pos 2) (key 2) page one_page.dblwr_pages_)
      (add_page world placement (pos 1) (pos 2) page one_page 2)
unfolding find
add_page-Added_example =
    add_page-Added world placement (pos 1) (pos 2) page one_page 2 ((refl, tt), tt)

add_page-Below_example :
    Returns (Below world 2) (add_page world placement (pos 1) (pos 2) page one_page 2)
add_page-Below_example =
    add_page-Below world 2 placement (pos 1) (pos 2) page one_page 2 refl tt (omega arith)
      (omega arith)

-- A file whose header counts a page of which only three bytes are there.
abbrev cut_off : File
cut_off = record {
  content = 1 ∷ 0 ∷ 0 ∷ 0 ∷ 5 ∷ 6 ∷ 7 ∷ [];
  offset = 0;
  answers = moved 4 ∷ moved 3 ∷ moved 0 ∷ [];
}

open_file-IsLoaded_example : IsLoaded []
unfolding open_file load_pages load_loop page_cnt_of read_file readn from_le le bits_32 to_int32
    take drop
open_file-IsLoaded_example =
    open_file-IsLoaded placement (λ place. true) (pos 3) (new_buffer (pos 16))
      (record (new_buffer (pos 16)) { file_desc_ = pos 3; page_cnt = pos 1 }) cut_off
      (record cut_off { offset = 7; answers = [] }) ioerr_read refl refl
