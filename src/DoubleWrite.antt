-- ===== src/DoubleWrite.antt =====
-- src/dimserver/storage/buffer/double_write_buffer.h and double_write_buffer.cpp: the double write
-- buffer, which keeps copies of pages in a file until they are written to their places.
--
-- The map of pages is the list of its entries in the order in which the code walks through them. A
-- pointer of the map is the page that it owns, or dangles once the page is deleted. `write_page` and
-- `write_page_internal` are declared and not defined; they and the calls on the file are parameters
-- with a state of their own. Log lines are left out.
pub mod Load
pub mod Keys
pub mod Flush
pub mod Add
pub mod Limit
pub mod Verified
mod Tests
use dimdb.Prelude.{
  ℕ, ◌+◌, ◌%◌, ◌^◌, Bool, true, false, not, ◌&&◌, Option, none, some, List, [], ◌∷◌, length,
  if◌then◌else◌, ◌≡◌, ◌==◌,
}
use dimdb.Prelude.Int.{ℤ, pos, negsuc, ltb_ℤ}
use dimdb.Frame.{eq_ℤ}
use dimdb.LogEntry.{to_int32}
use dimdb.LogFile.{le, bits_32}
use dimdb.Outcome.{Outcome, done, fault, ◌>>=◌}
use dimdb.Page.{Page}
use dimdb.Rc.{Rc, success, ioerr_seek, ioerr_write, is_succ, is_fail, bufferpool_invalid_page_num}

pub record DoubleWritePageKey : Type 0 where
  pub buffer_pool_id : ℤ
  pub page_num : ℤ

unfoldable pub equal : DoubleWritePageKey → DoubleWritePageKey → Bool
equal a b = eq_ℤ a.buffer_pool_id b.buffer_pool_id && eq_ℤ a.page_num b.page_num

pub record DoubleWritePage : Type 0 where
  pub key : DoubleWritePageKey
  pub page_index : ℤ
  pub valid : Bool
  pub page : Page

pub data Pointer : Type 0 where
  live : DoubleWritePage → Pointer
  dangling : Pointer

abbrev pub Pages : Type 0
Pages = List (DoubleWritePageKey × Pointer)

-- `find` of the map
unfoldable pub find : DoubleWritePageKey → Pages → Option Pointer
find key [] = none
find key ((k, p) ∷ pages) = let later = find key pages in if equal k key then some p else later

-- `iter->second = …` at the entry that `find` finds.
unfoldable pub replace : DoubleWritePageKey → Pointer → Pages → Pages
replace key p [] = []
replace key p ((k, q) ∷ pages) =
    let later = replace key p pages in if equal k key then (k, p) ∷ pages else (k, q) ∷ later

-- No key stands twice.
abbrev pub IsDistinct : Pages → Type 0
IsDistinct [] = Unit
IsDistinct ((key, p) ∷ pages) = (find key pages ≡ none) × IsDistinct pages

-- No pointer dangles.
abbrev pub AllLive : Pages → Type 0
AllLive [] = Unit
AllLive ((key, live p) ∷ pages) = AllLive pages
AllLive ((key, dangling) ∷ pages) = ⊥

-- Where an `unordered_map` puts a new entry: it can change the order of the others.
pub record Placement : Type 0 where
  pub arrange : Pages → Pages
  pub length-arrange : (pages : Pages) → length (arrange pages) ≡ length pages
  pub arrange-AllLive : (pages : Pages) → AllLive pages → AllLive (arrange pages)
  pub arrange-IsDistinct : (pages : Pages) → IsDistinct pages → IsDistinct (arrange pages)
  pub find-arrange :
      (key : DoubleWritePageKey) (pages : Pages)
      → IsDistinct pages
      → find key (arrange pages) ≡ find key pages

-- `header_.page_cnt`, and the other members but the buffer pool manager, which nothing here uses.
pub record DiskDoubleWriteBuffer : Type 0 where
  pub file_desc_ : ℤ
  pub max_pages_ : ℤ
  pub page_cnt : ℤ
  pub dblwr_pages_ : Pages

abbrev pub new_buffer : ℤ → DiskDoubleWriteBuffer
new_buffer max_pages = record {
  file_desc_ = negsuc 0;
  max_pages_ = max_pages;
  page_cnt = pos 0;
  dblwr_pages_ = [];
}

-- The calls on the world that holds the files: `write_page`, `write_page_internal`, whether `lseek` to
-- the start of the file succeeds, and the code that `writen` returns.
pub record World : Type 1 where
  pub W : Type 0
  pub write_page : DoubleWritePage → W → W × Rc
  pub write_page_internal : DoubleWritePage → W → W × Rc
  pub seek_start : W → W × Bool
  pub writen : List ℕ → W → W × ℕ

module _ (world : World) where
  -- The loop of `flush_page`: the entries with the pointers whose pages it deleted.
  unfoldable pub flush_loop : Pages → world.W → Outcome (Pages × world.W × Rc)
  flush_loop [] w = done ([], w, success)
  flush_loop ((key, dangling) ∷ pages) w = fault
  flush_loop ((key, live p) ∷ pages) w =
      let (w', rc) = world.write_page p w in
      let (w'', rc') = world.write_page_internal (record p { valid = false }) w' in
      let later = do
        (pages', w''', rc'') ← flush_loop pages w''
        done ((key, dangling) ∷ pages', w''', rc'')
      in if is_succ rc then later else done ((key, live p) ∷ pages, w', rc)

  unfoldable pub flush_page :
      DiskDoubleWriteBuffer → world.W → Outcome (DiskDoubleWriteBuffer × world.W × Rc)
  flush_page b w = do
    (pages, w', rc) ← flush_loop b.dblwr_pages_ w
    done (
        if is_succ rc
        then (record b { dblwr_pages_ = []; page_cnt = pos 0 }, w', rc)
        else (record b { dblwr_pages_ = pages }, w', rc))

  -- The destructor, but for closing the file.
  unfoldable pub destroy : DiskDoubleWriteBuffer → world.W → Outcome world.W
  destroy b w = do (b', w', rc) ← flush_page b w; done w'

  -- The part of `add_page` that writes the header when the file has one page more.
  unfoldable pub write_header :
      ℕ → DiskDoubleWriteBuffer → world.W → DiskDoubleWriteBuffer × world.W × Rc
  write_header page_cnt b w =
      if ltb_ℤ b.page_cnt (pos (page_cnt + 1))
      then (let b' = record b { page_cnt = to_int32 ((page_cnt + 1) % 2 ^ 32) } in
          let (w', found) = world.seek_start w in
          let (w'', ret) = world.writen (le 4 (bits_32 b'.page_cnt)) w' in
          if not found
          then (b', w', ioerr_seek)
          else if not (ret == 0)
          then (b', w'', ioerr_write)
          else (b', w'', success))
      else (b, w, success)

  -- The end of `add_page`: a full buffer is flushed.
  unfoldable pub flush_full :
      DiskDoubleWriteBuffer → world.W → Outcome (DiskDoubleWriteBuffer × world.W × Rc)
  flush_full b w =
      if ltb_ℤ (to_int32 (length b.dblwr_pages_ % 2 ^ 32)) b.max_pages_
      then done (b, w, success)
      else flush_page b w

  module _ (placement : Placement) where
    -- `add_page` of a page that the map does not hold.
    unfoldable pub add_new :
        DoubleWritePageKey
        → Page
        → DiskDoubleWriteBuffer
        → world.W
        → Outcome (DiskDoubleWriteBuffer × world.W × Rc)
    add_new key page b w =
        let page_cnt = length b.dblwr_pages_ in
        let p : DoubleWritePage = record {
          key = key;
          page_index = to_int32 (page_cnt % 2 ^ 32);
          valid = true;
          page = page;
        } in
        let b' = record b { dblwr_pages_ = placement.arrange ((key, live p) ∷ b.dblwr_pages_) } in
        let (w', rc) = world.write_page_internal p w in
        let (b'', w'', rc') = write_header page_cnt b' w' in
        let full = flush_full b'' w'' in
        if is_fail rc then done (b', w', rc) else if is_fail rc' then done (b'', w'', rc') else full

    -- `add_page` of a page that the map holds.
    unfoldable pub add_held :
        DoubleWritePageKey
        → Page
        → Pointer
        → DiskDoubleWriteBuffer
        → world.W
        → Outcome (DiskDoubleWriteBuffer × world.W × Rc)
    add_held key page dangling b w = fault
    add_held key page (live p) b w =
        let p' = record p { page = page } in
        let (w', rc) = world.write_page_internal p' w in
        done (record b { dblwr_pages_ = replace key (live p') b.dblwr_pages_ }, w', rc)

    -- `add_page` by what `find` finds.
    unfoldable pub add_found :
        Option Pointer
        → DoubleWritePageKey
        → Page
        → DiskDoubleWriteBuffer
        → world.W
        → Outcome (DiskDoubleWriteBuffer × world.W × Rc)
    add_found none key page b w = add_new key page b w
    add_found (some p) key page b w = add_held key page p b w

    -- `id` is `bp->id()`.
    unfoldable pub add_page :
        ℤ
        → ℤ
        → Page
        → DiskDoubleWriteBuffer
        → world.W
        → Outcome (DiskDoubleWriteBuffer × world.W × Rc)
    add_page id page_num page b w =
        let key : DoubleWritePageKey = record { buffer_pool_id = id; page_num = page_num } in
        add_found (find key b.dblwr_pages_) key page b w

-- `VacuousDoubleWriteBuffer`, whose `add_page` is declared and not defined.
abbrev pub read_page_vacuous : Rc
read_page_vacuous = bufferpool_invalid_page_num

abbrev pub clear_pages_vacuous : Rc
clear_pages_vacuous = success
