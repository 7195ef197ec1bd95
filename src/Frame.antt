-- ===== src/Frame.antt =====
-- src/dimserver/storage/buffer/frame.h and frame.cpp: frame ids and frames.
--
-- `pin_count` is the bit pattern of an `int`, a number below 2 ^ 32; it is positive from 1 to
-- 2 ^ 31 - 1. The mutex and the log lines of the destructor are left out.
pub mod Text
pub mod Id
pub mod Flags
pub mod Pins
mod Tests
use mathlib.Core.Bool.{decide}
use dimdb.Prelude.{
  ℕ, zero, suc, ◌+◌, ◌-◌, ◌*◌, ◌%◌, ◌^◌, bit_and, bit_or, ◌≡◌, Bool, true, false, not, ◌&&◌, ltb,
  leb, ◌==◌, if◌then◌else◌, replicate,
}
use dimdb.Prelude.Int.{ℤ, pos, negsuc, ltb_ℤ}
use dimdb.Page
use dimdb.Page.{PageHeader, Page, bp_invalid_page_num, bp_page_data_size}

pub record FrameId : Type 0 where
  pub buffer_pool_id : ℤ
  pub page_num : ℤ

abbrev pub default_id : FrameId
default_id = record { buffer_pool_id = negsuc 0; page_num = bp_invalid_page_num }

abbrev pub eq_ℤ : ℤ → ℤ → Bool
eq_ℤ (pos a) (pos b) = a == b
eq_ℤ (pos a) (negsuc b) = false
eq_ℤ (negsuc a) (pos b) = false
eq_ℤ (negsuc a) (negsuc b) = a == b

-- `operator==`
pub equal : FrameId → FrameId → Bool
equal a b = eq_ℤ a.buffer_pool_id b.buffer_pool_id && eq_ℤ a.page_num b.page_num

-- `operator!=`
pub not_equal : FrameId → FrameId → Bool
not_equal a b = not (equal a b)

-- `operator<`
pub less : FrameId → FrameId → Bool
less a b =
    if not (eq_ℤ a.buffer_pool_id b.buffer_pool_id)
    then ltb_ℤ a.buffer_pool_id b.buffer_pool_id
    else ltb_ℤ a.page_num b.page_num

pub is_valid : FrameId → Bool
is_valid id = not (ltb_ℤ id.buffer_pool_id (pos 0)) && not (eq_ℤ id.page_num bp_invalid_page_num)

-- The conversion of an `int32_t` to a `size_t` of 64 bits.
unfoldable pub to_size : ℤ → ℕ
to_size (pos n) = n % 2 ^ 64
to_size (negsuc n) = 2 ^ 64 - 1 - n % 2 ^ 64

-- `static_cast<size_t>(buffer_pool_id) << 32L | page_num`
pub hash : FrameId → ℕ
unfolding to_size
hash id = bit_or (to_size id.buffer_pool_id * 2 ^ 32 % 2 ^ 64) (to_size id.page_num)

pub record Frame : Type 0 where
  pub pin_count : ℕ
  pub acc_time : ℕ
  pub frame_id : FrameId
  pub page : Page

-- The constructor starts from a page that is then initialised.
pub new_frame : Page → Frame
new_frame page = record {
  pin_count = 0;
  acc_time = 0;
  frame_id = default_id;
  page = Page.init page;
}

unfoldable pub reinit : Frame → Frame
reinit f = record { pin_count = 0; acc_time = 0; frame_id = default_id; page = Page.init f.page }

unfoldable pub reset : Frame → Frame
reset f = record { pin_count = 0; acc_time = 0; frame_id = default_id; page = Page.init f.page }

pub clear_page : Frame → Frame
clear_page f = record f {
  page = record {
    header = record {
      page_num = pos 0;
      lsn = pos 0;
      check_sum = 0;
      free_space = 0;
      free_space_offset = 0;
      slot_count = 0;
      page_type = 0;
      flags = 0;
      last_trx_id = pos 0;
    };
    bytes = replicate bp_page_data_size 0;
  };
}

abbrev with_header : Frame → PageHeader → Frame
with_header f header = record f { page = record f.page { header = header } }

unfoldable pub set_frame_id : Frame → FrameId → Frame
set_frame_id f id = record f { frame_id = id }

unfoldable pub page_num : Frame → ℤ
page_num f = f.page.header.page_num

unfoldable pub pin : Frame → Frame
pin f = record f { pin_count = (f.pin_count + 1) % 2 ^ 32 }

-- `pin_count_ > 0`
unfoldable pub unpin : Frame → Frame
unpin f =
    if ltb 0 f.pin_count && ltb f.pin_count (2 ^ 31)
    then record f { pin_count = f.pin_count - 1 }
    else f

unfoldable pub can_purge : Frame → Bool
can_purge f = f.pin_count == 0

-- `access` at a time that the monotonic clock gives in seconds and nanoseconds.
pub access : Frame → ℕ → ℕ → Frame
access f sec nsec = record f { acc_time = (sec * 1000000000 + nsec) % 2 ^ 64 }

pub is_dirty : Frame → Bool
is_dirty f = not (bit_and f.page.header.flags 1 == 0)

pub mark_dirty : Frame → Frame
mark_dirty f = with_header f (record f.page.header { flags = bit_or f.page.header.flags 1 })

pub clear_dirty : Frame → Frame
clear_dirty f = with_header f (record f.page.header { flags = bit_and f.page.header.flags 0xFE })

unfoldable pub buffer_pool_id : Frame → ℤ
buffer_pool_id f = f.frame_id.buffer_pool_id

-- Only the pool's half of the frame id.
unfoldable pub set_buffer_pool_id : Frame → ℤ → Frame
set_buffer_pool_id f id = record f { frame_id = record f.frame_id { buffer_pool_id = id } }

pub lsn : Frame → ℤ
lsn f = f.page.header.lsn

pub set_lsn : Frame → ℤ → Frame
set_lsn f lsn = with_header f (record f.page.header { lsn = lsn })

-- Only the page's header, not the frame id.
unfoldable pub set_page_num : Frame → ℤ → Frame
set_page_num f num = with_header f (record f.page.header { page_num = num })

pub data PageType : Type 0 where
  unknown_page header_page data_page index_page overflow_page free_page : PageType

pub page_type_code : PageType → ℕ
page_type_code unknown_page = 0
page_type_code header_page = 1
page_type_code data_page = 2
page_type_code index_page = 3
page_type_code overflow_page = 4
page_type_code free_page = 5

pub page_type : Frame → ℕ
page_type f = f.page.header.page_type

pub set_page_type : Frame → PageType → Frame
unfolding page_type_code
set_page_type f type = with_header f (record f.page.header { page_type = page_type_code type })

pub calc_checksum : Frame → Frame
calc_checksum f = record f { page = Page.calc_checksum f.page }

pub verify_checksum : Frame → Bool × Frame
verify_checksum f =
    let (valid, page) = Page.verify_checksum f.page in (valid, record f { page = page })
