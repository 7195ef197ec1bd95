-- ===== src/Frame/Tests.antt =====
-- Runs of frames and frame ids, and the theorems at concrete frames.
use dimdb.Prelude.{ℕ, ◌≡◌, refl, false, [], ◌∷◌}
use dimdb.Prelude.Int.{pos}
use dimdb.Frame.{FrameId, Frame, default_id, is_valid}

abbrev id : ℕ → ℕ → FrameId
id pool num = record { buffer_pool_id = pos pool; page_num = pos num }

abbrev frame : Frame
frame = record {
  pin_count = 0;
  acc_time = 0;
  frame_id = id 1 3;
  page = record {
    header = record {
      page_num = pos 3;
      lsn = pos 7;
      check_sum = 0;
      free_space = 100;
      free_space_offset = 20;
      slot_count = 2;
      page_type = 2;
      flags = 6;
      last_trx_id = pos 1;
    };
    bytes = 10 ∷ [];
  };
}

default_id-invalid : is_valid default_id ≡ false
unfolding is_valid
default_id-invalid = refl
