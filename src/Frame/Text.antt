-- ===== src/Frame/Text.antt =====
-- src/dimserver/storage/buffer/frame.cpp: `to_string` of frame ids and frames.
use dimdb.Prelude.{ℕ, List, ◌++◌, if◌then◌else◌}
use dimdb.Text.{codes, decimal, decimal_ℤ}
use dimdb.LogEntry.{to_int32}
use dimdb.Frame.{FrameId, Frame, is_dirty, page_type, lsn}

-- `FrameId::to_string`
unfoldable pub frame_id_text : FrameId → List ℕ
frame_id_text id =
    codes "buffer_pool_id:"
    ++ decimal_ℤ id.buffer_pool_id
    ++ codes ",page_num:"
    ++ decimal_ℤ id.page_num

-- `Frame::to_string`.
unfoldable pub frame_text : Frame → List ℕ
unfolding frame_id_text
frame_text f =
    codes "frame id: "
    ++ frame_id_text f.frame_id
    ++ codes ", pin: "
    ++ decimal_ℤ (to_int32 f.pin_count)
    ++ codes ", dirty: "
    ++ (if is_dirty f then codes "yes" else codes "no")
    ++ codes ", page type: "
    ++ decimal (page_type f)
    ++ codes ", lsn: "
    ++ decimal_ℤ (lsn f)
