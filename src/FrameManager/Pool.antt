-- ===== src/FrameManager/Pool.antt =====
-- The frames of one buffer pool, which `find_list` pins.
use dimdb.Prelude.{
  ℕ, suc, ◌≡◌, refl, sym, ap, ◌∙◌, List, [], ◌∷◌, ◌++◌, count, count-append, ◌==◌, if◌then◌else◌,
  arith, append_assoc, append_nil, Bool-cases, inl, inr,
}
use dimdb.Prelude.Int.{ℤ}
use dimdb.Frame
use dimdb.Frame.{FrameId, Frame, eq_ℤ, pin}
use dimdb.Frame.Pins.{pins, buffer_pool_id-pins}
use dimdb.MemPool.{update}
use dimdb.LruCache.Refines.{view}
use dimdb.LruCache.Visit.{visit_view, foreach-visit_view}
use dimdb.FrameManager.{FrameManager, pin_of_pool, find_list}

-- The frames of the pool, in the order of the entries.
unfoldable pub frames_in : ℤ → (ℕ → Frame) → List (FrameId × ℕ) → List ℕ
frames_in buffer_pool_id objects [] = []
frames_in buffer_pool_id objects ((k, frame) ∷ l) =
    let rest = frames_in buffer_pool_id objects l in
    if eq_ℤ (Frame.buffer_pool_id (objects frame)) buffer_pool_id then frame ∷ rest else rest

pub pin-update :
    (before objects : ℕ → Frame) (frame : ℕ) (acc : List ℕ)
    → ((a : ℕ) → objects a ≡ pins (count a acc) (before a))
    → (a : ℕ)
    → update objects frame (pin (objects frame)) a ≡ pins (count a (acc ++ frame ∷ [])) (before a)
unfolding pins
pin-update before objects frame acc pinned a = elim (Bool-cases (frame == a)) [
  | inl e ↦
      let same : frame ≡ a = ground arith in
      let more : count a (acc ++ frame ∷ []) ≡ suc (count a acc) =
        ground (arith, count-append a acc (frame ∷ []), e) in
      rw (e, more, same) (ap pin (pinned a))
  | inr e ↦
      let more : count a (acc ++ frame ∷ []) ≡ count a acc =
        ground (arith, count-append a acc (frame ∷ []), e) in
      rw (e, more) (pinned a)
]

module _ (id : ℤ) (before : ℕ → Frame) where
  visit_view-frames_in :
      (l : List (FrameId × ℕ)) (objects : ℕ → Frame) (acc : List ℕ)
      → ((a : ℕ) → objects a ≡ pins (count a acc) (before a))
      → let (objects', found) = visit_view (pin_of_pool id) l (objects, acc) in
        (found ≡ acc ++ frames_in id before l)
        × ((a : ℕ) → objects' a ≡ pins (count a found) (before a))
  unfolding visit_view pin_of_pool frames_in
  visit_view-frames_in [] objects acc pinned = (sym (append_nil acc), pinned)
  visit_view-frames_in ((k, frame) ∷ l) objects acc pinned =
      let same : Frame.buffer_pool_id (objects frame) ≡ Frame.buffer_pool_id (before frame) =
        ap Frame.buffer_pool_id (pinned frame)
        ∙ buffer_pool_id-pins (count frame acc) (before frame) in
      elim (Bool-cases (eq_ℤ (Frame.buffer_pool_id (before frame)) id)) [
        | inl e ↦
            let (found, after) =
              visit_view-frames_in l (update objects frame (pin (objects frame)))
                (acc ++ frame ∷ []) (pin-update before objects frame acc pinned) in
            rw (same, e) (found ∙ append_assoc acc (frame ∷ []) (frames_in id before l), after)
        | inr e ↦ rw (same, e) (visit_view-frames_in l objects acc pinned)
      ]

-- `find_list` returns the frames whose id names the buffer pool, the most recently used first, and
-- pins each; no other frame changes, and neither does the order of use.
pub find_list-frames_in :
    (m : FrameManager) (id : ℤ)
    → let (m', found) = find_list m id in
      (found ≡ frames_in id m.allocator.objects (view m.frames))
      × ((a : ℕ) → m'.allocator.objects a ≡ pins (count a found) (m.allocator.objects a))
      × (m'.frames ≡ m.frames)
unfolding find_list pins
find_list-frames_in m id =
    let (found, after) =
      visit_view-frames_in id m.allocator.objects (view m.frames) m.allocator.objects []
        (λ a. refl) in
    rw (foreach-visit_view (pin_of_pool id) m.frames (m.allocator.objects, [])) (found, after, refl)
