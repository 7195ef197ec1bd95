-- ===== src/FrameManager/Purge.antt =====
-- What `purge_frames` does with the frames that it takes.
use mathlib.Core.List.{reverse}
use dimdb.Prelude.Int.{ℤ, pos, negsuc}
use dimdb.Prelude.{
  ℕ, zero, suc, ◌-◌, ◌≤◌, ◌<◌, ◌≡◌, refl, sym, ap, ◌∙◌, Bool, true, false, some, List, [], ◌++◌,
  count, length, take, arith,
}
use dimdb.Outcome.{done}
use dimdb.Page.{Page}
use dimdb.Frame
use dimdb.Frame.{FrameId, Frame}
use dimdb.Frame.Id.{frame_id_discrete}
use dimdb.LruCache.{foreach_reverse}
use dimdb.LruCache.Visit.{foreach_reverse-visit_view}
use dimdb.LruCache.Refines.{view}
use dimdb.Frame.Pins.{pins}
use dimdb.FrameManager.{
  FrameManager, IsValid, frame_of, purge_found, purge_frames, purge_finder, at_least_one,
}
use dimdb.FrameManager.Shared.{same-IsValid}
use dimdb.FrameManager.Registered.{Keeps, IsRegistered, accepted, without_all}
use dimdb.FrameManager.Purged.{purge_found-Purged}
use dimdb.FrameManager.Once.{key_of, count-reverse, view-once, view-IsDistinct}
use dimdb.FrameManager.Victims.{
  purgeable, count-purgeable, can_purge-purgeable, count-take, visit_view-purgeable, pins-zero,
}

count-found :
    (m : FrameManager) (h : IsValid m) (n a : ℕ)
    → count a (take n (purgeable m.allocator.objects (reverse (view m.frames)))) ≤ 1
count-found m h n a = omega (
  arith,
  count-take a n (purgeable m.allocator.objects (reverse (view m.frames))),
  count-purgeable a m.allocator.objects (reverse (view m.frames)),
  view-once m h a,
)

-- A frame that is found has no pin, and a key.
found-key :
    (m : FrameManager) (h : IsValid m) (n a : ℕ)
    → 0 < count a (take n (purgeable m.allocator.objects (reverse (view m.frames))))
    → (k : FrameId) × (frame_of k m ≡ some a) × (Frame.can_purge (m.allocator.objects a) ≡ true)
found-key m h n a there =
    let entries = reverse (view m.frames) in
    let taken = count-take a n (purgeable m.allocator.objects entries) in
    let purged : 0 < count a (purgeable m.allocator.objects entries) = omega arith in
    let (k, e) = key_of frame_id_discrete a (view m.frames) (view-IsDistinct m h) (
      omega
        (arith, count-purgeable a m.allocator.objects entries, count-reverse a (view m.frames))) in
    (k, e, can_purge-purgeable a m.allocator.objects entries purged)

pinned_once :
    (f : Frame)
    → Frame.can_purge f ≡ true
    → ((Frame.pin f).pin_count ≡ 1) × ((Frame.pin f).frame_id ≡ f.frame_id)
unfolding Frame.pin Frame.can_purge
pinned_once f e = (let z : f.pin_count ≡ 0 = ground arith in rw z refl, refl)

-- Each frame without a pin has the id that the cache finds it by.
abbrev pub HasIds : FrameManager → Type 0
HasIds m =
    (k : FrameId) (a : ℕ)
    → frame_of k m ≡ some a
    → Frame.can_purge (m.allocator.objects a) ≡ true
    → (m.allocator.objects a).frame_id ≡ k

at_least_one-pos : (number : ℤ) → 0 < at_least_one number
unfolding at_least_one
at_least_one-pos (pos zero) = omega arith
at_least_one-pos (pos (suc n)) = omega arith
at_least_one-pos (negsuc n) = omega arith

pins-one : (f : Frame) → pins 1 f ≡ Frame.pin f
unfolding pins
pins-one f = refl

module _ (m : FrameManager) (h : IsValid m) (n : ℕ) where
  -- The frames that the first loop takes.
  abbrev taken : List ℕ
  taken = take n (purgeable m.allocator.objects (reverse (view m.frames)))

  foreach_reverse-taken :
      0 < n
      → let (objects', found) =
          foreach_reverse (purge_finder n) m.frames (m.allocator.objects, []) in
        (found ≡ taken) × ((a : ℕ) → objects' a ≡ pins (count a found) (m.allocator.objects a))
  foreach_reverse-taken room =
      let (found, after) =
        visit_view-purgeable n m.allocator.objects (reverse (view m.frames)) m.allocator.objects []
          (λ a. sym (pins-zero (m.allocator.objects a))) (λ a. omega (arith, view-once m h a))
          room in
      let all : n - 0 ≡ n = omega arith in
      rw (foreach_reverse-visit_view (purge_finder n) m.frames (m.allocator.objects, [])) (
        found
            ∙ ap (λ (k : ℕ). take k (purgeable m.allocator.objects (reverse (view m.frames)))) all,
        after,
      )

  -- Each is registered when the first loop has pinned it.
  taken-IsRegistered :
      (objects : ℕ → Frame)
      → ((a : ℕ) → objects a ≡ pins (count a taken) (m.allocator.objects a))
      → HasIds m
      → (a : ℕ) → 0 < count a taken
      → IsRegistered
          (record m { allocator = record m.allocator { objects = objects } })
          (Frame.pin (m.allocator.objects a))
          a
  taken-IsRegistered objects after ids a there =
      let (k, e, free_of_pins) = found-key m h n a there in
      let (one, same) = pinned_once (m.allocator.objects a) free_of_pins in
      let once : count a taken ≡ 1 = omega (arith, count-found m h n a) in
      record {
        here =
            after a
            ∙ ap (λ (c : ℕ). pins c (m.allocator.objects a)) once
            ∙ pins-one (m.allocator.objects a);
        held = ap (λ (j : FrameId). frame_of j m) (same ∙ ids k a e free_of_pins) ∙ e;
        pinned = one;
      }

module _ (debug : Bool) (page : Page) (purger : ℕ → Frame → Frame × Bool)
    (keeps : Keeps purger) where
  -- In a valid manager in which each frame without a pin has the id that the cache finds it by,
  -- which `alloc` leaves to its caller to set, `purge_frames` takes the frames without a pin from
  -- the least recently used on, as many as asked for and at least one. It returns, and fails no
  -- assertion, when the purger keeps the id and the pin count of a frame. Those taken frames that
  -- the purger accepts are freed: their pages leave the cache, the others keep their order, the
  -- frames join the free list, and their number is returned. A refused frame is as the purger
  -- leaves it, without the pin; a frame that was not taken is unchanged. The manager stays valid.
  pub purge_frames-accepted :
      (m : FrameManager) (number : ℤ)
      → IsValid m
      → HasIds m
      → let pinned = λ (a : ℕ). Frame.pin (m.allocator.objects a) in
        let found =
          take (at_least_one number) (purgeable m.allocator.objects (reverse (view m.frames))) in
        let freed = accepted purger pinned found in
        (m' : FrameManager) × (purge_frames debug page m number purger ≡ done (m', length freed))
        × IsValid m'
        × (view m'.frames ≡ without_all pinned freed (view m.frames))
        × (m'.allocator.frees ≡ m.allocator.frees ++ freed)
        × ((b : ℕ) → count b found ≡ 0 → m'.allocator.objects b ≡ m.allocator.objects b)
        × ((b : ℕ)
            → 0 < count b found
            → (purger b (pinned b)).1 ≡ false
            → m'.allocator.objects b ≡ Frame.unpin (purger b (pinned b)).0)
  unfolding purge_frames
  purge_frames-accepted m number h ids =
      let n = at_least_one number in
      let pinned = λ (a : ℕ). Frame.pin (m.allocator.objects a) in
      let visited = foreach_reverse (purge_finder n) m.frames (m.allocator.objects, []) in
      let (found, after) = foreach_reverse-taken m h n (at_least_one-pos number) in
      let m1 = record m { allocator = record m.allocator { objects = visited.0 } } in
      let after' : (a : ℕ) → visited.0 a ≡ pins (count a (taken m h n)) (m.allocator.objects a) =
        λ a. after a ∙ ap (λ (l : List ℕ). pins (count a l) (m.allocator.objects a)) found in
      let (m', run, p) =
        purge_found-Purged debug page purger keeps pinned (taken m h n) 0 m1
          (same-IsValid m m.frames visited.0 h h.coherent (λ k. refl))
          (taken-IsRegistered m h n visited.0 after' ids) (count-found m h n) in
      (
        m',
        ap (λ (l : List ℕ). purge_found debug page purger l 0 m1) found
            ∙ run
            ∙ ap (λ (k : ℕ). done (m', k)) (omega arith),
        p.valid,
        p.order,
        p.frees,
        λ b z.
            p.others b z
            ∙ after' b
            ∙ ap (λ (c : ℕ). pins c (m.allocator.objects b)) z
            ∙ pins-zero (m.allocator.objects b),
        p.refused,
      )
