-- ===== src/FrameManager/Ids.antt =====
-- The ids of frames: `alloc` leaves the id of a frame without its page number, and a caller sets it.
use dimdb.Prelude.{
  ℕ, ◌≡◌, ◌≢◌, refl, sym, ap, ◌∙◌, Bool, some, List, ◌∷◌, ◌==◌, arith, Bool-cases, inl, inr, if_pos,
  if_neg, ite,
}
use dimdb.Prelude.Int.{ℤ}
use dimdb.Outcome.{done}
use dimdb.Page.{Page}
use dimdb.Frame
use dimdb.Frame.{FrameId, Frame}
use dimdb.Frame.Id.{frame_id_discrete}
use dimdb.LruCache.Index.{value_of}
use dimdb.FrameManager.{FrameManager, IsValid, store, frame_of, alloc}
use dimdb.FrameManager.Shared.{same-IsValid}
use dimdb.FrameManager.Keys.{value_of-cons}
use dimdb.FrameManager.Alloc.{alloc-frame_of}
use dimdb.FrameManager.Purge.{HasIds}

frame_id-unpin : (f : Frame) → (Frame.unpin f).frame_id ≡ f.frame_id
unfolding Frame.unpin
frame_id-unpin f = ground arith

-- A caller that sets the id of the frame of a page to that of the page, and lets go of it, keeps the
-- manager valid and the ids in order.
pub set_frame_id-HasIds :
    (m : FrameManager) (k : FrameId) (a : ℕ)
    → IsValid m
    → HasIds m
    → frame_of k m ≡ some a
    → let m' = store a (Frame.unpin (Frame.set_frame_id (m.allocator.objects a) k)) m in
      IsValid m' × HasIds m'
unfolding store Frame.set_frame_id
set_frame_id-HasIds m k a h ids e = (
  same-IsValid m m.frames _ h h.coherent (λ j. refl),
  λ j b f free_of_pins. elim (Bool-cases (a == b)) [
    | inl same ↦
        let same' : a ≡ b = ground (arith, same) in
        let one : k ≡ j = h.apart k j b (e ∙ ap (λ (x : ℕ). some x) same') f in
        rw same (frame_id-unpin (Frame.set_frame_id (m.allocator.objects a) k) ∙ one)
    | inr other ↦ rw other (ids j b f (rw other at free_of_pins))
  ],
)

-- `alloc` keeps the ids of the frames without a pin: its own frame has one.
pub alloc-HasIds :
    (debug : Bool) (page : Page) (m : FrameManager) (buffer_pool_id page_num : ℤ) (a : ℕ)
    (frees : List ℕ)
    → IsValid m
    → HasIds m
    → m.allocator.frees ≡ a ∷ frees
    → (m' : FrameManager) × (alloc debug page m buffer_pool_id page_num ≡ done (m', a))
      × IsValid m'
      × HasIds m'
      × (frame_of (record { buffer_pool_id = buffer_pool_id; page_num = page_num }) m' ≡ some a)
unfolding Frame.can_purge
alloc-HasIds debug page m buffer_pool_id page_num a frees h ids e =
    let key : FrameId = record { buffer_pool_id = buffer_pool_id; page_num = page_num } in
    let (m', run, valid, order, frees', pinned, number, id, others) =
      alloc-frame_of m buffer_pool_id page_num h debug page a frees e in
    let found : (k : FrameId)
        → frame_of k m' ≡ ite (frame_id_discrete key k) (some a) (frame_of k m) =
      λ k.
        ap (value_of frame_id_discrete k) order
        ∙ value_of-cons frame_id_discrete m.frames h.coherent key a k in
    (
      m',
      run,
      valid,
      λ k b f free_of_pins. elim (Bool-cases (a == b)) [
        | inl same ↦
            let same' : a ≡ b = ground (arith, same) in
            absurd (
              ground (
                arith,
                pinned,
                free_of_pins,
                ap (λ (x : ℕ). (m'.allocator.objects x).pin_count) same',
              ))
        | inr other ↦
            let apart : a ≢ b = ground (arith, other) in
            elim (frame_id_discrete key k) [
              | yes y ↦ absurd (
                  apart
                    (ground (arith, sym (found k ∙ if_pos (frame_id_discrete key k) y _ _) ∙ f)))
              | no n ↦
                  ap (λ (g : Frame). g.frame_id) (others b apart)
                  ∙ ids k b (sym (found k ∙ if_neg (frame_id_discrete key k) n _ _) ∙ f)
                      (ap Frame.can_purge (sym (others b apart)) ∙ free_of_pins)
            ]
      ],
      found key ∙ if_pos (frame_id_discrete key key) refl _ _,
    )
