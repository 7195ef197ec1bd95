-- ===== src/FrameManager/Registered.antt =====
-- Frames of which each stands under its own id, and what freeing one of them does.
use dimdb.Prelude.{
  ℕ, ◌≤◌, ◌<◌, ◌≡◌, ◌≢◌, refl, ap, ◌∙◌, Bool, some, List, [], ◌∷◌, ◌++◌, count, if◌then◌else◌,
  arith,
}
use dimdb.Outcome.{done}
use dimdb.Page.{Page}
use dimdb.Frame.{FrameId, Frame}
use dimdb.Frame.Id.{frame_id_discrete}
use dimdb.LruCache.Index.{without}
use dimdb.LruCache.Refines.{view}
use dimdb.MemPool.{update}
use dimdb.FrameManager.{FrameManager, IsValid, store, frame_of, free, free_internal}
use dimdb.FrameManager.Shared.{same-IsValid}
use dimdb.FrameManager.Pages.{free-frame_of}

-- A purger that keeps what `free_internal` reads.
pub record Keeps (purger : ℕ → Frame → Frame × Bool) : Type 0 where
  pub frame_id : (a : ℕ) (f : Frame) → (purger a f).0.frame_id ≡ f.frame_id
  pub pin_count : (a : ℕ) (f : Frame) → (purger a f).0.pin_count ≡ f.pin_count

-- The frame has one pin, and its own id is the key that it stands under.
pub record IsRegistered (m : FrameManager) (f : Frame) (a : ℕ) : Type 0 where
  pub here : m.allocator.objects a ≡ f
  pub held : frame_of f.frame_id m ≡ some a
  pub pinned : f.pin_count ≡ 1

pub store-IsValid : (m : FrameManager) (a : ℕ) (f : Frame) → IsValid m → IsValid (store a f m)
unfolding store
store-IsValid m a f h = same-IsValid m m.frames _ h h.coherent (λ k. refl)

pub update_self : (objects : ℕ → Frame) (a : ℕ) (f : Frame) → update objects a f a ≡ f
update_self objects a f = ground arith

pub update_other :
    (objects : ℕ → Frame) (a : ℕ) (f : Frame) (b : ℕ) → a ≢ b → update objects a f b ≡ objects b
update_other objects a f b n = ground (arith, n)

-- Two registered frames have two ids.
pub IsRegistered-apart :
    (m : FrameManager) (f g : Frame) (a b : ℕ)
    → IsRegistered m f a
    → IsRegistered m g b
    → a ≢ b
    → f.frame_id ≢ g.frame_id
IsRegistered-apart m f g a b r r' n e =
    n (ground (arith, r.held, r'.held, ap (λ (k : FrameId). frame_of k m) e))

module _ (debug : Bool) (page : Page) (m : FrameManager) (f f' : Frame) (a : ℕ) (h : IsValid m)
    (r : IsRegistered m f a) (same_id : f'.frame_id ≡ f.frame_id)
    (same_pins : f'.pin_count ≡ f.pin_count) where
  -- An accepted frame is freed.
  pub free_internal-accepted :
      (m' : FrameManager) × (free_internal debug page (store a f' m) f'.frame_id a ≡ done m')
      × IsValid m'
      × (view m'.frames ≡ without frame_id_discrete f.frame_id (view m.frames))
      × (m'.allocator.frees ≡ m.allocator.frees ++ a ∷ [])
      × ((b : ℕ) → a ≢ b → m'.allocator.objects b ≡ m.allocator.objects b)
  unfolding store free
  free_internal-accepted =
      let id = f'.frame_id in
      let self = update_self m.allocator.objects a f' in
      let (m', freed, valid, order, frees, unused, others) =
        free-frame_of (store a f' m) id.buffer_pool_id id.page_num (store-IsValid m a f' h) debug
          page a (ap (λ (k : FrameId). frame_of k m) same_id ∙ r.held)
          (ap (λ (x : Frame). x.pin_count) self ∙ same_pins ∙ r.pinned) in
      (
        m',
        freed,
        valid,
        order ∙ ap (λ (k : FrameId). without frame_id_discrete k (view m.frames)) same_id,
        frees,
        λ b n. others b n ∙ update_other m.allocator.objects a f' b n,
      )

module _ (purger : ℕ → Frame → Frame × Bool) (before : ℕ → Frame) where
  -- The frames that the purger accepts.
  unfoldable pub accepted : List ℕ → List ℕ
  accepted [] = []
  accepted (a ∷ found) =
      let rest = accepted found in if (purger a (before a)).1 then a ∷ rest else rest

-- The recency list without the ids of the frames.
unfoldable pub without_all : (ℕ → Frame) → List ℕ → List (FrameId × ℕ) → List (FrameId × ℕ)
without_all before [] l = l
without_all before (a ∷ found) l =
    without_all before found (without frame_id_discrete (before a).frame_id l)

pub absent : (a b : ℕ) (found : List ℕ) → count a (a ∷ found) ≤ 1 → 0 < count b found → a ≢ b
absent a b found once there e =
    absurd (ground (arith, once, there, ap (λ (x : ℕ). count x found) e))

pub tail_absent : (a b : ℕ) (found : List ℕ) → count b (a ∷ found) ≡ 0 → count b found ≡ 0
tail_absent a b found z = omega (arith, z)

pub head_absent : (a b : ℕ) (found : List ℕ) → count b (a ∷ found) ≡ 0 → a ≢ b
head_absent a b found z e = absurd (ground (arith, z, e))
