-- ===== src/FrameManager.antt =====
-- src/dimserver/storage/buffer/buffer_pool.cpp and buffer_pool.h: `FrameManager`.
--
-- A `Frame *` is an address of the allocator's memory. `debug` says whether the program is built
-- with DEBUG, where a failed `ASSERT` aborts; without it `ASSERT` does nothing. Each call holds the
-- mutex from its first to its last step. Log lines are left out.
mod Keys
mod Shared
pub mod Pages
pub mod Alloc
pub mod Pool
pub mod Once
pub mod Victims
pub mod Registered
pub mod Purged
pub mod Purge
pub mod Ids
mod Tests
use dimdb.Prelude.{
  ℕ, zero, suc, ◌+◌, ◌<◌, ◌≡◌, Bool, true, false, not, ◌&&◌, Option, none, some, List, [], ◌∷◌,
  ◌++◌, count, length, leb, ◌==◌, if◌then◌else◌,
}
use dimdb.Prelude.Int.{ℤ, pos, negsuc}
use dimdb.Outcome.{Outcome, done, fault, abort, ◌>>=◌}
use dimdb.Page.{Page}
use dimdb.Frame
use dimdb.Frame.{FrameId, Frame, new_frame}
use dimdb.Frame.Id.{frame_id_discrete}
use dimdb.LruCache
use dimdb.LruCache.{LruCache, IsCoherent}
use dimdb.LruCache.Index.{value_of}
use dimdb.LruCache.Refines.{view}
use dimdb.MemPool
use dimdb.MemPool.{MemPool, Pooled, update, slots}

pub record FrameManager : Type 0 where
  pub frames : LruCache FrameId ℕ
  pub allocator : MemPool Frame

-- The use of a dangling iterator is undefined behaviour.
abbrev pub defined {ℓ} : {A : Type ℓ} → Option A → Outcome A
defined none = fault
defined (some a) = done a

-- `*frame`
abbrev pub at : ℕ → FrameManager → Outcome Frame
at frame m =
    if slots m.allocator.item_num_per_pool frame m.allocator.pools == 0
    then fault
    else done (m.allocator.objects frame)

abbrev pub store : ℕ → Frame → FrameManager → FrameManager
store frame f m = record m {
  allocator = record m.allocator { objects = update m.allocator.objects frame f };
}

-- The frames of the allocator: `page` is the page before `Page::init` completes it.
abbrev pub pooled_frames : Page → Pooled Frame
pooled_frames page = record { fresh = new_frame page; reinit = Frame.reinit; reset = Frame.reset }

module _ (page : Page) where
  abbrev pub new_manager : FrameManager
  new_manager = record { frames = LruCache.empty; allocator = MemPool.empty (pooled_frames page) }

  -- The result is `RC::SUCCESS` for true, else `RC::NO_MEM_POOL`.
  pub init : ℕ → FrameManager → Outcome (FrameManager × Bool)
  init pool_num m = do
    (allocator, ok) ← MemPool.init (pooled_frames page) false pool_num 1 m.allocator
    done (record m { allocator = allocator }, ok)

pub cleanup : FrameManager → FrameManager × Bool
cleanup m =
    if not (LruCache.count m.frames == 0)
    then (m, false)
    else (record m { frames = LruCache.destroy m.frames }, true)

get_internal : FrameManager → FrameId → Outcome (FrameManager × ℕ)
get_internal m frame_id = do
  (frames, value) ← defined (LruCache.get frame_id_discrete m.frames frame_id)
  let m' = record m { frames = frames }
  elim value [
    | none ↦ done (m', 0)
    | some frame ↦
        if frame == 0
        then done (m', 0)
        else do f ← at frame m'; done (store frame (Frame.pin f) m', frame)
  ]

pub get : FrameManager → ℤ → ℤ → Outcome (FrameManager × ℕ)
unfolding get_internal
get m buffer_pool_id page_num =
    get_internal m (record { buffer_pool_id = buffer_pool_id; page_num = page_num })

-- One call of the `func` of `find_list`.
pin_of_pool : ℤ → FrameId → ℕ → (ℕ → Frame) × List ℕ → Bool × ((ℕ → Frame) × List ℕ)
pin_of_pool buffer_pool_id frame_id frame (objects, frames) =
    if Frame.eq_ℤ (Frame.buffer_pool_id (objects frame)) buffer_pool_id
    then (true, (update objects frame (Frame.pin (objects frame)), frames ++ frame ∷ []))
    else (true, (objects, frames))

pub find_list : FrameManager → ℤ → FrameManager × List ℕ
unfolding pin_of_pool
find_list m buffer_pool_id =
    let (objects, frames) =
      LruCache.foreach (pin_of_pool buffer_pool_id) m.frames (m.allocator.objects, []) in
    (record m { allocator = record m.allocator { objects = objects } }, frames)

module _ (debug : Bool) (page : Page) where
  pub alloc : FrameManager → ℤ → ℤ → Outcome (FrameManager × ℕ)
  alloc m buffer_pool_id page_num = do
    (allocator, frame) ← MemPool.alloc (pooled_frames page) m.allocator
    if frame == 0 then done (record m { allocator = allocator }, 0) else do
      let f = allocator.objects frame
      if debug && not (f.pin_count == 0) then abort else do
        frames ← defined (
            LruCache.put frame_id_discrete m.frames
              (record { buffer_pool_id = buffer_pool_id; page_num = page_num }) frame)
        done (
          store frame
              (Frame.pin (Frame.set_page_num (Frame.set_buffer_pool_id f buffer_pool_id) page_num))
              (record { frames = frames; allocator = allocator }),
          frame,
        )

-- `ret && frame == out && frame->pin_count() == 1`
abbrev pub is_pinned_once : Option ℕ → ℕ → Frame → Bool
is_pinned_once none frame f = false
is_pinned_once (some out) frame f = frame == out && f.pin_count == 1

-- `if (count <= 0) count = 1;`
pub at_least_one : ℤ → ℕ
at_least_one (pos zero) = 1
at_least_one (pos (suc n)) = suc n
at_least_one (negsuc n) = 1

-- `purge_finder`, with the frames found so far.
pub purge_finder : ℕ → FrameId → ℕ → (ℕ → Frame) × List ℕ → Bool × ((ℕ → Frame) × List ℕ)
purge_finder count frame_id frame (objects, found) =
    if Frame.can_purge (objects frame)
    then (
      not (leb count (length found + 1)),
      (update objects frame (Frame.pin (objects frame)), found ++ frame ∷ []),
    )
    else (true, (objects, found))

module _ (debug : Bool) (page : Page) where
  pub free_internal : FrameManager → FrameId → ℕ → Outcome FrameManager
  free_internal m frame_id frame = do
    (frames, out) ← defined (LruCache.get frame_id_discrete m.frames frame_id)
    f ← at frame m
    if debug && not (is_pinned_once out frame f) then abort else do
      frames' ← defined (LruCache.remove frame_id_discrete frames frame_id)
      let m' = store frame (Frame.unpin (Frame.set_page_num f (negsuc 0))) m
      allocator ← MemPool.free (pooled_frames page) frame m'.allocator
      done (record { frames = frames'; allocator = allocator })

  pub free : FrameManager → ℤ → ℤ → ℕ → Outcome FrameManager
  unfolding free_internal
  free m buffer_pool_id page_num frame =
      free_internal m (record { buffer_pool_id = buffer_pool_id; page_num = page_num }) frame

  -- The second loop, with `freed_count`. `purger` is true for `RC::SUCCESS`, and may change the frame.
  -- It gets a pointer to each frame once, so that its answer, whatever state it keeps, is a function
  -- of the address and the frame.
  pub purge_found :
      (ℕ → Frame → Frame × Bool) → List ℕ → ℕ → FrameManager → Outcome (FrameManager × ℕ)
  unfolding free_internal
  purge_found purger [] freed_count m = done (m, freed_count)
  purge_found purger (frame ∷ found) freed_count m = do
    f ← at frame m
    let (f', ok) = purger frame f
    let m' = store frame f' m
    elim ok [
      | true ↦ do
        m'' ← free_internal m' f'.frame_id frame
        purge_found purger found (freed_count + 1) m''
      | false ↦ purge_found purger found freed_count (store frame (Frame.unpin f') m')
    ]

  pub purge_frames : FrameManager → ℤ → (ℕ → Frame → Frame × Bool) → Outcome (FrameManager × ℕ)
  unfolding at_least_one purge_finder purge_found
  purge_frames m count purger =
      let (objects, found) =
        LruCache.foreach_reverse (purge_finder (at_least_one count)) m.frames
          (m.allocator.objects, []) in
      purge_found purger found 0 (record m { allocator = record m.allocator { objects = objects } })

abbrev pub frame_of : FrameId → FrameManager → Option ℕ
frame_of frame_id m = value_of frame_id_discrete frame_id (view m.frames)

-- The cache is coherent, the pool is valid, and the cache maps each key to a frame of its own that
-- is in use.
pub record IsValid (m : FrameManager) : Type 0 where
  pub coherent : IsCoherent frame_id_discrete m.frames
  pub pool : MemPool.IsValid m.allocator
  pub in_use : (k : FrameId) (a : ℕ) → frame_of k m ≡ some a → 0 < count a m.allocator.used
  pub apart : (j k : FrameId) (a : ℕ) → frame_of j m ≡ some a → frame_of k m ≡ some a → j ≡ k
