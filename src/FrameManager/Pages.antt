-- ===== src/FrameManager/Pages.antt =====
-- What `get` and `free` do to the pages that the manager holds.
use dimdb.Prelude.{
  ℕ, ◌+◌, ◌<◌, ◌≡◌, ◌≢◌, refl, sym, ap, ◌∙◌, Bool, true, false, not, ◌&&◌, none, some, [], ◌∷◌,
  ◌++◌, count, count-remove_one, ite, ◌==◌, if◌then◌else◌, arith,
}
use dimdb.Prelude.Int.{ℤ, negsuc}
use dimdb.Outcome.{done, abort}
use dimdb.Page.{Page}
use dimdb.Frame
use dimdb.Frame.{FrameId, Frame}
use dimdb.Frame.Id.{frame_id_discrete}
use dimdb.LruCache.Index.{value_of, without}
use dimdb.LruCache.Refines.{view, promote, get-promote, remove-without}
use dimdb.MemPool.{MemPool, update}
use dimdb.MemPool.Share.{free-IsValid}
use dimdb.FrameManager.{
  FrameManager, IsValid, pooled_frames, store, frame_of, get, get_internal, free, free_internal,
  is_pinned_once,
}
use dimdb.FrameManager.Keys.{value_of-without-view, value_of-promote, without-promote, without-none}
use dimdb.FrameManager.Shared.{
  id_of, update-IsValid, ite-none, slot-in_use, not_null-in_use, same-IsValid,
}

module _ (m : FrameManager) (buffer_pool_id page_num : ℤ) (h : IsValid m) where
  -- `get` of a page that the manager holds returns its frame with one more pin. It makes the page
  -- the most recently used one, changes no other frame, and keeps the manager valid.
  pub get-frame_of :
      (a : ℕ)
      → frame_of (id_of buffer_pool_id page_num) m ≡ some a
      → (m' : FrameManager) × (get m buffer_pool_id page_num ≡ done (m', a))
        × IsValid m'
        × (view m'.frames
            ≡ promote frame_id_discrete (id_of buffer_pool_id page_num) (view m.frames))
        × ((b : ℕ)
            → m'.allocator.objects b
              ≡ (if a == b then Frame.pin (m.allocator.objects a) else m.allocator.objects b))
  unfolding get get_internal
  get-frame_of a e =
      let (c, got, coherent, moved) =
        get-promote frame_id_discrete m.frames (id_of buffer_pool_id page_num) h.coherent in
      let in_use = h.in_use _ a e in
      (
        store a (Frame.pin (m.allocator.objects a)) (record m { frames = c }),
        rw (got, e, not_null-in_use m a h in_use, slot-in_use m a h in_use) refl,
        same-IsValid m c _ h coherent
            (λ k. rw moved (value_of-promote frame_id_discrete m.frames h.coherent _ k)),
        moved,
        λ b. refl,
      )

  -- `get` of another page returns the null pointer and changes nothing.
  pub get-none :
      frame_of (id_of buffer_pool_id page_num) m ≡ none
      → (m' : FrameManager) × (get m buffer_pool_id page_num ≡ done (m', 0))
        × IsValid m'
        × (view m'.frames ≡ view m.frames)
        × (m'.allocator ≡ m.allocator)
  unfolding get get_internal promote
  get-none e =
      let (c, got, coherent, moved) =
        get-promote frame_id_discrete m.frames (id_of buffer_pool_id page_num) h.coherent in
      (
        record m { frames = c },
        rw (got, e) refl,
        same-IsValid m c m.allocator.objects h coherent
            (λ k. rw moved (value_of-promote frame_id_discrete m.frames h.coherent _ k)),
        moved ∙ ground (arith, e),
        refl,
      )

  module _ (debug : Bool) (page : Page) where
    -- `free` of the frame of a page, while it has one pin, gives the frame back and takes the page out. It
    -- changes no other frame, keeps the order of the other pages, and keeps the manager valid; no
    -- assertion fails.
    pub free-frame_of :
        (a : ℕ)
        → frame_of (id_of buffer_pool_id page_num) m ≡ some a
        → (m.allocator.objects a).pin_count ≡ 1
        → (m' : FrameManager) × (free debug page m buffer_pool_id page_num a ≡ done m')
          × IsValid m'
          × (view m'.frames
              ≡ without frame_id_discrete (id_of buffer_pool_id page_num) (view m.frames))
          × (m'.allocator.frees ≡ m.allocator.frees ++ a ∷ [])
          × (count a m'.allocator.used ≡ 0)
          × ((b : ℕ) → a ≢ b → m'.allocator.objects b ≡ m.allocator.objects b)
    unfolding free free_internal Frame.pin
    free-frame_of a e pinned =
        let dec = frame_id_discrete in
        let id = id_of buffer_pool_id page_num in
        let in_use = h.in_use id a e in
        let (c, got, coherent, moved) = get-promote dec m.frames id h.coherent in
        let (c', removed, coherent', rest) = remove-without dec c id coherent in
        let f = Frame.unpin (Frame.set_page_num (m.allocator.objects a) (negsuc 0)) in
        let p1 : MemPool Frame = record m.allocator { objects = update m.allocator.objects a f } in
        let (p, freed, valid, used_p, frees_p, size_p, unused, objects_p) =
          free-IsValid (pooled_frames page) p1 a (update-IsValid m.allocator _ h.pool) in_use in
        let order : view c' ≡ without dec id (view m.frames) =
          rest ∙ ap (without dec id) moved ∙ without-promote dec id (view m.frames) in
        let found : (k : FrameId) → value_of dec k (view c') ≡ ite (dec id k) none (frame_of k m) =
          λ k. ap (value_of dec k) order ∙ value_of-without-view dec m.frames h.coherent id k in
        let held : (k : FrameId) (b : ℕ)
            → frame_of k (record { frames = c'; allocator = p }) ≡ some b
            → (a ≢ b) × (frame_of k m ≡ some b) =
          λ k b g.
            ite-none (dec id k) a b (frame_of k m) (λ g' ab. h.apart id k b (e ∙ ap some ab) g')
              (sym (found k) ∙ g) in
        let counts : (b : ℕ)
            → count b p.used + (if a == b then 1 else 0) ≡ count b m.allocator.used =
          λ b. rw used_p (count-remove_one a b m.allocator.used in_use) in
        let once : is_pinned_once (some a) a (m.allocator.objects a) ≡ true = ground arith in
        let quiet : (debug && not true) ≡ false = ground arith in
        (
          record { frames = c'; allocator = p },
          rw (got, slot-in_use m a h in_use, e, once, quiet, removed, freed) refl,
          record {
            coherent = coherent';
            pool = valid;
            in_use =
                λ k b g. (let (n, g1) = held k b g in ground (arith, counts b, h.in_use k b g1, n));
            apart = λ j k b g g'. h.apart j k b (held j b g).1 (held k b g').1;
          },
          order,
          frees_p,
          unused,
          λ b n. ground (arith, objects_p b, n),
        )

    -- `free` of a frame in use under a page that the manager does not hold aborts in a debug build.
    -- In a release build it returns the frame to the pool, and leaves it in the cache if the cache
    -- maps another page to it.
    pub free-unmapped :
        (a : ℕ)
        → frame_of (id_of buffer_pool_id page_num) m ≡ none
        → 0 < count a m.allocator.used
        → (m' : FrameManager) × (free debug page m buffer_pool_id page_num a
            ≡ (if debug then abort else done m'))
          × (view m'.frames ≡ view m.frames)
          × (m'.allocator.frees ≡ m.allocator.frees ++ a ∷ [])
          × (count a m'.allocator.used ≡ 0)
    unfolding free free_internal
    free-unmapped a e in_use =
        let dec = frame_id_discrete in
        let id = id_of buffer_pool_id page_num in
        let (c, got, coherent, moved) = get-promote dec m.frames id h.coherent in
        let (c', removed, coherent', rest) = remove-without dec c id coherent in
        let f = Frame.unpin (Frame.set_page_num (m.allocator.objects a) (negsuc 0)) in
        let p1 : MemPool Frame = record m.allocator { objects = update m.allocator.objects a f } in
        let (p, freed, valid, used_p, frees_p, size_p, unused, objects_p) =
          free-IsValid (pooled_frames page) p1 a (update-IsValid m.allocator _ h.pool) in_use in
        (
          record { frames = c'; allocator = p },
          rw (got, slot-in_use m a h in_use, e, removed, freed) (ground arith),
          rest
              ∙ ap (without dec id) moved
              ∙ without-promote dec id (view m.frames)
              ∙ without-none dec id (view m.frames) e,
          frees_p,
          unused,
        )
