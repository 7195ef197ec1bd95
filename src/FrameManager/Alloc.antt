-- ===== src/FrameManager/Alloc.antt =====
-- What `alloc` does to the pages that the manager holds.
use dimdb.Prelude.{
  ℕ, ◌+◌, ◌≡◌, ◌≢◌, refl, sym, ap, ◌∙◌, Bool, true, false, not, ◌&&◌, some, List, ◌∷◌, count, ite,
  ◌==◌, if◌then◌else◌, arith, inl, inr,
}
use dimdb.Prelude.Int.{ℤ, negsuc}
use dimdb.Outcome.{done}
use dimdb.Page.{Page}
use dimdb.Frame
use dimdb.Frame.{FrameId, Frame}
use dimdb.Frame.Id.{frame_id_discrete}
use dimdb.LruCache.Index.{value_of, without}
use dimdb.LruCache.Refines.{view, put-store}
use dimdb.MemPool.Share.{alloc-IsValid}
use dimdb.FrameManager.{FrameManager, IsValid, pooled_frames, store, frame_of, alloc}
use dimdb.FrameManager.Keys.{value_of-cons}
use dimdb.FrameManager.Shared.{id_of, update-IsValid, ite-some}

module _ (m : FrameManager) (buffer_pool_id page_num : ℤ) (h : IsValid m) (debug : Bool)
    (page : Page) where
  -- `alloc` takes the frame that has been free for longest. It gives it the pool id, the page number in the
  -- page's header and one pin, and makes it the frame of the page, the most recently used one. It
  -- changes no other frame and keeps the manager valid; no assertion fails.
  pub alloc-frame_of :
      (a : ℕ) (frees : List ℕ)
      → m.allocator.frees ≡ a ∷ frees
      → (m' : FrameManager) × (alloc debug page m buffer_pool_id page_num ≡ done (m', a))
        × IsValid m'
        × (view m'.frames
            ≡ (id_of buffer_pool_id page_num, a)
              ∷ without frame_id_discrete (id_of buffer_pool_id page_num) (view m.frames))
        × (m'.allocator.frees ≡ frees)
        × ((m'.allocator.objects a).pin_count ≡ 1)
        × ((m'.allocator.objects a).page.header.page_num ≡ page_num)
        × ((m'.allocator.objects a).frame_id ≡ id_of buffer_pool_id (negsuc 0))
        × ((b : ℕ) → a ≢ b → m'.allocator.objects b ≡ m.allocator.objects b)
  unfolding alloc Frame.reinit Frame.pin Frame.set_page_num Frame.set_buffer_pool_id
  alloc-frame_of a frees e =
      let (p, took, valid, not_null, unused, used_p, frees_p, size_p, objects_p) =
        alloc-IsValid (pooled_frames page) m.allocator a frees h.pool e in
      let (c, put_c, coherent, moved) =
        put-store frame_id_discrete m.frames (id_of buffer_pool_id page_num) h.coherent a in
      let here : p.objects a ≡ Frame.reinit (m.allocator.objects a) = objects_p a ∙ ground arith in
      let found : (k : FrameId)
          → value_of frame_id_discrete k (view c)
            ≡ ite (frame_id_discrete (id_of buffer_pool_id page_num) k) (some a) (frame_of k m) =
        λ k.
          ap (value_of frame_id_discrete k) moved
          ∙ value_of-cons frame_id_discrete m.frames h.coherent (id_of buffer_pool_id page_num) a
              k in
      let others : (k : FrameId) → frame_of k m ≢ some a =
        λ k f. omega (arith, h.in_use k a f, unused) in
      let count_p : (b : ℕ)
          → count b p.used ≡ (if a == b then 1 else 0) + count b m.allocator.used =
        λ b. rw used_p (omega arith) in
      let self : (a == a) ≡ true = ground arith in
      let some_frame : (a == 0) ≡ false = ground (arith, not_null) in
      let quiet : (debug && not ((p.objects a).pin_count == 0)) ≡ false = rw here (ground arith) in
      (
        store a
            (Frame.pin
              (Frame.set_page_num (Frame.set_buffer_pool_id (p.objects a) buffer_pool_id) page_num))
            (record { frames = c; allocator = p }),
        rw (took, some_frame, quiet, put_c) refl,
        record {
          coherent = coherent;
          pool = update-IsValid p _ valid;
          in_use = λ k b f.
              elim (ite-some (frame_id_discrete (id_of buffer_pool_id page_num) k) a b
                (frame_of k m) (sym (found k) ∙ f)) [
                  | inl (q, e') ↦ ground (arith, count_p b, e')
                  | inr f' ↦ omega (arith, count_p b, h.in_use k b f')
                ];
          apart = λ j k b f g.
              elim (ite-some (frame_id_discrete (id_of buffer_pool_id page_num) j) a b
                (frame_of j m) (sym (found j) ∙ f)) [
                  | inl (q, e') ↦
                      elim (ite-some (frame_id_discrete (id_of buffer_pool_id page_num) k) a b
                        (frame_of k m) (sym (found k) ∙ g)) [
                          | inl (q', _) ↦ sym q ∙ q'
                          | inr g' ↦ absurd (others k (g' ∙ ap some (sym e')))
                        ]
                  | inr f' ↦
                      elim (ite-some (frame_id_discrete (id_of buffer_pool_id page_num) k) a b
                        (frame_of k m) (sym (found k) ∙ g)) [
                          | inl (_, e') ↦ absurd (others j (f' ∙ ap some (sym e')))
                          | inr g' ↦ h.apart j k b f' g'
                        ]
                ];
        },
        moved,
        frees_p,
        rw (self, here) refl,
        rw self refl,
        rw (self, here) refl,
        λ b n. ground (arith, n, objects_p b),
      )
