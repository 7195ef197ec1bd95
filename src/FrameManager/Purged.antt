-- ===== src/FrameManager/Purged.antt =====
-- The second loop of `purge_frames`, over frames of which each stands under its own id.
use mathlib.Core.Path.{subst}
use dimdb.Prelude.{
  ℕ, ◌+◌, ◌≤◌, ◌<◌, ◌≡◌, ◌≢◌, refl, sym, ap, ◌∙◌, Bool, true, false, List, [], ◌∷◌, ◌++◌, count,
  length, if_neg, ◌==◌, arith, append_assoc, append_nil, Bool-cases, inl, inr,
}
use dimdb.Outcome.{done}
use dimdb.Page.{Page}
use dimdb.Frame
use dimdb.Frame.{FrameId, Frame}
use dimdb.Frame.Id.{frame_id_discrete}
use dimdb.LruCache.Index.{value_of, without}
use dimdb.LruCache.Refines.{view}
use dimdb.MemPool.{update, slots}
use dimdb.FrameManager.{FrameManager, IsValid, store, free_internal, purge_found}
use dimdb.FrameManager.Keys.{value_of-without-view}
use dimdb.FrameManager.Shared.{slot-in_use}
use dimdb.FrameManager.Registered.{
  Keeps, IsRegistered, store-IsValid, update_self, update_other, IsRegistered-apart,
  free_internal-accepted, accepted, without_all, absent, tail_absent, head_absent,
}

module _ (debug : Bool) (page : Page) (purger : ℕ → Frame → Frame × Bool) (keeps : Keeps purger)
    (before : ℕ → Frame) where
  -- What the second loop leaves of `m`.
  pub record Purged (found : List ℕ) (m m' : FrameManager) : Type 0 where
    pub valid : IsValid m'
    pub order : view m'.frames ≡ without_all before (accepted purger before found) (view m.frames)
    pub frees : m'.allocator.frees ≡ m.allocator.frees ++ accepted purger before found
    pub others : (b : ℕ) → count b found ≡ 0 → m'.allocator.objects b ≡ m.allocator.objects b
    pub refused :
        (b : ℕ)
        → 0 < count b found
        → (purger b (before b)).1 ≡ false
        → m'.allocator.objects b ≡ Frame.unpin (purger b (before b)).0

  -- The frames behind the first are registered when it is freed or unpinned.
  IsRegistered-freed :
      (m m2 : FrameManager) (a b : ℕ) (f g : Frame)
      → IsValid m
      → IsRegistered m f a
      → IsRegistered m g b
      → a ≢ b
      → view m2.frames ≡ without frame_id_discrete f.frame_id (view m.frames)
      → m2.allocator.objects b ≡ m.allocator.objects b
      → IsRegistered m2 g b
  IsRegistered-freed m m2 a b f g h r r' n order same = record {
    here = same ∙ r'.here;
    held =
        ap (value_of frame_id_discrete g.frame_id) order
        ∙ value_of-without-view frame_id_discrete m.frames h.coherent f.frame_id g.frame_id
        ∙ if_neg (frame_id_discrete f.frame_id g.frame_id) (IsRegistered-apart m f g a b r r' n) _ _
        ∙ r'.held;
    pinned = r'.pinned;
  }

  -- One round of the loop.
  purge_found-accepted :
      (a : ℕ) (found : List ℕ) (n : ℕ) (m m2 : FrameManager)
      → (slots m.allocator.item_num_per_pool a m.allocator.pools == 0) ≡ false
      → m.allocator.objects a ≡ before a
      → (purger a (before a)).1 ≡ true
      → free_internal debug page
          (store a (purger a (before a)).0 m)
          (purger a (before a)).0.frame_id
          a
        ≡ done m2
      → purge_found debug page purger (a ∷ found) n m
        ≡ purge_found debug page purger found (n + 1) m2
  unfolding purge_found
  purge_found-accepted a found n m m2 slot here =
      subst
        (λ (f : Frame).
          (purger a f).1 ≡ true
          → free_internal debug page (store a (purger a f).0 m) (purger a f).0.frame_id a ≡ done m2
          → purge_found debug page purger (a ∷ found) n m
            ≡ purge_found debug page purger found (n + 1) m2)
        here (λ e freed. rw (slot, e, freed) refl)

  purge_found-refused :
      (a : ℕ) (found : List ℕ) (n : ℕ) (m : FrameManager)
      → (slots m.allocator.item_num_per_pool a m.allocator.pools == 0) ≡ false
      → m.allocator.objects a ≡ before a
      → (purger a (before a)).1 ≡ false
      → purge_found debug page purger (a ∷ found) n m
        ≡ purge_found debug page purger found n
            (store a (Frame.unpin (purger a (before a)).0) (store a (purger a (before a)).0 m))
  unfolding purge_found
  purge_found-refused a found n m slot here =
      subst
        (λ (f : Frame).
          (purger a f).1 ≡ false
          → purge_found debug page purger (a ∷ found) n m
            ≡ purge_found debug page purger found n
                (store a (Frame.unpin (purger a f).0) (store a (purger a f).0 m)))
        here (λ e. rw (slot, e) refl)

  pub purge_found-Purged :
      (found : List ℕ) (n : ℕ) (m : FrameManager)
      → IsValid m
      → ((a : ℕ) → 0 < count a found → IsRegistered m (before a) a)
      → ((a : ℕ) → count a found ≤ 1)
      → (m' : FrameManager) × (purge_found debug page purger found n m
          ≡ done (m', n + length (accepted purger before found)))
        × Purged found m m'
  unfolding purge_found accepted without_all
  purge_found-Purged [] n m h reg once = (
    m,
    ap (λ (k : ℕ). done (m, k)) (omega arith),
    record {
      valid = h;
      order = refl;
      frees = sym (append_nil _);
      others = λ b z. refl;
      refused = λ b t. absurd (omega arith);
    },
  )
  purge_found-Purged (a ∷ found) n m h reg once =
      let r = reg a (ground arith) in
      let f' = (purger a (before a)).0 in
      let slot = slot-in_use m a h (h.in_use _ a r.held) in
      let tail_once : (b : ℕ) → count b found ≤ 1 = λ b. ground (arith, once b) in
      let old : (b : ℕ) → 0 < count b found → IsRegistered m (before b) b =
        λ b t. reg b (ground (arith, t)) in
      elim (Bool-cases (purger a (before a)).1) [
        | inl e ↦
            let more : accepted purger before (a ∷ found) ≡ a ∷ accepted purger before found =
              rw e refl in
            let (m2, freed, valid, order, frees, others) =
              free_internal-accepted debug page m (before a) f' a h r (keeps.frame_id a (before a))
                (keeps.pin_count a (before a)) in
            let (m', rest, p) =
              purge_found-Purged found (n + 1) m2 valid
                (λ b t.
                  let apart = absent a b found (once a) t in
                  IsRegistered-freed m m2 a b (before a) (before b) h r (old b t) apart order
                    (others b apart))
                tail_once in
            (
              m',
              purge_found-accepted a found n m m2 slot r.here e freed
                  ∙ rest
                  ∙ ap (λ (k : ℕ). done (m', k))
                      (omega (arith, ap (λ (l : List ℕ). length l) more)),
              record {
                valid = p.valid;
                order =
                    p.order
                    ∙ ap (without_all before (accepted purger before found)) order
                    ∙ ap (λ (l : List ℕ). without_all before l (view m.frames)) (sym more);
                frees =
                    p.frees
                    ∙ ap (λ (l : List ℕ). l ++ accepted purger before found) frees
                    ∙ append_assoc m.allocator.frees (a ∷ []) (accepted purger before found)
                    ∙ ap (λ (l : List ℕ). m.allocator.frees ++ l) (sym more);
                others = λ b z.
                    p.others b (tail_absent a b found z) ∙ others b (head_absent a b found z);
                refused = λ b t no. elim (Bool-cases (a == b)) [
                  | inl same ↦
                      (let same' : a ≡ b = ground arith in
                        absurd
                          (ground (arith, e, no, ap (λ (x : ℕ). (purger x (before x)).1) same')))
                  | inr other ↦ p.refused b (ground (arith, t, other)) no
                ];
              },
            )
        | inr e ↦
            let more : accepted purger before (a ∷ found) ≡ accepted purger before found =
              rw e refl in
            let m2 = store a (Frame.unpin f') (store a f' m) in
            let same : (b : ℕ) → a ≢ b → m2.allocator.objects b ≡ m.allocator.objects b = λ b apart.
              update_other (update m.allocator.objects a f') a (Frame.unpin f') b apart
              ∙ update_other m.allocator.objects a f' b apart in
            let (m', rest, p) =
              purge_found-Purged found n m2
                (store-IsValid (store a f' m) a (Frame.unpin f') (store-IsValid m a f' h))
                (λ b t.
                  let o = old b t in
                  record {
                    here = same b (absent a b found (once a) t) ∙ o.here;
                    held = o.held;
                    pinned = o.pinned;
                  })
                tail_once in
            (
              m',
              purge_found-refused a found n m slot r.here e
                  ∙ rest
                  ∙ ap (λ (l : List ℕ). done (m', n + length l)) (sym more),
              record {
                valid = p.valid;
                order =
                    p.order ∙ ap (λ (l : List ℕ). without_all before l (view m.frames)) (sym more);
                frees = p.frees ∙ ap (λ (l : List ℕ). m.allocator.frees ++ l) (sym more);
                others =
                    λ b z. p.others b (tail_absent a b found z) ∙ same b (head_absent a b found z);
                refused = λ b t no. elim (Bool-cases (a == b)) [
                  | inl eq ↦
                      (let eq' : a ≡ b = ground arith in
                        let gone : count a found ≡ 0 = ground (arith, once a) in
                        rw (← eq') (
                          p.others a gone
                          ∙ update_self (update m.allocator.objects a f') a (Frame.unpin f')))
                  | inr other ↦ p.refused b (ground (arith, t, other)) no
                ];
              },
            )
      ]
