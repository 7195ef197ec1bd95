-- ===== src/FrameManager/Shared.antt =====
-- The invariant of the frame manager: what it says of a frame in use, and what it does not depend on.
use dimdb.Prelude.{
  ℕ, ◌<◌, ◌≡◌, ◌≢◌, sym, ap, ◌∙◌, false, Option, none, some, ◌⊎◌, count, ite, ◌==◌, arith,
  Bool-cases, inl, inr,
}
use dimdb.Prelude.Int.{ℤ}
use dimdb.Frame.{FrameId, Frame}
use dimdb.Frame.Id.{frame_id_discrete}
use dimdb.LruCache.{LruCache, IsCoherent}
use dimdb.LruCache.Index.{value_of}
use dimdb.LruCache.Refines.{view}
use dimdb.MemPool
use dimdb.MemPool.{MemPool, Pooled, update, slots}
use dimdb.FrameManager.{FrameManager, IsValid, frame_of}

pub update-IsValid :
    (p : MemPool Frame) (objects : ℕ → Frame)
    → MemPool.IsValid p
    → MemPool.IsValid (record p { objects = objects })
update-IsValid p objects h = record {
  shared_out = h.shared_out;
  once = h.once;
  in_memory = h.in_memory;
  not_null = h.not_null;
  heap_not_null = h.heap_not_null;
  sized = h.sized;
  pooled = h.pooled;
}

pub ite-some :
    {P : Type 0} (d : Dec P) (a b : ℕ) (o : Option ℕ)
    → ite d (some a) o ≡ some b
    → (P × (a ≡ b)) ⊎ (o ≡ some b)
ite-some (yes p) a b o h = inl (p, ground arith)
ite-some (no n) a b o h = inr h

pub ite-none :
    {P : Type 0} (d : Dec P) (a b : ℕ) (o : Option ℕ)
    → (o ≡ some b → a ≡ b → P)
    → ite d none o ≡ some b
    → (a ≢ b) × (o ≡ some b)
ite-none (yes p) a b o f h = absurd (ground arith)
ite-none (no n) a b o f h = (λ e. n (f h e), h)

-- The page's frame id.
abbrev pub id_of : ℤ → ℤ → FrameId
id_of buffer_pool_id page_num = record { buffer_pool_id = buffer_pool_id; page_num = page_num }

pub slot-in_use :
    (m : FrameManager) (a : ℕ)
    → IsValid m
    → 0 < count a m.allocator.used
    → (slots m.allocator.item_num_per_pool a m.allocator.pools == 0) ≡ false
slot-in_use m a h in_use = ground (arith, h.pool.shared_out a)

pub not_null-in_use :
    (m : FrameManager) (a : ℕ) → IsValid m → 0 < count a m.allocator.used → (a == 0) ≡ false
not_null-in_use m a h in_use = elim (Bool-cases (a == 0)) [
  | inl e ↦
      let z : a ≡ 0 = ground (arith, e) in
      absurd (
        omega
          (arith, h.pool.shared_out 0, h.pool.not_null, ap (λ (x : ℕ). count x m.allocator.used) z))
  | inr e ↦ e
]

-- A manager with the same memory shares, whose cache finds the same frames.
pub same-IsValid :
    (m : FrameManager) (frames : LruCache FrameId ℕ) (objects : ℕ → Frame)
    → IsValid m
    → IsCoherent frame_id_discrete frames
    → ((k : FrameId) → value_of frame_id_discrete k (view frames) ≡ frame_of k m)
    → IsValid (record { frames = frames; allocator = record m.allocator { objects = objects } })
same-IsValid m frames objects h c e = record {
  coherent = c;
  pool = update-IsValid m.allocator objects h.pool;
  in_use = λ k a f. h.in_use k a (sym (e k) ∙ f);
  apart = λ j k a f g. h.apart j k a (sym (e j) ∙ f) (sym (e k) ∙ g);
}
