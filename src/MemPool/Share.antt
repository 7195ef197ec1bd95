-- ===== src/MemPool/Share.antt =====
-- `MemPoolSimple` keeps its objects apart: what `alloc` and `free` do, on every branch.
use dimdb.Prelude.{
  ℕ, suc, ◌+◌, ◌<◌, ◌≡◌, ◌≢◌, refl, ap, List, [], ◌∷◌, ◌++◌, length, count, remove_one,
  length-append, count-append, count-remove_one, length-remove_one, ◌==◌, if◌then◌else◌, arith,
}
use dimdb.Outcome.{done, fault}
use dimdb.MemPool.{MemPool, Pooled, slots, update, alloc, free, IsValid}

module _ {T : Type 0} (t : Pooled T) where
  -- The pool after `alloc` has taken `item`, the first of the free objects.
  abbrev taken : MemPool T → ℕ → List ℕ → MemPool T
  taken p item frees = record p {
    frees = frees;
    used = item ∷ p.used;
    objects = update p.objects item (t.reinit (p.objects item));
  }

  taken-IsValid :
      (p : MemPool T) (item : ℕ) (frees : List ℕ)
      → IsValid p
      → p.frees ≡ item ∷ frees
      → IsValid (taken p item frees) × (item ≢ 0) × (count item p.used ≡ 0)
  taken-IsValid p item frees h e =
      let counts : (a : ℕ) → count a p.frees ≡ (if item == a then 1 else 0) + count a frees =
        λ a. rw e (omega arith) in
      let sizes : length p.frees ≡ suc (length frees) = rw e refl in
      (
        record {
          shared_out = λ a. omega (arith, h.shared_out a, counts a);
          once = h.once;
          in_memory = h.in_memory;
          not_null = h.not_null;
          heap_not_null = h.heap_not_null;
          sized = omega (arith, h.sized, sizes);
          pooled = h.pooled;
        },
        λ null. ground (arith, null, h.shared_out 0, counts 0, h.not_null),
        ground (arith, h.shared_out item, counts item, h.once item),
      )

  -- `alloc` of a valid pool with a free object takes the one that has been free for longest. Its
  -- address is not null and was not in use. The object is reinitialised, no other object changes, and the
  -- pool stays valid.
  pub alloc-IsValid :
      (p : MemPool T) (item : ℕ) (frees : List ℕ)
      → IsValid p
      → p.frees ≡ item ∷ frees
      → (p' : MemPool T) × (alloc t p ≡ done (p', item))
        × IsValid p'
        × (item ≢ 0)
        × (count item p.used ≡ 0)
        × (p'.used ≡ item ∷ p.used)
        × (p'.frees ≡ frees)
        × (p'.size ≡ p.size)
        × ((a : ℕ) → p'.objects a ≡ (if item == a then t.reinit (p.objects item) else p.objects a))
  unfolding alloc
  alloc-IsValid p item frees h e =
      let (valid, not_null, unused) = taken-IsValid p item frees h e in
      (
        taken p item frees,
        ground (arith, e, unused),
        valid,
        not_null,
        unused,
        refl,
        refl,
        refl,
        λ a. refl,
      )

  -- `free` of an object that is in use puts it behind the free ones and resets it. The pool stays valid, no other
  -- object changes, and the object is in use no longer.
  pub free-IsValid :
      (p : MemPool T) (item : ℕ)
      → IsValid p
      → 0 < count item p.used
      → (p' : MemPool T) × (free t item p ≡ done p')
        × IsValid p'
        × (p'.used ≡ remove_one item p.used)
        × (p'.frees ≡ p.frees ++ item ∷ [])
        × (p'.size ≡ p.size)
        × (count item p'.used ≡ 0)
        × ((a : ℕ) → p'.objects a ≡ (if item == a then t.reset (p.objects item) else p.objects a))
  unfolding free
  free-IsValid p item h in_use =
      let slot : slots p.item_num_per_pool item p.pools ≡ 1 =
        omega (arith, h.shared_out item, h.once item) in
      let item_ne_null : item ≢ 0 = λ null.
        omega (arith, slot, h.not_null, ap (λ (a : ℕ). slots p.item_num_per_pool a p.pools) null) in
      (
        record p {
          used = remove_one item p.used;
          frees = p.frees ++ item ∷ [];
          objects = update p.objects item (t.reset (p.objects item));
        },
        ground (arith, item_ne_null, slot, in_use),
        record {
          shared_out = λ a. omega (
            arith,
            h.shared_out a,
            count-append a p.frees (item ∷ []),
            count-remove_one item a p.used in_use,
          );
          once = h.once;
          in_memory = h.in_memory;
          not_null = h.not_null;
          heap_not_null = h.heap_not_null;
          sized = omega (
            arith,
            h.sized,
            length-append p.frees (item ∷ []),
            length-remove_one item p.used in_use,
          );
          pooled = h.pooled;
        },
        refl,
        refl,
        refl,
        ground (arith, count-remove_one item item p.used in_use, h.shared_out item, h.once item),
        λ a. refl,
      )

  -- `free` of an object of the pool that is not in use, such as a second `free`, keeps the lists and
  -- the counters, and still resets the object. Of the null pointer it does nothing, and of an
  -- address outside the pools it is undefined.
  pub free_unused :
      (p : MemPool T) (item : ℕ)
      → IsValid p
      → count item p.used ≡ 0
      → free t item p ≡ (
          if item == 0
          then done p
          else if count item p.frees == 0
          then fault
          else done (record p { objects = update p.objects item (t.reset (p.objects item)) }))
  unfolding free
  free_unused p item h unused = ground (arith, h.shared_out item, unused)
