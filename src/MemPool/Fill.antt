-- ===== src/MemPool/Fill.antt =====
-- `MemPoolSimple`: `extend` and `init` fill a pool.
use dimdb.Prelude.{
  ℕ, zero, suc, ◌+◌, ◌*◌, ◌<◌, ◌≡◌, refl, ap, sym, ◌∙◌, Bool, true, false, ◌&&◌, List, [], ◌∷◌,
  ◌++◌, length, length-append, count-append, ltb, leb, if◌then◌else◌, arith,
}
use dimdb.Outcome.{done}
use dimdb.MemPool.{MemPool, Pooled, addresses, slots, extend, extend_all, init, IsValid}
use dimdb.MemPool.Slots.{count-addresses, length-addresses, slots-append}

nil_of_length : (xs : List ℕ) → length xs ≡ 0 → xs ≡ []
nil_of_length [] h = refl
nil_of_length (x ∷ xs) h = absurd (omega arith)

module _ {T : Type 0} (t : Pooled T) where
  -- The pool after a call of `extend` that succeeds.
  abbrev grown : MemPool T → MemPool T
  grown p = record p {
    pools = p.pools ++ p.next_address ∷ [];
    size = p.size + p.item_num_per_pool;
    frees = p.frees ++ addresses p.next_address p.item_num_per_pool;
    next_address = p.next_address + p.item_num_per_pool;
    objects = λ a.
        if leb p.next_address a && ltb a (p.next_address + p.item_num_per_pool)
        then t.fresh
        else p.objects a;
  }

  grown-IsValid : (p : MemPool T) → IsValid p → IsValid (grown p)
  unfolding slots
  grown-IsValid p h = record {
    shared_out = λ a. omega (
      arith,
      h.shared_out a,
      count-append a p.frees (addresses p.next_address p.item_num_per_pool),
      count-addresses a p.next_address p.item_num_per_pool,
      slots-append p.item_num_per_pool a p.next_address p.pools,
    );
    once = λ a.
        ground (
          arith,
          h.once a,
          h.in_memory a,
          slots-append p.item_num_per_pool a p.next_address p.pools,
        );
    in_memory = λ a q.
        ground (arith, h.in_memory a, slots-append p.item_num_per_pool a p.next_address p.pools);
    not_null = ground (
      arith,
      h.not_null,
      h.heap_not_null,
      slots-append p.item_num_per_pool 0 p.next_address p.pools,
    );
    heap_not_null = omega (arith, h.heap_not_null);
    sized = omega (
      arith,
      h.sized,
      length-append p.frees (addresses p.next_address p.item_num_per_pool),
      length-addresses p.next_address p.item_num_per_pool,
    );
    pooled = rw length-append (omega (arith, h.pooled));
  }

  extend-grown : (p : MemPool T) → p.dynamic ≡ true → extend t false p ≡ done (grown p, true)
  unfolding extend
  extend-grown p e = ground arith

  -- A pool that may grow, with all its mutexes free, gets `rounds` times as many objects more.
  extend_all-IsValid :
      (rounds : ℕ) (p : MemPool T)
      → IsValid p
      → p.dynamic ≡ true
      → (p' : MemPool T) × (extend_all t rounds p ≡ done (p', true))
        × IsValid p'
        × (p'.size ≡ p.size + rounds * p.item_num_per_pool)
        × (p'.used ≡ p.used)
        × (p'.item_num_per_pool ≡ p.item_num_per_pool)
  unfolding extend_all
  extend_all-IsValid zero p h e = (p, refl, h, omega arith, refl, refl)
  extend_all-IsValid (suc rounds) p h e =
      let (p', ends, valid, size, used, num) =
        extend_all-IsValid rounds (grown p) (grown-IsValid p h) e in
      (p', rw (extend-grown p e) ends, valid, omega (arith, size), used, num)

  used_none : (p : MemPool T) → IsValid p → p.pools ≡ [] → (p.used ≡ []) × (p.size ≡ 0)
  used_none p h none_yet =
      let empty_pool : p.size ≡ 0 = h.pooled ∙ rw none_yet (omega arith) in
      (nil_of_length p.used (omega (arith, h.sized)), empty_pool)

  configured-IsValid :
      (p : MemPool T) (n : ℕ)
      → IsValid p
      → p.pools ≡ []
      → IsValid (record p { item_num_per_pool = n; dynamic = true })
  configured-IsValid p n h none_yet =
      let no_slots : (m a : ℕ) → slots m a p.pools ≡ 0 = λ m a. unfold slots in rw none_yet in
      record {
        shared_out = λ a. h.shared_out a ∙ no_slots p.item_num_per_pool a ∙ sym (no_slots n a);
        once = λ a. rw no_slots (omega arith);
        in_memory = λ a q. no_slots n a;
        not_null = no_slots n 0;
        heap_not_null = h.heap_not_null;
        sized = h.sized;
        pooled = (used_none p h none_yet).1 ∙ rw none_yet (omega arith);
      }

  -- `init` of a pool that has no objects, asked for at least one pool of at least one object: it
  -- succeeds, and the pool then is valid, has none of its objects in use, and counts
  -- `pool_num * item_num_per_pool` of them.
  pub init-IsValid :
      (dynamic : Bool) (pool_num n : ℕ) (p : MemPool T)
      → IsValid p
      → p.pools ≡ []
      → 0 < pool_num
      → 0 < n
      → (p' : MemPool T) × (init t dynamic pool_num n p ≡ done (p', true))
        × IsValid p'
        × (p'.used ≡ [])
        × (p'.size ≡ pool_num * n)
        × (length p'.frees ≡ pool_num * n)
        × (p'.dynamic ≡ dynamic)
  unfolding init
  init-IsValid dynamic pool_num n p h none_yet some_pool some_item =
      let q : MemPool T = record p { item_num_per_pool = n; dynamic = true } in
      let (p', ends, valid, size, used, num) =
        extend_all-IsValid pool_num q (configured-IsValid p n h none_yet) refl in
      let (nothing_used, nothing) = used_none p h none_yet in
      (
        record p' { dynamic = dynamic },
        ground (arith, ends),
        record {
          shared_out = valid.shared_out;
          once = valid.once;
          in_memory = valid.in_memory;
          not_null = valid.not_null;
          heap_not_null = valid.heap_not_null;
          sized = valid.sized;
          pooled = valid.pooled;
        },
        used ∙ nothing_used,
        omega (arith, size, nothing),
        omega (arith, valid.sized, ap length (used ∙ nothing_used), size, nothing),
        refl,
      )
