-- ===== src/ItemPool/Tests.antt =====
-- The pool of blocks at work, and the theorems at a pool of two blocks of four bytes.
use dimdb.Prelude.{◌≡◌, ◌≢◌, refl, true, false, [], ◌∷◌, arith, inr, if◌then◌else◌}
use dimdb.Outcome.{Returns, done, fault}
use dimdb.ItemPool.{MemPoolItem, alloc, is_used}
use dimdb.ItemPool.Valid.{IsValid, Handed, alloc-Handed}

abbrev pool : MemPoolItem
pool = record {
  dynamic = false;
  size = 2;
  item_size = 4;
  item_num_per_pool = 2;
  pools = 10 ∷ [];
  used = 14 ∷ [];
  frees = 10 ∷ [];
  next_address = 18;
  memory = λ a. 5;
}

pool-IsValid : IsValid pool
pool-IsValid = record {
  apart = ((inr (omega arith), tt), (tt, tt));
  within = ((omega arith, omega arith), ((omega arith, omega arith), tt));
  not_empty = omega arith;
  heap_not_null = omega arith;
}

first_block : is_used 14 pool ≡ true
unfolding is_used
first_block = refl

alloc-Handed_example :
    (pool.frees ≢ [] → Returns (Handed pool) (alloc pool))
    × (pool.frees ≡ [] → alloc pool ≡ (if pool.dynamic then fault else done (pool, 0)))
alloc-Handed_example = alloc-Handed pool pool-IsValid
