-- ===== src/ItemPool/Init.antt =====
-- `init` of the pool, and `cleanup` of what it made.
use dimdb.Prelude.{ℕ, ◌+◌, ◌*◌, ◌<◌, ◌≡◌, List, [], ◌∷◌, ◌++◌, length}
use dimdb.ItemPool.{MemPoolItem, blocks}
use dimdb.ItemPool.Valid.{IsValid}

-- The pool after `extend`.
abbrev extended : MemPoolItem → MemPoolItem
extended p = record p {
  pools = p.pools ++ p.next_address ∷ [];
  size = p.size + p.item_num_per_pool;
  frees = p.frees ++ blocks p.next_address p.item_size p.item_num_per_pool;
  next_address = p.next_address + p.item_num_per_pool * p.item_size;
}

-- The pool has a first one, which is not at the null pointer.
abbrev HasPool : MemPoolItem → Type 0
HasPool p = (pool : ℕ) × (rest : List ℕ) × (p.pools ≡ pool ∷ rest) × (0 < pool)

abbrev Extended : ℕ → MemPoolItem → MemPoolItem → Type 0
Extended rounds p p' =
    IsValid p'
    × (length p'.frees ≡ length p.frees + rounds * p.item_num_per_pool)
    × (p'.used ≡ p.used)
    × HasPool p'
