-- ===== src/MemPool/Slots.antt =====
-- The addresses of a pool, counted.
use dimdb.Prelude.{
  ℕ, zero, suc, ◌+◌, ◌≡◌, ◌&&◌, List, [], ◌∷◌, ◌++◌, length, count, ltb, leb, if◌then◌else◌, arith,
}
use dimdb.MemPool.{addresses, slots}

pub count-addresses :
    (a pool n : ℕ) → count a (addresses pool n) ≡ (if leb pool a && ltb a (pool + n) then 1 else 0)
unfolding addresses
count-addresses a pool zero = ground arith
count-addresses a pool (suc n) = ground (arith, count-addresses a (pool + 1) n)

pub length-addresses : (pool n : ℕ) → length (addresses pool n) ≡ n
unfolding addresses
length-addresses pool zero = omega arith
length-addresses pool (suc n) = omega (arith, length-addresses (pool + 1) n)

pub slots-append :
    (n a pool : ℕ) (pools : List ℕ)
    → slots n a (pools ++ pool ∷ [])
      ≡ slots n a pools + (if leb pool a && ltb a (pool + n) then 1 else 0)
unfolding slots
slots-append n a pool [] = omega arith
slots-append n a pool (p ∷ pools) = omega (arith, slots-append n a pool pools)
