-- ===== src/ItemPool.antt =====
-- src/dimserver/common/mem/mem_pool.h and mem_pool.cpp: `MemPoolItem`, a pool of blocks of memory.
--
-- An address is a number, 0 the null pointer. The heap hands out addresses in order and an allocation
-- succeeds; `memory` is the byte at each address, whatever it is in new memory. The `int` results 0
-- and -1 are `true` and `false`, and the sizes and counts that the callers pass are not negative.
pub mod Text
pub mod Blocks
pub mod Valid
pub mod Init
mod Tests
use dimdb.Prelude.{
  ℕ, zero, suc, ◌+◌, ◌*◌, Bool, true, false, not, ◌&&◌, ◌||◌, List, [], ◌∷◌, ◌++◌, count,
  remove_one, ltb, leb, ◌==◌, if◌then◌else◌,
}
use dimdb.Outcome.{Outcome, done, fault, ◌>>=◌}

pub record MemPoolItem : Type 0 where
  pub dynamic : Bool
  pub size : ℕ
  pub item_size : ℕ
  pub item_num_per_pool : ℕ
  pub pools : List ℕ
  pub used : List ℕ
  pub frees : List ℕ
  pub next_address : ℕ
  pub memory : ℕ → ℕ

-- `MemPoolItem(tag)`, with the heap as it is.
abbrev pub new_pool : ℕ → (ℕ → ℕ) → MemPoolItem
new_pool next_address memory = record {
  dynamic = false;
  size = 0;
  item_size = 0;
  item_num_per_pool = 0;
  pools = [];
  used = [];
  frees = [];
  next_address = next_address;
  memory = memory;
}

-- `pool`, `pool + size`, …, `pool + (n - 1) * size`
unfoldable pub blocks : ℕ → ℕ → ℕ → List ℕ
blocks pool size zero = []
blocks pool size (suc n) = pool ∷ blocks (pool + size) size n

-- `held` says whether the calling thread holds the mutex already. The mutex is a
-- `std::shared_mutex`, and to lock it twice is undefined.
unfoldable pub extend : Bool → MemPoolItem → Outcome (MemPoolItem × Bool)
extend held p =
    if not p.dynamic
    then done (p, false)
    else if held
    then fault
    else done (
      record p {
        pools = p.pools ++ p.next_address ∷ [];
        size = p.size + p.item_num_per_pool;
        frees = p.frees ++ blocks p.next_address p.item_size p.item_num_per_pool;
        next_address = p.next_address + p.item_num_per_pool * p.item_size;
      },
      true,
    )

-- `used_.insert(item)` on a set
abbrev pub insert : ℕ → List ℕ → List ℕ
insert a used = if count a used == 0 then a ∷ used else used

-- `memset(item, 0, size)`
abbrev pub clear_block : ℕ → ℕ → (ℕ → ℕ) → ℕ → ℕ
clear_block item size memory a = if leb item a && ltb a (item + size) then 0 else memory a

-- The end of `alloc`, from `frees_.front()` on.
unfoldable pub take_front : List ℕ → MemPoolItem → Outcome (MemPoolItem × ℕ)
take_front [] p = fault
take_front (item ∷ frees) p = done (
  record p {
    frees = frees;
    used = insert item p.used;
    memory = clear_block item p.item_size p.memory;
  },
  item,
)

abbrev pub is_nil : List ℕ → Bool
is_nil [] = true
is_nil (a ∷ l) = false

unfoldable pub alloc : MemPoolItem → Outcome (MemPoolItem × ℕ)
alloc p =
    let more = do
      (p', extended) ← extend true p
      if extended then take_front p'.frees p' else done (p', 0)
    in if not (is_nil p.frees)
      then take_front p.frees p
      else if not p.dynamic
      then done (p, 0)
      else more

unfoldable pub free : Bool → ℕ → MemPoolItem → Outcome MemPoolItem
free held item p =
    if item == 0
    then done p
    else if held
    then fault
    else done (
        if count item p.used == 0
        then p
        else record p { used = remove_one item p.used; frees = p.frees ++ item ∷ [] })

unfoldable pub is_used : ℕ → MemPoolItem → Bool
is_used item p = not (count item p.used == 0)

-- The loop of `cleanup`. `free(pool)` in a member function is the member `free`.
unfoldable pub free_all : List ℕ → MemPoolItem → Outcome MemPoolItem
free_all [] p = done p
free_all (pool ∷ pools) p = do p' ← free true pool p; free_all pools p'

unfoldable pub cleanup : MemPoolItem → Outcome MemPoolItem
cleanup p =
    let rest = do
      p' ← free_all p.pools (record p { used = []; frees = []; size = 0 })
      done (record p' { pools = [] })
    in if is_nil p.pools then done p else rest

-- The loop of `init`, by the number of rounds left.
unfoldable pub extend_all : ℕ → MemPoolItem → Outcome (MemPoolItem × Bool)
extend_all zero p = done (p, true)
extend_all (suc rounds) p = do
  (p', extended) ← extend false p
  if extended then extend_all rounds p' else do p'' ← cleanup p'; done (p'', false)

unfoldable pub init : ℕ → Bool → ℕ → ℕ → MemPoolItem → Outcome (MemPoolItem × Bool)
init item_size dynamic pool_num item_num_per_pool p =
    let made = do
      (p', extended) ← extend_all pool_num (record p {
        item_size = item_size;
        item_num_per_pool = item_num_per_pool;
        dynamic = true;
      })
      done (if extended then (record p' { dynamic = dynamic }, true) else (p', false))
    in if not (is_nil p.pools)
      then done (p, true)
      else if item_size == 0 || pool_num == 0 || item_num_per_pool == 0
      then done (p, false)
      else made
