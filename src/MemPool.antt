-- ===== src/MemPool.antt =====
-- src/dimserver/common/mem/mem_pool.h: `MemPoolSimple`, a pool of objects of one type.
--
-- An address is a number, 0 the null pointer, and `pool + i` is the address `pool` plus `i`. The
-- heap hands out addresses in order and an allocation succeeds. `objects` is the memory: the
-- object at each address. The `int` results 0 and -1 are `true` and `false`, and the counts that
-- the callers pass are not negative. `extend` locks the mutex, so a call
-- from a function that holds it is undefined.
pub mod Text
pub mod Slots
pub mod Fill
pub mod Share
mod Tests
use dimdb.Prelude.{
  ℕ, zero, suc, ◌+◌, ◌*◌, ◌≤◌, ◌<◌, ◌≡◌, Bool, true, false, not, ◌&&◌, ◌||◌, List, [], ◌∷◌, ◌++◌,
  length, count, remove_one, ltb, leb, ◌==◌, if◌then◌else◌,
}
use dimdb.Outcome.{Outcome, done, fault, ◌>>=◌}

pub record MemPool (T : Type 0) : Type 0 where
  pub size : ℕ
  pub dynamic : Bool
  pub item_num_per_pool : ℕ
  pub pools : List ℕ
  pub used : List ℕ
  pub frees : List ℕ
  pub next_address : ℕ
  pub objects : ℕ → T

-- `T::reinit`, `T::reset` and the default constructor of the objects.
pub record Pooled (T : Type 0) : Type 0 where
  pub fresh : T
  pub reinit : T → T
  pub reset : T → T

-- `pool`, `pool + 1`, …, `pool + (n - 1)`
pub addresses : ℕ → ℕ → List ℕ
addresses pool zero = []
addresses pool (suc n) = pool ∷ addresses (pool + 1) n

-- How many pools of `n` objects hold the address.
unfoldable pub slots : ℕ → ℕ → List ℕ → ℕ
slots n a [] = 0
slots n a (pool ∷ pools) = (if leb pool a && ltb a (pool + n) then 1 else 0) + slots n a pools

abbrev pub update : {T : Type 0} → (ℕ → T) → ℕ → T → ℕ → T
update objects a t b = if a == b then t else objects b

module _ {T : Type 0} (t : Pooled T) where
  abbrev pub empty : MemPool T
  empty = record {
    size = 0;
    dynamic = false;
    item_num_per_pool = 0;
    pools = [];
    used = [];
    frees = [];
    next_address = 1;
    objects = λ a. t.fresh;
  }

  -- `held` says whether the calling thread holds the mutex already. The mutex is a
  -- `std::shared_mutex`, and to lock it twice is undefined.
  pub extend : Bool → MemPool T → Outcome (MemPool T × Bool)
  unfolding addresses
  extend held p =
      if not p.dynamic
      then done (p, false)
      else if held
      then fault
      else done (
        record p {
          pools = p.pools ++ p.next_address ∷ [];
          size = p.size + p.item_num_per_pool;
          frees = p.frees ++ addresses p.next_address p.item_num_per_pool;
          next_address = p.next_address + p.item_num_per_pool;
          objects = λ a.
              if leb p.next_address a && ltb a (p.next_address + p.item_num_per_pool)
              then t.fresh
              else p.objects a;
        },
        true,
      )

  pub cleanup : MemPool T → MemPool T
  cleanup p = elim p.pools [
    | [] ↦ p
    | pool ∷ pools ↦ record p { used = []; frees = []; size = 0; pools = [] }
  ]

  -- The loop of `init`, by the number of rounds left.
  extend_all : ℕ → MemPool T → Outcome (MemPool T × Bool)
  unfolding cleanup
  extend_all zero p = done (p, true)
  extend_all (suc rounds) p = do
    (p', extended) ← extend false p
    if extended then extend_all rounds p' else done (cleanup p', false)

  pub init : Bool → ℕ → ℕ → MemPool T → Outcome (MemPool T × Bool)
  unfolding extend_all
  init dynamic pool_num item_num_per_pool p = elim p.pools [
    | pool ∷ pools ↦ done (p, true)
    | [] ↦ if pool_num == 0 || item_num_per_pool == 0 then done (p, false) else do
      (p', extended) ←
          extend_all pool_num (record p { item_num_per_pool = item_num_per_pool; dynamic = true })
      done (if extended then (record p' { dynamic = dynamic }, true) else (p', false))
  ]

  -- `used_.insert(item)` on a set
  insert : ℕ → List ℕ → List ℕ
  insert a used = if count a used == 0 then a ∷ used else used

  -- The end of `alloc`, from `frees_.front()` on.
  take_front : MemPool T → Outcome (MemPool T × ℕ)
  unfolding insert
  take_front p = elim p.frees [
    | [] ↦ fault
    | item ∷ frees ↦ done (
      record p {
        frees = frees;
        used = insert item p.used;
        objects = update p.objects item (t.reinit (p.objects item));
      },
      item,
    )
  ]

  pub alloc : MemPool T → Outcome (MemPool T × ℕ)
  unfolding take_front
  alloc p = elim p.frees [
    | item ∷ frees ↦ take_front p
    | [] ↦
        if not p.dynamic
        then done (p, 0)
        else do (p', extended) ← extend true p; if extended then take_front p' else done (p', 0)
  ]

  -- `item->reset()` runs before the test that the item is in use.
  pub free : ℕ → MemPool T → Outcome (MemPool T)
  unfolding slots
  free item p =
      if item == 0
      then done p
      else if slots p.item_num_per_pool item p.pools == 0
      then fault
      else let p' = record p { objects = update p.objects item (t.reset (p.objects item)) } in
        done (
          if count item p.used == 0
          then p'
          else record p' { used = remove_one item p.used; frees = p.frees ++ item ∷ [] })

-- The objects of the pools are shared out between `used_` and `frees_`, each in one place once, and
-- the counters agree.
pub record IsValid {T : Type 0} (p : MemPool T) : Type 0 where
  pub shared_out : (a : ℕ) → count a p.used + count a p.frees ≡ slots p.item_num_per_pool a p.pools
  pub once : (a : ℕ) → slots p.item_num_per_pool a p.pools ≤ 1
  pub in_memory : (a : ℕ) → p.next_address ≤ a → slots p.item_num_per_pool a p.pools ≡ 0
  pub not_null : slots p.item_num_per_pool 0 p.pools ≡ 0
  pub heap_not_null : 0 < p.next_address
  pub sized : p.size ≡ length p.used + length p.frees
  pub pooled : p.size ≡ length p.pools * p.item_num_per_pool
