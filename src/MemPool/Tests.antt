-- ===== src/MemPool/Tests.antt =====
-- Runs of the pool, and the theorems at a pool of two objects.
use dimdb.Prelude.{
  ℕ, ◌≡◌, ◌≢◌, refl, false, [], ◌∷◌, ◌++◌, count, remove_one, ◌==◌, if◌then◌else◌, arith,
}
use dimdb.Outcome.{done}
use dimdb.MemPool.{MemPool, Pooled, empty, alloc, free, slots, IsValid}
use dimdb.MemPool.Share.{alloc-IsValid, free-IsValid}

-- Objects that are numbers: 0 fresh, 1 after `reinit`, 2 after `reset`.
abbrev marks : Pooled ℕ
marks = record { fresh = 0; reinit = λ t. 1; reset = λ t. 2 }

empty-IsValid : IsValid (empty marks)
unfolding slots
empty-IsValid = record {
  shared_out = λ a. refl;
  once = λ a. omega arith;
  in_memory = λ a q. refl;
  not_null = refl;
  heap_not_null = omega arith;
  sized = refl;
  pooled = refl;
}

-- One pool of two objects, at the addresses 1 and 2; the first is in use.
abbrev pair : MemPool ℕ
pair = record {
  size = 2;
  dynamic = false;
  item_num_per_pool = 2;
  pools = 1 ∷ [];
  used = 1 ∷ [];
  frees = 2 ∷ [];
  next_address = 3;
  objects = λ a. 0;
}

pair-IsValid : IsValid pair
unfolding slots
pair-IsValid = record {
  shared_out = λ a. ground arith;
  once = λ a. ground arith;
  in_memory = λ a q. ground arith;
  not_null = refl;
  heap_not_null = omega arith;
  sized = refl;
  pooled = refl;
}

alloc-IsValid_example :
    (p : MemPool ℕ) × (alloc marks pair ≡ done (p, 2))
    × IsValid p
    × (◌≢◌ {A = ℕ} 2 0)
    × (count 2 pair.used ≡ 0)
    × (p.used ≡ 2 ∷ pair.used)
    × (p.frees ≡ [])
    × (p.size ≡ 2)
    × ((a : ℕ) → p.objects a ≡ (if 2 == a then 1 else 0))
alloc-IsValid_example = alloc-IsValid marks pair 2 [] pair-IsValid refl

free-IsValid_example :
    (p : MemPool ℕ) × (free marks 1 pair ≡ done p)
    × IsValid p
    × (p.used ≡ remove_one 1 pair.used)
    × (p.frees ≡ pair.frees ++ 1 ∷ [])
    × (p.size ≡ 2)
    × (count 1 p.used ≡ 0)
    × ((a : ℕ) → p.objects a ≡ (if 1 == a then 2 else 0))
free-IsValid_example = free-IsValid marks pair 1 pair-IsValid (omega arith)
