-- ===== src/ItemPool/Valid.antt =====
-- The blocks that the pool hands out: they do not overlap, and a new one is all zeros.
use mathlib.Core.Path.{subst}
use dimdb.Prelude.{
  ℕ, ◌+◌, ◌≤◌, ◌<◌, ◌≡◌, ◌≢◌, refl, sym, ap, true, false, List, [], ◌∷◌, ◌++◌, count, remove_one,
  append_assoc, append_nil, Bool-cases, inl, inr, ◌==◌, if◌then◌else◌, arith, List-cases, ◌⊎◌,
}
use dimdb.Outcome.{Returns, done, fault}
use dimdb.ItemPool.{MemPoolItem, extend, take_front, alloc, free, is_nil}
use dimdb.ItemPool.Blocks.{
  All, IsApart, Apart, Within, middle-All, insert-All, All-remove_one, middle-IsApart,
  insert-IsApart, IsApart-remove_one,
}

-- Used and free blocks do not overlap and stand in memory that the heap has handed out, none at the
-- null pointer.
pub record IsValid (p : MemPoolItem) : Type 0 where
  pub apart : IsApart p.item_size (p.used ++ p.frees)
  pub within : All (Within p.item_size 1 p.next_address) (p.used ++ p.frees)
  pub not_empty : 0 < p.item_size
  pub heap_not_null : 0 < p.next_address

-- A block that is apart from all of a list is not in it.
count-Apart : (size a : ℕ) (k l : List ℕ) → 0 < size → All (Apart size a) (k ++ l) → count a k ≡ 0
count-Apart size a [] l h g = refl
count-Apart size a (b ∷ k) l h (p, g) =
    let rest = count-Apart size a k l h g in
    let other : b == a ≡ false = elim p [ inl q ↦ ground arith | inr q ↦ ground arith ] in
    rw (other, rest) refl

-- What `alloc` does to the pool for a new block: it is taken out of the free ones, keeps the pool
-- valid, is all zeros, and no other byte changes.
abbrev pub Handed : MemPoolItem → MemPoolItem × ℕ → Type 0
Handed p (p', item) =
    IsValid p'
    × (p'.used ≡ item ∷ p.used)
    × ((a : ℕ) → item ≤ a → a < item + p.item_size → p'.memory a ≡ 0)
    × ((a : ℕ) → (a < item) ⊎ (item + p.item_size ≤ a) → p'.memory a ≡ p.memory a)

take_front-Handed :
    (item : ℕ) (frees : List ℕ) (p : MemPoolItem)
    → p.frees ≡ item ∷ frees
    → IsValid p
    → Returns (Handed p) (take_front p.frees p)
unfolding take_front
take_front-Handed item frees p e v =
    let (others, apart) =
      middle-IsApart p.item_size p.used frees item
        (subst (λ l. IsApart p.item_size (p.used ++ l)) e v.apart) in
    let (inside, within) =
      middle-All (Within p.item_size 1 p.next_address) p.used frees item
        (subst (λ l. All (Within p.item_size 1 p.next_address) (p.used ++ l)) e v.within) in
    let fresh : count item p.used ≡ 0 =
      count-Apart p.item_size item p.used frees v.not_empty others in
    let fresh' : count item p.used == 0 ≡ true = ground (arith, fresh) in
    rw (e, fresh')
      (
        record {
          apart = (others, apart);
          within = (inside, within);
          not_empty = v.not_empty;
          heap_not_null = v.heap_not_null;
        },
        refl,
        λ a h k. ground (arith, h, k),
        λ a h. elim h [ inl q ↦ ground (arith, q) | inr q ↦ ground (arith, q) ],
      )

-- With a free block `alloc` hands out a block that overlaps no other, all zeros, keeps the pool
-- valid and changes no other byte. Without one it returns the null pointer. When the pool is dynamic
-- that is undefined: it locks the shared mutex that its own thread holds.
pub alloc-Handed :
    (p : MemPoolItem)
    → IsValid p
    → (p.frees ≢ [] → Returns (Handed p) (alloc p))
      × (p.frees ≡ [] → alloc p ≡ (if p.dynamic then fault else done (p, 0)))
unfolding alloc extend
alloc-Handed p v = (
  λ some_free. elim (List-cases p.frees) [
    | inl e ↦ absurd (some_free e)
    | inr (item, frees, e) ↦
        let there : is_nil p.frees ≡ false = ap is_nil e in
        rw there (take_front-Handed item frees p e v)
  ],
  λ e.
      let gone : is_nil p.frees ≡ true = ap is_nil e in
      elim (Bool-cases p.dynamic) [ inl d ↦ rw (gone, d) refl | inr d ↦ rw (gone, d) refl ],
)

-- `free` of a block in use makes it the last free one and keeps the pool valid; of any other address
-- it changes nothing.
pub free-Freed :
    (item : ℕ) (p : MemPoolItem)
    → IsValid p
    → (count item p.used ≡ 0 → free false item p ≡ done p)
      × (0 < count item p.used
          → Returns
              (λ (p' : MemPoolItem).
                IsValid p' × (p'.frees ≡ p.frees ++ item ∷ []) × (p'.used ≡ remove_one item p.used))
              (free false item p))
unfolding free
free-Freed item p v = (
  λ none_used.
      let unused : count item p.used == 0 ≡ true = ground (arith, none_used) in
      elim (Bool-cases (item == 0)) [ inl z ↦ rw z refl | inr z ↦ rw (z, unused) refl ],
  λ some_used.
      let rest = remove_one item p.used ++ p.frees in
      let (others, apart) = IsApart-remove_one p.item_size item p.used p.frees some_used v.apart in
      let (inside, within) =
        All-remove_one (Within p.item_size 1 p.next_address) item p.used p.frees some_used
          v.within in
      let not_null : item == 0 ≡ false = ground (arith, inside.0) in
      let in_use : count item p.used == 0 ≡ false = ground (arith, some_used) in
      let last : rest ++ item ∷ [] ≡ remove_one item p.used ++ (p.frees ++ item ∷ []) =
        append_assoc (remove_one item p.used) p.frees (item ∷ []) in
      let whole : rest ++ [] ≡ rest = append_nil rest in
      rw (not_null, in_use)
        (
          record {
            apart = subst (IsApart p.item_size) last (
                insert-IsApart p.item_size rest [] item
                  (subst (All (Apart p.item_size item)) (sym whole) others)
                  (subst (IsApart p.item_size) (sym whole) apart));
            within = subst (All (Within p.item_size 1 p.next_address)) last (
                insert-All (Within p.item_size 1 p.next_address) rest [] item inside
                  (subst (All (Within p.item_size 1 p.next_address)) (sym whole) within));
            not_empty = v.not_empty;
            heap_not_null = v.heap_not_null;
          },
          refl,
          refl,
        ),
)
