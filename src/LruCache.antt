-- ===== src/LruCache.antt =====
-- src/dimserver/storage/buffer/lru_cache.h: a recency list with an index from keys to list nodes.
--
-- `std::list` nodes keep their identity while they move, and the index holds iterators to them. A
-- node is modelled with the number that its allocation drew, an iterator is such a number. A use
-- of an iterator whose node is gone, which C++ leaves undefined, makes the outer `none`.
mod Erase
pub mod Index
pub mod Refines
pub mod Evict
pub mod Visit
mod Tests
use mathlib.Core.List.{reverse}
use dimdb.Prelude.{
  ℕ, zero, suc, ◌+◌, ◌<◌, ◌≡◌, Bool, true, false, Option, none, some, List, [], ◌∷◌, length, ite,
  ◌==◌, if◌then◌else◌,
}

pub record CacheItem (K V : Type 0) : Type 0 where
  pub node : ℕ
  pub key : K
  pub value : V

pub record LruCache (K V : Type 0) : Type 0 where
  pub items : List (CacheItem K V)
  pub lookup : List (K × ℕ)
  pub next_node : ℕ

abbrev pub empty : {K V : Type 0} → LruCache K V
empty = record { items = []; lookup = []; next_node = 0 }

module _ {K V : Type 0} where
  -- `*iter`
  unfoldable pub item_at : ℕ → List (CacheItem K V) → Option (CacheItem K V)
  item_at node [] = none
  item_at node (i ∷ items) = if i.node == node then some i else item_at node items

  -- `items_.erase(iter)`
  unfoldable pub unlink : ℕ → List (CacheItem K V) → List (CacheItem K V)
  unlink node [] = []
  unlink node (i ∷ items) = if i.node == node then items else i ∷ unlink node items

  -- `items_.back()` and `items_.pop_back()`
  unfoldable pub back : List (CacheItem K V) → Option (CacheItem K V)
  back [] = none
  back (i ∷ []) = some i
  back (i ∷ j ∷ items) = back (j ∷ items)

  unfoldable pub pop_back : List (CacheItem K V) → List (CacheItem K V)
  pop_back [] = []
  pop_back (i ∷ []) = []
  pop_back (i ∷ j ∷ items) = i ∷ pop_back (j ∷ items)

  pub count : LruCache K V → ℕ
  count c = length c.lookup

  pub destroy : LruCache K V → LruCache K V
  destroy c = record c { items = []; lookup = [] }

module _ {K : Type 0} (dec : Discrete K) where
  -- `lookup_.find(key)`
  unfoldable pub find : K → List (K × ℕ) → Option ℕ
  find k [] = none
  find k ((j, node) ∷ index) = ite (dec j k) (some node) (find k index)

  -- `lookup_.erase(key)`
  unfoldable pub erase : K → List (K × ℕ) → List (K × ℕ)
  erase k [] = []
  erase k ((j, node) ∷ index) = ite (dec j k) index ((j, node) ∷ erase k index)

module _ {K V : Type 0} (dec : Discrete K) where
  -- The result is the value that the call stores through its reference, if it returns true.
  pub get : LruCache K V → K → Option (LruCache K V × Option V)
  unfolding find item_at unlink
  get c key = elim (find dec key c.lookup) [
    | none ↦ some (c, none)
    | some node ↦ elim (item_at node c.items) [
      | none ↦ none
      | some i ↦ some (record c { items = i ∷ unlink node c.items }, some i.value)
    ]
  ]

  pub put : LruCache K V → K → V → Option (LruCache K V)
  unfolding find item_at unlink
  put c key value = elim (find dec key c.lookup) [
    | none ↦ some (record {
      items = record { node = c.next_node; key = key; value = value } ∷ c.items;
      lookup = (key, c.next_node) ∷ c.lookup;
      next_node = c.next_node + 1;
    })
    | some node ↦ elim (item_at node c.items) [
      | none ↦ none
      | some i ↦ some (record c { items = record i { value = value } ∷ unlink node c.items })
    ]
  ]

  pub remove : LruCache K V → K → Option (LruCache K V)
  unfolding find item_at unlink erase
  remove c key = elim (find dec key c.lookup) [
    | none ↦ some c
    | some node ↦ elim (item_at node c.items) [
      | none ↦ none
      | some i ↦ some (record c { items = unlink node c.items; lookup = erase dec key c.lookup })
    ]
  ]

  -- `pop(Value*&)`; `nullptr` is `none`. `pop()` leaves the value out.
  pub pop : LruCache K V → LruCache K V × Option V
  unfolding back pop_back erase
  pop c = elim (back c.items) [
    | none ↦ (c, none)
    | some i ↦
        (record c { items = pop_back c.items; lookup = erase dec i.key c.lookup }, some i.value)
  ]

-- The walk goes on to the next item when `func` returned true.
abbrev pub on_when {κ} : {S : Type κ} → Bool → S → S → S
on_when true more now = more
on_when false more now = now

-- `foreach` and `foreach_reverse` call `func` until it returns false. What `func` captures by
-- reference is the state that the calls pass on.
module _ {κ} {K V : Type 0} {S : Type κ} (func : K → V → S → Bool × S) where
  unfoldable pub visit : List (CacheItem K V) → S → S
  visit [] s = s
  visit (i ∷ items) s =
      let (on, s') = func i.key i.value s in let rest = visit items s' in on_when on rest s'

  unfoldable pub foreach : LruCache K V → S → S
  unfolding visit
  foreach c s = visit c.items s

  unfoldable pub foreach_reverse : LruCache K V → S → S
  unfolding visit
  foreach_reverse c s = visit (reverse c.items) s

-- The key's node by a walk through the items, which the index is there to save.
module _ {K : Type 0} (dec : Discrete K) where
  -- The keys of a map are unique.
  abbrev pub HasUniqueKeys : List (K × ℕ) → Type 0
  HasUniqueKeys [] = Unit
  HasUniqueKeys ((k, node) ∷ index) = (find dec k index ≡ none) × HasUniqueKeys index

module _ {K V : Type 0} (dec : Discrete K) where
  unfoldable pub node_of : K → List (CacheItem K V) → Option ℕ
  node_of k [] = none
  node_of k (i ∷ items) = ite (dec i.key k) (some i.node) (node_of k items)

  -- No key and no node stands twice, and the allocator's next number is fresh.
  abbrev pub IsLinked : ℕ → List (CacheItem K V) → Type 0
  IsLinked next [] = Unit
  IsLinked next (i ∷ items) =
      (i.node < next)
      × (node_of i.key items ≡ none)
      × (item_at i.node items ≡ none)
      × IsLinked next items

  pub record IsCoherent (c : LruCache K V) : Type 0 where
    pub indexed : (k : K) → find dec k c.lookup ≡ node_of k c.items
    pub unique : HasUniqueKeys dec c.lookup
    pub linked : IsLinked c.next_node c.items
    pub counted : length c.lookup ≡ length c.items
