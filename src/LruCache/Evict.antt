-- ===== src/LruCache/Evict.antt =====
-- `pop` takes out the least recently used entry.
use mathlib.Core.Option
use dimdb.Prelude.{
  ℕ, ◌+◌, ◌≡◌, ◌⊎◌, ◌≢◌, refl, sym, ◌∙◌, ap, Option, none, some, List, [], ◌∷◌, length, ite, if_pos,
  if_neg, arith, inl, inr,
}
use dimdb.LruCache.{
  CacheItem, LruCache, item_at, back, pop_back, find, node_of, IsLinked, IsCoherent, pop,
}
use dimdb.LruCache.Erase.{find-erase, length-erase, erase-HasUniqueKeys}
use dimdb.LruCache.Index.{view_items}
use dimdb.LruCache.Refines.{view}

-- The entry at the end, and the list without it.
pub last : {A : Type 0} → List A → Option A
last [] = none
last (x ∷ []) = some x
last (x ∷ y ∷ l) = last (y ∷ l)

pub drop_last : {A : Type 0} → List A → List A
drop_last [] = []
drop_last (x ∷ []) = []
drop_last (x ∷ y ∷ l) = x ∷ drop_last (y ∷ l)

module _ {K V : Type 0} (dec : Discrete K) where
  -- What `back` and `pop_back` do on a list that is not empty.
  record Backs (items : List (CacheItem K V)) (i : CacheItem K V) : Type 0 where
    at : back items ≡ some i
    present : node_of dec i.key items ≡ some i.node
    seen : last (view_items items) ≡ some (i.key, i.value)
    rest : view_items (pop_back items) ≡ drop_last (view_items items)
    shorter : length (pop_back items) + 1 ≡ length items
    nodes : (j : K) → node_of dec j (pop_back items) ≡ ite (dec i.key j) none (node_of dec j items)

  back-Backs :
      (next : ℕ) (j : CacheItem K V) (items : List (CacheItem K V))
      → IsLinked dec next (j ∷ items)
      → (i : CacheItem K V) × Backs (j ∷ items) i
  unfolding back pop_back node_of last drop_last
  back-Backs next j [] l = (
    j,
    record {
      at = refl;
      present = if_pos (dec j.key j.key) refl _ _;
      seen = refl;
      rest = refl;
      shorter = omega arith;
      nodes = λ k. ground arith;
    },
  )
  back-Backs next j (i ∷ items) l =
      let (z, b) = back-Backs next i items l.3 in
      let other : j.key ≢ z.key =
        λ e. cc (sym b.present, l.1, ap (λ n. node_of dec n (i ∷ items)) e) in
      (
        z,
        record {
          at = b.at;
          present = if_neg (dec j.key z.key) other _ _ ∙ b.present;
          seen = b.seen;
          rest = ap (◌∷◌ (j.key, j.value)) b.rest;
          shorter = omega (arith, b.shorter);
          nodes = λ k. elim (dec j.key k) [
            | yes p ↦
                let other' : z.key ≢ k = λ e. other (p ∙ sym e) in
                rw (if_neg (dec z.key k) other', if_pos (dec j.key k) p, if_pos (dec j.key k) p)
            | no p ↦ rw (if_neg (dec j.key k) p, if_neg (dec j.key k) p) (b.nodes k)
          ];
        },
      )

  pop_back-item_at-none :
      (n : ℕ) (items : List (CacheItem K V))
      → item_at n items ≡ none
      → item_at n (pop_back items) ≡ none
  unfolding item_at pop_back
  pop_back-item_at-none n [] h = refl
  pop_back-item_at-none n (i ∷ []) h = refl
  pop_back-item_at-none n (i ∷ j ∷ items) h = ground (arith, pop_back-item_at-none n (j ∷ items))

  pop_back-node_of-none :
      (k : K) (items : List (CacheItem K V))
      → node_of dec k items ≡ none
      → node_of dec k (pop_back items) ≡ none
  unfolding node_of pop_back
  pop_back-node_of-none n [] h = refl
  pop_back-node_of-none n (i ∷ []) h = refl
  pop_back-node_of-none n (i ∷ j ∷ items) h = ground (arith, pop_back-node_of-none n (j ∷ items))

  pop_back-IsLinked :
      (next : ℕ) (items : List (CacheItem K V))
      → IsLinked dec next items
      → IsLinked dec next (pop_back items)
  unfolding pop_back
  pop_back-IsLinked next [] l = tt
  pop_back-IsLinked next (i ∷ []) l = tt
  pop_back-IsLinked next (i ∷ j ∷ items) l = (
    l.0,
    pop_back-node_of-none i.key (j ∷ items) l.1,
    pop_back-item_at-none i.node (j ∷ items) l.2,
    pop_back-IsLinked next (j ∷ items) l.3,
  )

  empty_or_back :
      (next : ℕ) (items : List (CacheItem K V))
      → IsLinked dec next items
      → (items ≡ []) ⊎ ((i : CacheItem K V) × Backs items i)
  empty_or_back next [] l = inl refl
  empty_or_back next (j ∷ items) l = inr (back-Backs next j items l)

  -- `pop` on a coherent cache stores the value of the last entry, which is the least recently
  -- used, or the null pointer if there is none. It takes that entry out and keeps the others in
  -- order.
  pub pop-drop_last :
      (c : LruCache K V)
      → IsCoherent dec c
      → ((pop dec c).1 ≡ Option.map (λ e. e.1) (last (view c)))
        × IsCoherent dec (pop dec c).0
        × (view (pop dec c).0 ≡ drop_last (view c))
  unfolding pop
  pop-drop_last c h = elim (empty_or_back c.next_node c.items h.linked) [
    | inl e ↦ unfold last drop_last in (rw (e, pop), rw (e, pop) h, ground arith)
    | inr (i, b) ↦
        let known : find dec i.key c.lookup ≡ some i.node = h.indexed i.key ∙ b.present in
        (
          ground (arith, b.at, b.seen),
          rw (b.at, pop)
              (record {
                indexed = λ j.
                    find-erase dec i.key j c.lookup h.unique
                    ∙ ap (ite (dec i.key j) none) (h.indexed j)
                    ∙ sym (b.nodes j);
                unique = erase-HasUniqueKeys dec i.key c.lookup h.unique;
                linked = pop_back-IsLinked c.next_node c.items h.linked;
                counted =
                    omega
                      (arith, h.counted, b.shorter, length-erase dec i.key c.lookup i.node known);
              }),
          rw (b.at, pop) b.rest,
        )
  ]
