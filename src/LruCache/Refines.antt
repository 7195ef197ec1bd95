-- ===== src/LruCache/Refines.antt =====
-- Each operation of a coherent cache does to the abstract recency list what its name says, follows no
-- dangling iterator, and leaves a coherent cache.
use dimdb.Prelude.{
  ℕ, ◌+◌, ◌≡◌, refl, sym, ◌∙◌, ap, none, some, List, ◌∷◌, ite, if_pos, arith, Option-cases, inl,
  inr,
}
use dimdb.LruCache.{CacheItem, LruCache, unlink, find, erase, node_of, IsCoherent, get, put, remove}
use dimdb.LruCache.Erase.{find-erase, length-erase, erase-HasUniqueKeys}
use dimdb.LruCache.Index.{
  view_items, value_of, without, value_of-miss, without-miss, Found, node_of-Found, unlink-IsLinked,
  node_of-unlink, node-lt, item_at-unlink, item_at-fresh, IsLinked-suc,
}

abbrev pub view : {K V : Type 0} → LruCache K V → List (K × V)
view c = view_items c.items

module _ {K V : Type 0} (dec : Discrete K) where
  -- A use moves the key to the front; a miss changes nothing.
  unfoldable pub promote : K → List (K × V) → List (K × V)
  promote k l = elim (value_of dec k l) [ none ↦ l | some v ↦ (k, v) ∷ without dec k l ]

  module _ (c : LruCache K V) (k : K) (h : IsCoherent dec c) where
    missing : find dec k c.lookup ≡ none → node_of dec k c.items ≡ none
    missing e = sym (h.indexed k) ∙ e

    found :
        {node : ℕ}
        → find dec k c.lookup ≡ some node
        → (i : CacheItem K V) × Found dec k node c.items i
    found {node} e = node_of-Found dec k c.next_node node c.items h.linked (sym (h.indexed k) ∙ e)

    -- The item that the index gives, moved to the front with the value `v`.
    moved : CacheItem K V → ℕ → V → LruCache K V
    moved i node v = record c { items = record i { value = v } ∷ unlink node c.items }

    moved-IsCoherent :
        {node : ℕ} (i : CacheItem K V)
        → find dec k c.lookup ≡ some node
        → Found dec k node c.items i
        → (v : V) → IsCoherent dec (moved i node v)
    unfolding moved node_of
    moved-IsCoherent {node} i e f v =
        let nodes =
          node_of-unlink dec k c.next_node node c.items h.linked (sym (h.indexed k) ∙ e) in
        let gone : node_of dec k (unlink node c.items) ≡ none =
          nodes k ∙ if_pos (dec k k) refl _ _ in
        record {
          indexed = λ j.
              rw (f.same_key, f.same_node)
                (ground
                  (arith, nodes j, h.indexed j, ap (λ n. find dec n c.lookup) {x = k} {y = j}));
          unique = h.unique;
          linked = (
            rw f.same_node (node-lt dec c.next_node node c.items h.linked f.at),
            rw f.same_key gone,
            rw f.same_node (item_at-unlink dec c.next_node node c.items h.linked),
            unlink-IsLinked dec c.next_node node c.items h.linked,
          );
          counted = omega (arith, h.counted, f.shorter);
        }

    -- `get` on a coherent cache stores the value of the key, if it has one. It moves the key to the
    -- front, and keeps the order of the others.
    pub get-promote :
        (c' : LruCache K V) × (get dec c k ≡ some (c', value_of dec k (view c)))
        × IsCoherent dec c'
        × (view c' ≡ promote k (view c))
    unfolding get promote
    get-promote = elim (Option-cases (find dec k c.lookup)) [
      | inl e ↦
          let m = value_of-miss dec k c.items (missing e) in
          (c, ground (arith, m), h, ground (arith, m))
      | inr (node, e) ↦
          let (i, f) = found e in
          (
            moved i node i.value,
            unfold moved in ground (arith, f.at, f.value),
            moved-IsCoherent i e f i.value,
            unfold moved in ground (arith, f.value, f.rest, f.same_key),
          )
    ]

    -- `put` on a coherent cache puts the key with its new value in front, whether the key was
    -- there or not, and keeps the order of the others.
    pub put-store :
        (v : V)
        → (c' : LruCache K V) × (put dec c k v ≡ some c')
          × IsCoherent dec c'
          × (view c' ≡ (k, v) ∷ without dec k (view c))
    unfolding put node_of
    put-store v = elim (Option-cases (find dec k c.lookup)) [
      | inl e ↦
          let m = without-miss dec k c.items (missing e) in
          (
            record {
              items = record { node = c.next_node; key = k; value = v } ∷ c.items;
              lookup = (k, c.next_node) ∷ c.lookup;
              next_node = c.next_node + 1;
            },
            ground arith,
            record {
              indexed = λ j. ground (arith, h.indexed j);
              unique = (e, h.unique);
              linked = (
                omega arith,
                missing e,
                item_at-fresh dec c.next_node c.items h.linked,
                IsLinked-suc dec c.next_node c.items h.linked,
              );
              counted = omega (arith, h.counted);
            },
            ap (◌∷◌ (k, v)) (sym m),
          )
      | inr (node, e) ↦
          let (i, f) = found e in
          (
            moved i node v,
            unfold moved in ground (arith, f.at),
            moved-IsCoherent i e f v,
            unfold moved in ground (arith, f.rest, f.same_key),
          )
    ]

    -- `remove` on a coherent cache takes the key out, if it is there, and keeps the order of the
    -- others.
    pub remove-without :
        (c' : LruCache K V) × (remove dec c k ≡ some c')
        × IsCoherent dec c'
        × (view c' ≡ without dec k (view c))
    unfolding remove
    remove-without = elim (Option-cases (find dec k c.lookup)) [
      | inl e ↦ (c, ground arith, h, sym (without-miss dec k c.items (missing e)))
      | inr (node, e) ↦
          let (i, f) = found e in
          let nodes =
            node_of-unlink dec k c.next_node node c.items h.linked (sym (h.indexed k) ∙ e) in
          (
            record c { items = unlink node c.items; lookup = erase dec k c.lookup },
            ground (arith, f.at),
            record {
              indexed = λ j.
                  find-erase dec k j c.lookup h.unique
                  ∙ ap (ite (dec k j) none) (h.indexed j)
                  ∙ sym (nodes j);
              unique = erase-HasUniqueKeys dec k c.lookup h.unique;
              linked = unlink-IsLinked dec c.next_node node c.items h.linked;
              counted = omega (arith, h.counted, f.shorter, length-erase dec k c.lookup node e);
            },
            f.rest,
          )
    ]
