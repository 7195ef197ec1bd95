-- ===== src/LruCache/Index.antt =====
-- A node found by its iterator is the node found by its key, while the list is linked.
use dimdb.Prelude.{
  ℕ, ◌+◌, ◌≤◌, ◌<◌, ◌≡◌, ◌≢◌, refl, sym, ap, Option, none, some, List, [], ◌∷◌, length, ite, if_neg,
  ◌==◌, arith, Bool-cases, inl, inr,
}
use dimdb.LruCache.{CacheItem, item_at, unlink, node_of, IsLinked}

-- The abstract cache: keys with their values, the most recently used first.
abbrev pub entry : {K V : Type 0} → CacheItem K V → K × V
entry i = (i.key, i.value)

abbrev pub view_items : {K V : Type 0} → List (CacheItem K V) → List (K × V)
view_items [] = []
view_items (i ∷ items) = entry i ∷ view_items items

module _ {K V : Type 0} (dec : Discrete K) where
  unfoldable pub value_of : K → List (K × V) → Option V
  value_of k [] = none
  value_of k ((j, v) ∷ l) = ite (dec j k) (some v) (value_of k l)

  unfoldable pub without : K → List (K × V) → List (K × V)
  without k [] = []
  without k ((j, v) ∷ l) = ite (dec j k) l ((j, v) ∷ without k l)

module _ {K V : Type 0} (dec : Discrete K) where
  pub value_of-miss :
      (k : K) (items : List (CacheItem K V))
      → node_of dec k items ≡ none
      → value_of dec k (view_items items) ≡ none
  unfolding node_of value_of
  value_of-miss k [] h = refl
  value_of-miss k (i ∷ items) h = elim (dec i.key k) [
    | yes p ↦ absurd (ground arith)
    | no p ↦ rw (if_neg _ p) (value_of-miss k items (ground arith))
  ]

  pub without-miss :
      (k : K) (items : List (CacheItem K V))
      → node_of dec k items ≡ none
      → without dec k (view_items items) ≡ view_items items
  unfolding node_of without
  without-miss k [] h = refl
  without-miss k (i ∷ items) h = elim (dec i.key k) [
    | yes p ↦ absurd (ground arith)
    | no p ↦ rw (if_neg _ p) (ap (◌∷◌ (entry i)) (without-miss k items (ground arith)))
  ]

  -- The facts about the item `i` that the index gives for `k`.
  pub record Found (k : K) (node : ℕ) (items : List (CacheItem K V)) (i : CacheItem K V)
      : Type 0 where
    pub at : item_at node items ≡ some i
    pub same_key : i.key ≡ k
    pub same_node : i.node ≡ node
    pub value : value_of dec k (view_items items) ≡ some i.value
    pub rest : view_items (unlink node items) ≡ without dec k (view_items items)
    pub shorter : length (unlink node items) + 1 ≡ length items

  pub node_of-Found :
      (k : K) (next node : ℕ) (items : List (CacheItem K V))
      → IsLinked dec next items
      → node_of dec k items ≡ some node
      → (i : CacheItem K V) × Found k node items i
  unfolding node_of item_at unlink value_of without
  node_of-Found k next node [] l h = absurd (cc h)
  node_of-Found k next node (i ∷ items) l h = elim (dec i.key k) [
    | yes p ↦
        let e : i.node ≡ node = ground arith in
        (
          i,
          record {
            at = ground arith;
            same_key = p;
            same_node = e;
            value = ground arith;
            rest = ground arith;
            shorter = ground arith;
          },
        )
    | no p ↦
        let h' : node_of dec k items ≡ some node = ground arith in
        let (j, f) = node_of-Found k next node items l.3 h' in
        let ne : i.node ≢ node = λ e. cc (sym f.at, l.2, ap (λ n. item_at n items) e) in
        (
          j,
          record {
            at = ground (arith, f.at);
            same_key = f.same_key;
            same_node = f.same_node;
            value = ground (arith, f.value);
            rest = ground (arith, f.rest);
            shorter = ground (arith, f.shorter);
          },
        )
  ]

  -- An item that another lacks by key or by node, it lacks after `unlink` too.
  node_of-unlink-none :
      (k : K) (node : ℕ) (items : List (CacheItem K V))
      → node_of dec k items ≡ none
      → node_of dec k (unlink node items) ≡ none
  unfolding node_of unlink
  node_of-unlink-none k node [] h = refl
  node_of-unlink-none k node (i ∷ items) h = ground (arith, node_of-unlink-none k node items)

  item_at-unlink-none :
      (n node : ℕ) (items : List (CacheItem K V))
      → item_at n items ≡ none
      → item_at n (unlink node items) ≡ none
  unfolding item_at unlink
  item_at-unlink-none n node [] h = refl
  item_at-unlink-none n node (i ∷ items) h = ground (arith, item_at-unlink-none n node items)

  pub unlink-IsLinked :
      (next node : ℕ) (items : List (CacheItem K V))
      → IsLinked dec next items
      → IsLinked dec next (unlink node items)
  unfolding unlink
  unlink-IsLinked next node [] l = tt
  unlink-IsLinked next node (i ∷ items) l = elim (Bool-cases (i.node == node)) [
    | inl e ↦ rw e l.3
    | inr e ↦ rw e (
      l.0,
      node_of-unlink-none i.key node items l.1,
      item_at-unlink-none i.node node items l.2,
      unlink-IsLinked next node items l.3,
    )
  ]

  pub node-lt :
      (next node : ℕ) (items : List (CacheItem K V)) {i : CacheItem K V}
      → IsLinked dec next items
      → item_at node items ≡ some i
      → node < next
  unfolding item_at
  node-lt next node [] l h = absurd (cc h)
  node-lt next node (j ∷ items) {i} l h = elim (Bool-cases (j.node == node)) [
    | inl e ↦ let e' : j.node ≡ node = ground arith in rw (← e') l.0
    | inr e ↦ node-lt next node items {i = i} l.3 (ground arith)
  ]

  pub item_at-unlink :
      (next node : ℕ) (items : List (CacheItem K V))
      → IsLinked dec next items
      → item_at node (unlink node items) ≡ none
  unfolding item_at unlink
  item_at-unlink next node [] l = refl
  item_at-unlink next node (j ∷ items) l = elim (Bool-cases (j.node == node)) [
    | inl e ↦ let e' : j.node ≡ node = ground arith in rw e (rw (← e') l.2)
    | inr e ↦ rw (e, item_at) (rw e (item_at-unlink next node items l.3))
  ]

  -- The allocator's next number is that of no node.
  item_at-above :
      (next n : ℕ) (items : List (CacheItem K V))
      → IsLinked dec next items
      → next ≤ n
      → item_at n items ≡ none
  unfolding item_at
  item_at-above next n [] l h = refl
  item_at-above next n (j ∷ items) l h = elim (Bool-cases (j.node == n)) [
    | inl e ↦ absurd (ground (arith, l.0))
    | inr e ↦ rw e (item_at-above next n items l.3 h)
  ]

  pub item_at-fresh :
      (next : ℕ) (items : List (CacheItem K V))
      → IsLinked dec next items
      → item_at next items ≡ none
  item_at-fresh next items l = item_at-above next next items l (omega arith)

  pub IsLinked-suc :
      (next : ℕ) (items : List (CacheItem K V))
      → IsLinked dec next items
      → IsLinked dec (next + 1) items
  IsLinked-suc next [] l = tt
  IsLinked-suc next (j ∷ items) l = (omega (arith, l.0), l.1, l.2, IsLinked-suc next items l.3)

  -- With a node goes its key, and no other.
  pub node_of-unlink :
      (k : K) (next node : ℕ) (items : List (CacheItem K V))
      → IsLinked dec next items
      → node_of dec k items ≡ some node
      → (j : K) → node_of dec j (unlink node items) ≡ ite (dec k j) none (node_of dec j items)
  unfolding node_of unlink item_at
  node_of-unlink k next node [] l h j = absurd (cc h)
  node_of-unlink k next node (i ∷ items) l h j = elim (dec i.key k) [
    | yes p ↦
        let e : i.node ≡ node = ground arith in
        let gone : node_of dec k items ≡ none = rw (← p) l.1 in
        ground (arith, ap (λ n. node_of dec n items) p)
    | no p ↦
        let h' : node_of dec k items ≡ some node = ground arith in
        let f = node_of-Found k next node items l.3 h' in
        let ne : i.node ≢ node = λ e. cc (sym f.1.at, l.2, ap (λ n. item_at n items) e) in
        ground (arith, node_of-unlink k next node items l.3 h' j)
  ]
