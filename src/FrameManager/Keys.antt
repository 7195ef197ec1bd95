-- ===== src/FrameManager/Keys.antt =====
-- Keys of the recency list stand once, so that deletion, insertion and promotion are seen by lookup.
use dimdb.Prelude.{ℕ, ◌≡◌, refl, ap, none, some, List, [], ◌∷◌, ite, arith, Option-cases, inl, inr}
use dimdb.LruCache.{CacheItem, LruCache, IsLinked, IsCoherent}
use dimdb.LruCache.Index.{view_items, value_of, without, value_of-miss}
use dimdb.LruCache.Refines.{view, promote}

module _ {K V : Type 0} (dec : Discrete K) where
  abbrev pub IsDistinct : List (K × V) → Type 0
  IsDistinct [] = Unit
  IsDistinct ((k, v) ∷ l) = (value_of dec k l ≡ none) × IsDistinct l

module _ {K V : Type 0} (dec : Discrete K) where
  pub view_items-IsDistinct :
      (next : ℕ) (items : List (CacheItem K V))
      → IsLinked dec next items
      → IsDistinct dec (view_items items)
  view_items-IsDistinct next [] l = tt
  view_items-IsDistinct next (i ∷ items) l =
      (value_of-miss dec i.key items l.1, view_items-IsDistinct next items l.3)

  value_of-without :
      (k : K) (l : List (K × V))
      → IsDistinct dec l
      → (j : K) → value_of dec j (without dec k l) ≡ ite (dec k j) none (value_of dec j l)
  unfolding value_of without
  value_of-without k [] d j = ground arith
  value_of-without k ((i, v) ∷ l) d j = elim (dec i k) [
    | yes p ↦ ground (arith, ap (λ n. value_of dec n l) p)
    | no n ↦ ground (arith, value_of-without k l d.1 j)
  ]

  module _ (c : LruCache K V) (h : IsCoherent dec c) (k : K) where
    pub value_of-without-view :
        (j : K)
        → value_of dec j (without dec k (view c)) ≡ ite (dec k j) none (value_of dec j (view c))
    value_of-without-view j =
        value_of-without k (view c) (view_items-IsDistinct c.next_node c.items h.linked) j

    pub value_of-cons :
        (v : V) (j : K)
        → value_of dec j ((k, v) ∷ without dec k (view c))
          ≡ ite (dec k j) (some v) (value_of dec j (view c))
    unfolding value_of
    value_of-cons v j = ground (arith, value_of-without-view j)

    pub value_of-promote :
        (j : K) → value_of dec j (promote dec k (view c)) ≡ value_of dec j (view c)
    unfolding promote value_of
    value_of-promote j = elim (Option-cases (value_of dec k (view c))) [
      | inl e ↦ ground arith
      | inr (v, e) ↦
          ground (arith, value_of-without-view j, ap (λ n. value_of dec n (view c)) {x = k} {y = j})
    ]

  pub without-promote :
      (k : K) (l : List (K × V)) → without dec k (promote dec k l) ≡ without dec k l
  unfolding promote without
  without-promote k l = elim (Option-cases (value_of dec k l)) [
    | inl e ↦ ground arith
    | inr (v, e) ↦ ground arith
  ]

  pub without-none : (k : K) (l : List (K × V)) → value_of dec k l ≡ none → without dec k l ≡ l
  unfolding without value_of
  without-none k [] e = refl
  without-none k ((j, v) ∷ l) e = elim (dec j k) [
    | yes p ↦ absurd (ground arith)
    | no n ↦ ground (arith, without-none k l)
  ]
