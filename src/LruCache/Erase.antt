-- ===== src/LruCache/Erase.antt =====
-- `lookup_.erase` takes one key out of the index.
use dimdb.Prelude.{ℕ, ◌+◌, ◌≡◌, ap, none, some, List, [], ◌∷◌, length, ite, if_pos, if_neg, arith}
use dimdb.LruCache.{find, erase, HasUniqueKeys}

module _ {K : Type 0} (dec : Discrete K) where
  pub find-erase :
      (k j : K) (index : List (K × ℕ))
      → HasUniqueKeys dec index
      → find dec j (erase dec k index) ≡ ite (dec k j) none (find dec j index)
  unfolding find erase
  find-erase k j [] u = ground arith
  find-erase k j ((i, node) ∷ index) u = elim (dec i k) [
    | yes p ↦ ground (arith, ap (λ n. find dec n index) p)
    | no p ↦ ground (arith, find-erase k j index u.1)
  ]

  pub length-erase :
      (k : K) (index : List (K × ℕ)) (node : ℕ)
      → find dec k index ≡ some node
      → length (erase dec k index) + 1 ≡ length index
  unfolding find erase
  length-erase k [] node h = absurd (cc h)
  length-erase k ((i, n) ∷ index) node h = ground (arith, length-erase k index node)

  pub erase-HasUniqueKeys :
      (k : K) (index : List (K × ℕ))
      → HasUniqueKeys dec index
      → HasUniqueKeys dec (erase dec k index)
  unfolding erase
  erase-HasUniqueKeys k [] u = tt
  erase-HasUniqueKeys k ((i, node) ∷ index) u = elim (dec i k) [
    | yes p ↦ rw (if_pos _ p) u.1
    | no p ↦
        rw (if_neg _ p) (ground (arith, find-erase k i index u.1), erase-HasUniqueKeys k index u.1)
  ]
