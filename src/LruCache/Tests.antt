-- ===== src/LruCache/Tests.antt =====
-- Runs of the cache, and the theorems at a cache of two entries.

use native.Mathlib.Decide.{ℕ_discrete}
use dimdb.Prelude.{ℕ, ◌≡◌, refl, some, [], ◌∷◌, arith}
use dimdb.LruCache.{LruCache, empty, get, put, find, node_of, item_at, IsCoherent}
use dimdb.LruCache.Index.{value_of, without}
use dimdb.LruCache.Refines.{view, promote, get-promote, put-store}

-- After `put(1, 10)` and `put(2, 20)`.
abbrev two : LruCache ℕ ℕ
two = record {
  items = record { node = 1; key = 2; value = 20 } ∷ record { node = 0; key = 1; value = 10 } ∷ [];
  lookup = (2, 1) ∷ (1, 0) ∷ [];
  next_node = 2;
}

two_is_put :
    (put {V = ℕ} ℕ_discrete empty 1 10
      ≡ some (record {
        items = record { node = 0; key = 1; value = 10 } ∷ [];
        lookup = (1, 0) ∷ [];
        next_node = 1;
      }))
    × (put ℕ_discrete
          (record {
            items = record { node = 0; key = 1; value = 10 } ∷ [];
            lookup = (1, 0) ∷ [];
            next_node = 1;
          })
          2
          20
        ≡ some two)
unfolding put ℕ_discrete
two_is_put = (refl, refl)

hit_moves_to_front :
    get ℕ_discrete two 1
    ≡ some (
      record two {
        items =
            record { node = 0; key = 1; value = 10 }
            ∷ record { node = 1; key = 2; value = 20 }
            ∷ [];
      },
      some 10,
    )
unfolding get ℕ_discrete
hit_moves_to_front = refl

two-IsCoherent : IsCoherent ℕ_discrete two
unfolding find node_of item_at ℕ_discrete
two-IsCoherent = record {
  indexed = λ k. refl;
  unique = (refl, (refl, tt));
  linked = (omega arith, refl, refl, (omega arith, refl, refl, tt));
  counted = refl;
}

get-promote_example :
    (c : LruCache ℕ ℕ) × (get ℕ_discrete two 1 ≡ some (c, value_of ℕ_discrete 1 (view two)))
    × IsCoherent ℕ_discrete c
    × (view c ≡ promote ℕ_discrete 1 (view two))
get-promote_example = get-promote ℕ_discrete two 1 two-IsCoherent

put-store_example :
    (c : LruCache ℕ ℕ) × (put ℕ_discrete two 1 11 ≡ some c)
    × IsCoherent ℕ_discrete c
    × (view c ≡ (1, 11) ∷ without ℕ_discrete 1 (view two))
put-store_example = put-store ℕ_discrete two 1 two-IsCoherent 11
