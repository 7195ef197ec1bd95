-- ===== src/LruCache/Visit.antt =====
-- `foreach` calls `func` on the entries of the recency list in order, until it returns false.
use mathlib.Core.List.{reverse, reverse_aux}
use dimdb.Prelude.{Bool, List, [], ◌∷◌, ◌≡◌, refl, ap, ◌∙◌}
use dimdb.LruCache.{LruCache, CacheItem, visit, on_when, foreach, foreach_reverse}
use dimdb.LruCache.Index.{view_items}
use dimdb.LruCache.Refines.{view}

view_items-reverse_aux :
    {K V : Type 0} (items acc : List (CacheItem K V))
    → view_items (reverse_aux items acc) ≡ reverse_aux (view_items items) (view_items acc)
view_items-reverse_aux [] acc = refl
view_items-reverse_aux (i ∷ items) acc = view_items-reverse_aux items (i ∷ acc)

module _ {κ} {K V : Type 0} {S : Type κ} (func : K → V → S → Bool × S) where
  unfoldable pub visit_view : List (K × V) → S → S
  visit_view [] s = s
  visit_view ((k, v) ∷ l) s =
      let (on, s') = func k v s in let rest = visit_view l s' in on_when on rest s'

  visit-visit_view :
      (items : List (CacheItem K V)) (s : S) → visit func items s ≡ visit_view (view_items items) s
  unfolding visit visit_view
  visit-visit_view [] s = refl
  visit-visit_view (i ∷ items) s =
      ap (λ rest. on_when (func i.key i.value s).0 rest (func i.key i.value s).1)
        (visit-visit_view items (func i.key i.value s).1)

  pub foreach-visit_view : (c : LruCache K V) (s : S) → foreach func c s ≡ visit_view (view c) s
  unfolding foreach
  foreach-visit_view c s = visit-visit_view c.items s

  pub foreach_reverse-visit_view :
      (c : LruCache K V) (s : S) → foreach_reverse func c s ≡ visit_view (reverse (view c)) s
  unfolding foreach_reverse
  foreach_reverse-visit_view c s =
      visit-visit_view (reverse c.items) s
      ∙ ap (λ l. visit_view l s) (view_items-reverse_aux c.items [])
