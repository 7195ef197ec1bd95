-- ===== src/FrameManager/Once.antt =====
-- No frame stands under two keys of the cache.
use mathlib.Core.List.{reverse, reverse_aux}
use dimdb.Prelude.{
  ℕ, ◌+◌, ◌≤◌, ◌<◌, ◌≡◌, refl, ap, ◌∙◌, none, some, List, [], ◌∷◌, count, if_pos, if_neg, ◌==◌,
  arith, Bool-cases, inl, inr,
}
use dimdb.LruCache.Index.{value_of}
use dimdb.LruCache.Refines.{view}
use dimdb.Frame.Id.{frame_id_discrete}
use dimdb.FrameManager.{FrameManager, IsValid}
use dimdb.FrameManager.Keys.{IsDistinct, view_items-IsDistinct}

module _ {K : Type 0} where
  abbrev pub frames_of : List (K × ℕ) → List ℕ
  frames_of [] = []
  frames_of ((k, a) ∷ l) = a ∷ frames_of l

module _ {K : Type 0} (dec : Discrete K) where
  value_of-tail :
      (j k : K) (v a : ℕ) (l : List (K × ℕ))
      → value_of dec k l ≡ none
      → value_of dec j l ≡ some a
      → value_of dec j ((k, v) ∷ l) ≡ some a
  unfolding value_of
  value_of-tail j k v a l new e = elim (dec k j) [
    | yes p ↦ absurd (ground (arith, ap (λ x. value_of dec x l) p))
    | no n ↦ if_neg (dec k j) n _ _ ∙ e
  ]

  -- A frame of the list has a key.
  pub key_of :
      (a : ℕ) (l : List (K × ℕ))
      → IsDistinct dec l
      → 0 < count a (frames_of l)
      → (k : K) × (value_of dec k l ≡ some a)
  unfolding value_of
  key_of a [] d there = absurd (omega arith)
  key_of a ((k, v) ∷ l) d there = elim (Bool-cases (v == a)) [
    | inl e ↦ (k, if_pos (dec k k) refl _ _ ∙ ground (arith, e))
    | inr e ↦ let (j, f) = key_of a l d.1 (ground (arith, e)) in (j, value_of-tail j k v a l d.0 f)
  ]

  frames_of-once :
      (l : List (K × ℕ))
      → IsDistinct dec l
      → ((j k : K) (a : ℕ) → value_of dec j l ≡ some a → value_of dec k l ≡ some a → j ≡ k)
      → (a : ℕ) → count a (frames_of l) ≤ 1
  unfolding value_of
  frames_of-once [] d apart a = omega arith
  frames_of-once ((k, v) ∷ l) d apart a =
      let tail =
        frames_of-once l d.1
          (λ i j b f g. apart i j b (value_of-tail i k v b l d.0 f) (value_of-tail j k v b l d.0 g))
          a in
      elim (Bool-cases (v == a)) [
        | inr e ↦ ground (arith, e, tail)
        | inl e ↦ elim (Bool-cases (count a (frames_of l) == 0)) [
          | inl z ↦ ground (arith, z)
          | inr n ↦
              let (j, f) = key_of a l d.1 (ground (arith, n)) in
              let same : k ≡ j =
                apart k j a (if_pos (dec k k) refl _ _ ∙ ground (arith, e))
                  (value_of-tail j k v a l d.0 f) in
              absurd (ground (arith, d.0, f, ap (λ x. value_of dec x l) same))
        ]
      ]

count-reverse_aux :
    {K : Type 0} (a : ℕ) (l acc : List (K × ℕ))
    → count a (frames_of (reverse_aux l acc)) ≡ count a (frames_of l) + count a (frames_of acc)
count-reverse_aux a [] acc = omega arith
count-reverse_aux a ((k, v) ∷ l) acc = omega (arith, count-reverse_aux a l ((k, v) ∷ acc))

pub count-reverse :
    {K : Type 0} (a : ℕ) (l : List (K × ℕ))
    → count a (frames_of (reverse l)) ≡ count a (frames_of l)
count-reverse a l = omega (arith, count-reverse_aux a l [])

module _ (m : FrameManager) (h : IsValid m) where
  pub view-IsDistinct : IsDistinct frame_id_discrete (view m.frames)
  view-IsDistinct =
      view_items-IsDistinct frame_id_discrete m.frames.next_node m.frames.items h.coherent.linked

  pub view-once : (a : ℕ) → count a (frames_of (reverse (view m.frames))) ≤ 1
  view-once a =
      rw (count-reverse a (view m.frames))
        (frames_of-once frame_id_discrete (view m.frames) view-IsDistinct h.apart a)
