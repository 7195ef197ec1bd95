-- ===== src/FrameManager/Victims.antt =====
-- The frames that `purge_frames` takes.
use dimdb.Prelude.{
  ℕ, zero, suc, ◌+◌, ◌-◌, ◌≤◌, ◌<◌, ◌≡◌, refl, sym, ap, ◌∙◌, true, false, List, [], ◌∷◌, ◌++◌,
  count, count-append, length, length-append, take, leb, ◌==◌, if◌then◌else◌, arith, append_assoc,
  append_nil, Bool-cases, inl, inr,
}
use dimdb.Frame.{FrameId, Frame, can_purge, pin}
use dimdb.Frame.Pins.{pins}
use dimdb.MemPool.{update}
use dimdb.LruCache.Visit.{visit_view}
use dimdb.FrameManager.{purge_finder}
use dimdb.FrameManager.Once.{frames_of}
use dimdb.FrameManager.Pool.{pin-update}

-- The frames without a pin, in the order of the entries.
unfoldable pub purgeable : (ℕ → Frame) → List (FrameId × ℕ) → List ℕ
purgeable objects [] = []
purgeable objects ((k, frame) ∷ l) =
    let rest = purgeable objects l in if can_purge (objects frame) then frame ∷ rest else rest

pub count-purgeable :
    (a : ℕ) (objects : ℕ → Frame) (l : List (FrameId × ℕ))
    → count a (purgeable objects l) ≤ count a (frames_of l)
unfolding purgeable
count-purgeable a objects [] = omega arith
count-purgeable a objects ((k, frame) ∷ l) = ground (arith, count-purgeable a objects l)

pub can_purge-purgeable :
    (a : ℕ) (objects : ℕ → Frame) (l : List (FrameId × ℕ))
    → 0 < count a (purgeable objects l)
    → can_purge (objects a) ≡ true
unfolding purgeable
can_purge-purgeable a objects [] there = absurd (omega arith)
can_purge-purgeable a objects ((k, frame) ∷ l) there = elim (Bool-cases (frame == a)) [
  | inl e ↦
      let same : frame ≡ a = ground arith in
      elim (Bool-cases (can_purge (objects frame))) [
        | inl p ↦ rw (← same) p
        | inr n ↦ can_purge-purgeable a objects l (ground (arith, n))
      ]
  | inr e ↦ can_purge-purgeable a objects l (ground (arith, e))
]

pub count-take : (a n : ℕ) (l : List ℕ) → count a (take n l) ≤ count a l
unfolding take
count-take a zero l = omega arith
count-take a (suc n) [] = omega arith
count-take a (suc n) (x ∷ l) = omega (arith, count-take a n l)

pub pins-zero : (f : Frame) → pins 0 f ≡ f
unfolding pins
pins-zero f = refl

module _ (n : ℕ) (before : ℕ → Frame) where
  pub visit_view-purgeable :
      (l : List (FrameId × ℕ)) (objects : ℕ → Frame) (acc : List ℕ)
      → ((a : ℕ) → objects a ≡ pins (count a acc) (before a))
      → ((a : ℕ) → count a acc + count a (frames_of l) ≤ 1)
      → length acc < n
      → let (objects', found) = visit_view (purge_finder n) l (objects, acc) in
        (found ≡ acc ++ take (n - length acc) (purgeable before l))
        × ((a : ℕ) → objects' a ≡ pins (count a found) (before a))
  unfolding visit_view purge_finder purgeable take
  visit_view-purgeable [] objects acc pinned once room =
      let more : n - length acc ≡ suc (n - length acc - 1) = omega arith in
      (rw more (sym (append_nil acc)), pinned)
  visit_view-purgeable ((k, frame) ∷ l) objects acc pinned once room =
      let more : n - length acc ≡ suc (n - length acc - 1) = omega arith in
      let new : count frame acc ≡ 0 = ground (arith, once frame) in
      let same : objects frame ≡ before frame =
        pinned frame ∙ ap (λ (c : ℕ). pins c (before frame)) new ∙ pins-zero (before frame) in
      let size = length-append acc (frame ∷ []) in
      elim (Bool-cases (can_purge (before frame))) [
        | inl e ↦
            let e' : can_purge (objects frame) ≡ true = ap can_purge same ∙ e in
            let after = pin-update before objects frame acc pinned in
            elim (Bool-cases (leb n (length acc + 1))) [
              | inl full ↦
                  let none_left : n - length acc - 1 ≡ 0 = ground (arith, full) in
                  rw (e', e, full, more, none_left) (refl, after)
              | inr room' ↦
                  let left : n - length (acc ++ frame ∷ []) ≡ n - length acc - 1 = omega arith in
                  let (found, after') =
                    visit_view-purgeable l (update objects frame (pin (objects frame)))
                      (acc ++ frame ∷ []) after
                      (λ a. omega (arith, count-append a acc (frame ∷ []), once a))
                      (ground (arith, size, room')) in
                  rw (e', e, room', more)
                    (
                      found
                          ∙ append_assoc acc (frame ∷ []) _
                          ∙ ap (λ (c : ℕ). acc ++ frame ∷ take c (purgeable before l)) left,
                      after',
                    )
            ]
        | inr e ↦
            let e' : can_purge (objects frame) ≡ false = ap can_purge same ∙ e in
            rw (e', e)
              (visit_view-purgeable l objects acc pinned (λ a. ground (arith, once a)) room)
      ]
