-- ===== src/ItemPool/Blocks.antt =====
-- Lists of blocks that do not overlap.
use dimdb.Prelude.{
  ℕ, zero, suc, ◌+◌, ◌*◌, ◌≤◌, ◌<◌, ◌≡◌, List, [], ◌∷◌, ◌++◌, count, remove_one, ◌⊎◌, inl, inr,
  Bool-cases, ◌==◌, arith,
}
use mathlib.Core.Path.{subst}
use dimdb.ItemPool.{blocks}

module _ (P : ℕ → Type 0) where
  abbrev pub All : List ℕ → Type 0
  All [] = Unit
  All (a ∷ l) = P a × All l

module _ (P : ℕ → Type 0) where
  pub All-append : (k l : List ℕ) → All P k → All P l → All P (k ++ l)
  All-append [] l h g = g
  All-append (a ∷ k) l (p, h) g = (p, All-append k l h g)

  pub middle-All : (k l : List ℕ) (a : ℕ) → All P (k ++ a ∷ l) → P a × All P (k ++ l)
  middle-All [] l a h = h
  middle-All (b ∷ k) l a (p, h) = let (q, g) = middle-All k l a h in (q, (p, g))

  pub insert-All : (k l : List ℕ) (a : ℕ) → P a → All P (k ++ l) → All P (k ++ a ∷ l)
  insert-All [] l a p h = (p, h)
  insert-All (b ∷ k) l a p (q, h) = (q, insert-All k l a p h)

  pub All-remove_one :
      (a : ℕ) (k l : List ℕ) → 0 < count a k → All P (k ++ l) → P a × All P (remove_one a k ++ l)
  All-remove_one a [] l h g = absurd (omega arith)
  All-remove_one a (b ∷ k) l h (p, g) = elim (Bool-cases (b == a)) [
    | inl e ↦ let same : b ≡ a = ground arith in rw e (subst P same p, g)
    | inr e ↦ let (q, g') = All-remove_one a k l (ground (arith, h, e)) g in rw e (q, (p, g'))
  ]

-- Blocks of that size at the two addresses do not overlap.
abbrev pub Apart : ℕ → ℕ → ℕ → Type 0
Apart size a b = (a + size ≤ b) ⊎ (b + size ≤ a)

sym-Apart : (size a b : ℕ) → Apart size a b → Apart size b a
sym-Apart size a b (inl h) = inr h
sym-Apart size a b (inr h) = inl h

module _ (size : ℕ) where
  abbrev pub IsApart : List ℕ → Type 0
  IsApart [] = Unit
  IsApart (a ∷ l) = All (Apart size a) l × IsApart l

module _ (size : ℕ) where
  pub middle-IsApart :
      (k l : List ℕ) (a : ℕ)
      → IsApart size (k ++ a ∷ l)
      → All (Apart size a) (k ++ l) × IsApart size (k ++ l)
  middle-IsApart [] l a h = h
  middle-IsApart (b ∷ k) l a (p, h) =
      let (q, p') = middle-All (Apart size b) k l a p in
      let (r, h') = middle-IsApart k l a h in ((sym-Apart size b a q, r), (p', h'))

  pub insert-IsApart :
      (k l : List ℕ) (a : ℕ)
      → All (Apart size a) (k ++ l)
      → IsApart size (k ++ l)
      → IsApart size (k ++ a ∷ l)
  insert-IsApart [] l a p h = (p, h)
  insert-IsApart (b ∷ k) l a (q, p) (r, h) =
      (insert-All (Apart size b) k l a (sym-Apart size a b q) r, insert-IsApart k l a p h)

  pub IsApart-remove_one :
      (a : ℕ) (k l : List ℕ)
      → 0 < count a k
      → IsApart size (k ++ l)
      → All (Apart size a) (remove_one a k ++ l) × IsApart size (remove_one a k ++ l)
  IsApart-remove_one a [] l h g = absurd (omega arith)
  IsApart-remove_one a (b ∷ k) l h (p, g) = elim (Bool-cases (b == a)) [
    | inl e ↦
        let same : b ≡ a = ground arith in rw e (subst (λ c. All (Apart size c) (k ++ l)) same p, g)
    | inr e ↦
        let below : 0 < count a k = ground (arith, h, e) in
        let (q, p') = All-remove_one (Apart size b) a k l below p in
        let (r, g') = IsApart-remove_one a k l below g in rw e ((sym-Apart size b a q, r), (p', g'))
  ]

  pub IsApart-append :
      (k l : List ℕ)
      → IsApart size k
      → IsApart size l
      → All (λ a. All (Apart size a) l) k
      → IsApart size (k ++ l)
  IsApart-append [] l h g p = g
  IsApart-append (a ∷ k) l (q, h) g (r, p) =
      (All-append (Apart size a) k l q r, IsApart-append k l h g p)

-- A block between the two addresses.
abbrev pub Within : ℕ → ℕ → ℕ → ℕ → Type 0
Within size from to a = (from ≤ a) × (a + size ≤ to)

weaken-All : (P Q : ℕ → Type 0) (l : List ℕ) → ((a : ℕ) → P a → Q a) → All P l → All Q l
weaken-All P Q [] f h = tt
weaken-All P Q (a ∷ l) f (p, h) = (f a p, weaken-All P Q l f h)

pub blocks-Within :
    (size from to pool n : ℕ)
    → from ≤ pool
    → pool + n * size ≤ to
    → All (Within size from to) (blocks pool size n)
unfolding blocks
blocks-Within size from to pool zero h k = tt
blocks-Within size from to pool (suc n) h k =
    let more : suc n * size ≡ n * size + size = omega arith in
    (
      (h, omega (arith, more)),
      blocks-Within size from to (pool + size) n (omega arith) (omega (arith, more)),
    )

pub blocks-IsApart : (size pool n : ℕ) → IsApart size (blocks pool size n)
unfolding blocks
blocks-IsApart size pool zero = tt
blocks-IsApart size pool (suc n) = (
  weaken-All (Within size (pool + size) (pool + size + n * size)) (Apart size pool) _
      (λ a w. inl w.0)
      (blocks-Within size (pool + size) (pool + size + n * size) (pool + size) n (omega arith)
        (omega arith)),
  blocks-IsApart size (pool + size) n,
)

-- Blocks that end below an address are apart from blocks that begin there.
pub Within-Apart :
    (size from to to' : ℕ) (k l : List ℕ)
    → All (Within size from to) k
    → All (Within size to to') l
    → All (λ a. All (Apart size a) l) k
Within-Apart size from to to' k l h g =
    weaken-All (Within size from to) (λ a. All (Apart size a) l) k
      (λ a w.
        weaken-All (Within size to to') (Apart size a) l (λ b v. inl (omega (arith, w.1, v.0))) g)
      h

pub wider-Within :
    (size from to to' : ℕ) (l : List ℕ)
    → to ≤ to'
    → All (Within size from to) l
    → All (Within size from to') l
wider-Within size from to to' l h g =
    weaken-All (Within size from to) (Within size from to') l (λ a w. (w.0, omega (arith, w.1))) g
