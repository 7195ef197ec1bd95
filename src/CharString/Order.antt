-- ===== src/CharString/Order.antt =====
-- The comparisons of fixed strings against the order of their texts without trailing spaces.
use dimdb.Prelude.{
  ℕ, zero, suc, ◌+◌, ◌≤◌, ◌≡◌, refl, sym, min, Bool, true, false, not, List, [], ◌∷◌, take, length,
  ltb, ◌==◌, if◌then◌else◌, arith,
}
use dimdb.Utils.{equal_bytes}
use dimdb.Prelude.{Bool-cases, inl, inr}
use dimdb.Frame.Id.{one_of}
use dimdb.CharString.{CharString, trim, memcmp, is_equal_zero, is_negative, equal, less}

-- The memory holds the string and its last byte.
abbrev pub IsValid : CharString → Type 0
IsValid s = length s.data_ ≡ s.size_ + 1

-- The lexicographic order of texts.
abbrev pub less_bytes : List ℕ → List ℕ → Bool
less_bytes a [] = false
less_bytes [] (y ∷ b) = true
less_bytes (x ∷ a) (y ∷ b) =
    let rest = less_bytes a b in if ltb x y then true else if ltb y x then false else rest

-- The text without the spaces at its end.
unfoldable pub text_of : CharString → List ℕ
unfolding trim
text_of s = take (trim s.data_ s.size_) s.data_

trim-le : (bytes : List ℕ) (end : ℕ) → trim bytes end ≤ end
unfolding trim
trim-le bytes zero = omega arith
trim-le bytes (suc end) = ground (arith, trim-le bytes end)

memcmp-equal_bytes :
    (a b : List ℕ) (n : ℕ)
    → n ≤ length a
    → n ≤ length b
    → is_equal_zero (memcmp a b n) ≡ equal_bytes (take n a) (take n b)
unfolding memcmp equal_bytes take
memcmp-equal_bytes a b zero h k = refl
memcmp-equal_bytes [] b (suc n) h k = absurd (omega arith)
memcmp-equal_bytes (x ∷ a) [] (suc n) h k = absurd (omega arith)
memcmp-equal_bytes (x ∷ a) (y ∷ b) (suc n) h k =
    ground (arith, memcmp-equal_bytes a b n (omega arith) (omega arith))

equal_bytes-length :
    (a b : List ℕ) (n m : ℕ)
    → n ≤ length a
    → m ≤ length b
    → n == m ≡ false
    → equal_bytes (take n a) (take m b) ≡ false
unfolding equal_bytes take
equal_bytes-length a b zero zero h k e = absurd (ground arith)
equal_bytes-length a [] zero (suc m) h k e = absurd (omega arith)
equal_bytes-length a (y ∷ b) zero (suc m) h k e = refl
equal_bytes-length [] b (suc n) m h k e = absurd (omega arith)
equal_bytes-length (x ∷ a) b (suc n) zero h k e = refl
equal_bytes-length (x ∷ a) [] (suc n) (suc m) h k e = absurd (omega arith)
equal_bytes-length (x ∷ a) (y ∷ b) (suc n) (suc m) h k e =
    ground (arith, equal_bytes-length a b n m (omega arith) (omega arith) (ground arith))

memcmp-less_bytes :
    (a b : List ℕ) (n m : ℕ)
    → n ≤ length a
    → m ≤ length b
    → (if not (is_equal_zero (memcmp a b (min n m)))
        then is_negative (memcmp a b (min n m))
        else ltb n m)
      ≡ less_bytes (take n a) (take m b)
unfolding memcmp take
memcmp-less_bytes a b zero zero h k = refl
memcmp-less_bytes a [] zero (suc m) h k = absurd (omega arith)
memcmp-less_bytes a (y ∷ b) zero (suc m) h k =
    let e : min 0 (suc m) ≡ 0 = omega arith in rw e (ground arith)
memcmp-less_bytes [] b (suc n) m h k = absurd (omega arith)
memcmp-less_bytes (x ∷ a) b (suc n) zero h k =
    let e : min (suc n) 0 ≡ 0 = omega arith in rw e (ground arith)
memcmp-less_bytes (x ∷ a) [] (suc n) (suc m) h k = absurd (omega arith)
memcmp-less_bytes (x ∷ a) (y ∷ b) (suc n) (suc m) h k =
    let e : min (suc n) (suc m) ≡ suc (min n m) = omega arith in
    let ih = memcmp-less_bytes a b n m (omega arith) (omega arith) in rw e (ground (arith, ih))

pub less_bytes-equal_bytes :
    (a b : List ℕ) → one_of (less_bytes a b) (equal_bytes a b) (less_bytes b a) ≡ true
unfolding equal_bytes
less_bytes-equal_bytes [] [] = refl
less_bytes-equal_bytes [] (y ∷ b) = refl
less_bytes-equal_bytes (x ∷ a) [] = refl
less_bytes-equal_bytes (x ∷ a) (y ∷ b) = ground (arith, less_bytes-equal_bytes a b)

-- On fixed strings `==` and `<` are the equality and the lexicographic order of the texts without
-- the spaces at their ends.
pub less-less_bytes :
    (a b : CharString)
    → IsValid a
    → IsValid b
    → (less a b ≡ less_bytes (text_of a) (text_of b))
      × (equal a b ≡ equal_bytes (text_of a) (text_of b))
unfolding less equal text_of
less-less_bytes a b h k =
    let n = trim-le a.data_ a.size_ in
    let m = trim-le b.data_ b.size_ in
    (
      memcmp-less_bytes a.data_ b.data_ _ _ (omega arith) (omega arith),
      elim (Bool-cases (trim a.data_ a.size_ == trim b.data_ b.size_)) [
        | inl e ↦
            let same : trim a.data_ a.size_ ≡ trim b.data_ b.size_ = ground arith in
            rw e (rw same (memcmp-equal_bytes a.data_ b.data_ _ (omega arith) (omega arith)))
        | inr e ↦ rw e (sym (equal_bytes-length a.data_ b.data_ _ _ (omega arith) (omega arith) e))
      ],
    )

-- Of two fixed strings exactly one is less, or they are equal.
pub less-equal :
    (a b : CharString) → IsValid a → IsValid b → one_of (less a b) (equal a b) (less b a) ≡ true
less-equal a b h k =
    let (l, e) = less-less_bytes a b h k in
    let (g, e') = less-less_bytes b a k h in
    rw (l, e, g) (less_bytes-equal_bytes (text_of a) (text_of b))
