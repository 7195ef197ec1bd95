-- ===== src/DoubleWrite/Keys.antt =====
-- The keys of the double write buffer, and lookup in a map of which an entry was replaced.
use dimdb.Prelude.{
  suc, ◌≡◌, refl, ap, ◌∙◌, true, false, [], ◌∷◌, none, some, length, arith, Bool-cases, inl, inr,
}
use dimdb.Prelude.Int.{ℤ-discrete}
use dimdb.Frame.Id.{eq_ℤ-refl, eq_ℤ-ne}
use dimdb.DoubleWrite.{
  DoubleWritePageKey, DoubleWritePage, Pointer, Pages, live, dangling, IsDistinct, AllLive, equal,
  find, replace,
}

pub equal_self : (key : DoubleWritePageKey) → equal key key ≡ true
unfolding equal
equal_self key = rw (eq_ℤ-refl key.buffer_pool_id _ refl, eq_ℤ-refl key.page_num _ refl) refl

pub equal-path : (a b : DoubleWritePageKey) → equal a b ≡ true → a ≡ b
unfolding equal
equal-path a b h = elim (ℤ-discrete a.buffer_pool_id b.buffer_pool_id) [
  | yes p ↦ elim (ℤ-discrete a.page_num b.page_num) [
    | yes q ↦ λ i. record { buffer_pool_id = p i; page_num = q i }
    | no q ↦ absurd (ground (arith, h, eq_ℤ-ne _ _ q))
  ]
  | no p ↦ absurd (ground (arith, h, eq_ℤ-ne _ _ p))
]

pub find-replace :
    (key : DoubleWritePageKey) (p q : Pointer) (pages : Pages)
    → find key pages ≡ some p
    → find key (replace key q pages) ≡ some q
unfolding find replace
find-replace key p q [] h = absurd (cc h)
find-replace key p q ((k, r) ∷ pages) h = elim (Bool-cases (equal k key)) [
  | inl e ↦ rw e (rw e refl)
  | inr e ↦ rw e (rw e (find-replace key p q pages (rw e at h)))
]

pub find-replace_other :
    (key k : DoubleWritePageKey) (q : Pointer) (pages : Pages)
    → equal key k ≡ false
    → find k (replace key q pages) ≡ find k pages
unfolding find replace
find-replace_other key k q [] n = refl
find-replace_other key k q ((k', r) ∷ pages) n = elim (Bool-cases (equal k' key)) [
  | inl e ↦
      let same : equal k' k ≡ false = ap (λ j. equal j k) (equal-path k' key e) ∙ n in
      rw (e, same) refl
  | inr e ↦ rw (e, find-replace_other key k q pages n) refl
]

find-replace_absent :
    (key k : DoubleWritePageKey) (q : Pointer) (pages : Pages)
    → find k pages ≡ none
    → find k (replace key q pages) ≡ none
unfolding find replace
find-replace_absent key k q [] h = refl
find-replace_absent key k q ((k', r) ∷ pages) h = elim (Bool-cases (equal k' k)) [
  | inl e ↦ let found : some r ≡ none = rw e at h in absurd (cc found)
  | inr e ↦
      let missing : find k pages ≡ none = rw e at h in
      elim (Bool-cases (equal k' key)) [
        | inl e' ↦ rw (e', e) missing
        | inr e' ↦ rw (e', e) (find-replace_absent key k q pages missing)
      ]
]

pub replace-IsDistinct :
    (key : DoubleWritePageKey) (q : Pointer) (pages : Pages)
    → IsDistinct pages
    → IsDistinct (replace key q pages)
unfolding replace
replace-IsDistinct key q [] d = tt
replace-IsDistinct key q ((k, r) ∷ pages) (fresh, d) = elim (Bool-cases (equal k key)) [
  | inl e ↦ rw e (fresh, d)
  | inr e ↦ rw e (find-replace_absent key k q pages fresh, replace-IsDistinct key q pages d)
]

pub replace-AllLive :
    (key : DoubleWritePageKey) (q : DoubleWritePage) (pages : Pages)
    → AllLive pages
    → AllLive (replace key (live q) pages)
unfolding replace
replace-AllLive key q [] h = tt
replace-AllLive key q ((k, dangling) ∷ pages) h = absurd h
replace-AllLive key q ((k, live p) ∷ pages) h = elim (Bool-cases (equal k key)) [
  | inl e ↦ rw e h
  | inr e ↦ rw e (replace-AllLive key q pages h)
]

pub length-replace :
    (key : DoubleWritePageKey) (q : Pointer) (pages : Pages)
    → length (replace key q pages) ≡ length pages
unfolding replace
length-replace key q [] = refl
length-replace key q ((k, r) ∷ pages) = elim (Bool-cases (equal k key)) [
  | inl e ↦ rw e refl
  | inr e ↦ rw e (ap suc (length-replace key q pages))
]

-- What is found of live pointers is live.
pub find-AllLive :
    (key : DoubleWritePageKey) (pages : Pages) → AllLive pages → find key pages ≡ some dangling → ⊥
unfolding find
find-AllLive key [] h f = cc f
find-AllLive key ((k, dangling) ∷ pages) h f = h
find-AllLive key ((k, live p) ∷ pages) h f = elim (Bool-cases (equal k key)) [
  | inl e ↦ let same : some (live p) ≡ some dangling = rw e at f in cc same
  | inr e ↦ find-AllLive key pages h (rw e at f)
]
