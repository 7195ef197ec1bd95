-- ===== src/Frame/Id.antt =====
-- Frame ids as keys: their equality, their order and their hash.
use dimdb.Prelude.{
  ℕ, ◌+◌, ◌*◌, ◌%◌, ◌^◌, ◌<◌, ◌≡◌, ◌≢◌, refl, sym, ap, ◌∙◌, Bool, true, false, not, ◌&&◌, arith,
}
use dimdb.Prelude.Int.{ℤ, pos, negsuc, ltb_ℤ, ℤ-discrete}
use dimdb.Bits.Fields.{bit_or_parts}
use dimdb.Frame.{FrameId, eq_ℤ, equal, less, to_size, hash}

unfoldable pub frame_id_discrete : Discrete FrameId
frame_id_discrete = hlevel ℤ-discrete

-- Exactly one of three tests holds.
abbrev pub one_of : Bool → Bool → Bool → Bool
one_of true b c = not b && not c
one_of false true c = not c
one_of false false c = c

pub ltb_ℤ-cases : (a b : ℤ) → a ≢ b → ltb_ℤ b a ≡ not (ltb_ℤ a b)
ltb_ℤ-cases (pos a) (pos b) n = ground arith
ltb_ℤ-cases (pos a) (negsuc b) n = refl
ltb_ℤ-cases (negsuc a) (pos b) n = refl
ltb_ℤ-cases (negsuc a) (negsuc b) n = ground arith

ltb_ℤ-self : (a : ℤ) → ltb_ℤ a a ≡ false
ltb_ℤ-self (pos a) = ground arith
ltb_ℤ-self (negsuc a) = ground arith

pub ltb_ℤ-trans : (a b c : ℤ) → ltb_ℤ a b ≡ true → ltb_ℤ b c ≡ true → ltb_ℤ a c ≡ true
ltb_ℤ-trans (pos a) (pos b) (pos c) p q = ground arith
ltb_ℤ-trans (pos a) (pos b) (negsuc c) p q = absurd (ground arith)
ltb_ℤ-trans (pos a) (negsuc b) c p q = absurd (ground arith)
ltb_ℤ-trans (negsuc a) (pos b) (pos c) p q = refl
ltb_ℤ-trans (negsuc a) (pos b) (negsuc c) p q = absurd (ground arith)
ltb_ℤ-trans (negsuc a) (negsuc b) (pos c) p q = refl
ltb_ℤ-trans (negsuc a) (negsuc b) (negsuc c) p q = ground arith

eq_ℤ-self : (a : ℤ) → eq_ℤ a a ≡ true
eq_ℤ-self (pos a) = ground arith
eq_ℤ-self (negsuc a) = ground arith

pub eq_ℤ-refl : (a b : ℤ) → a ≡ b → eq_ℤ a b ≡ true
eq_ℤ-refl a b p = rw p (eq_ℤ-self b)

pub eq_ℤ-ne : (a b : ℤ) → a ≢ b → eq_ℤ a b ≡ false
eq_ℤ-ne (pos a) (pos b) n = ground arith
eq_ℤ-ne (pos a) (negsuc b) n = refl
eq_ℤ-ne (negsuc a) (pos b) n = refl
eq_ℤ-ne (negsuc a) (negsuc b) n = ground arith

pub ltb_ℤ-eq_ℤ : (a b : ℤ) → one_of (ltb_ℤ a b) (eq_ℤ a b) (ltb_ℤ b a) ≡ true
ltb_ℤ-eq_ℤ (pos a) (pos b) = ground arith
ltb_ℤ-eq_ℤ (pos a) (negsuc b) = refl
ltb_ℤ-eq_ℤ (negsuc a) (pos b) = refl
ltb_ℤ-eq_ℤ (negsuc a) (negsuc b) = ground arith

-- Of two frame ids exactly one is less than the other, or they are equal.
pub less-equal : (a b : FrameId) → one_of (less a b) (equal a b) (less b a) ≡ true
unfolding less equal
less-equal a b = elim (ℤ-discrete a.buffer_pool_id b.buffer_pool_id) [
  | yes p ↦ elim (ℤ-discrete a.page_num b.page_num) [
    | yes q ↦
        rw (eq_ℤ-refl _ _ p, eq_ℤ-refl _ _ (sym p), eq_ℤ-refl _ _ q, q, ltb_ℤ-self b.page_num) refl
    | no q ↦
        rw
          (
            eq_ℤ-refl _ _ p,
            eq_ℤ-refl _ _ (sym p),
            eq_ℤ-ne _ _ q,
            ltb_ℤ-cases a.page_num b.page_num q,
          )
          (ground arith)
  ]
  | no p ↦ rw (eq_ℤ-ne _ _ p, eq_ℤ-ne _ _ (λ e. p (sym e)), ltb_ℤ-cases _ _ p) (ground arith)
]

less-page :
    (a b : FrameId) → a.buffer_pool_id ≡ b.buffer_pool_id → less a b ≡ ltb_ℤ a.page_num b.page_num
unfolding less
less-page a b e = rw (eq_ℤ-refl _ _ e) refl

less-pool :
    (a b : FrameId)
    → a.buffer_pool_id ≢ b.buffer_pool_id
    → less a b ≡ ltb_ℤ a.buffer_pool_id b.buffer_pool_id
unfolding less
less-pool a b n = rw (eq_ℤ-ne _ _ n) refl

less-ltb_ℤ : (a b : FrameId) → ltb_ℤ a.buffer_pool_id b.buffer_pool_id ≡ true → less a b ≡ true
less-ltb_ℤ a b h =
    less-pool a b (λ e.
      ground (arith, h, ltb_ℤ-self b.buffer_pool_id, ap (λ (x : ℤ). ltb_ℤ x b.buffer_pool_id) e))
    ∙ h

-- `less` is transitive.
pub less_trans : (a b c : FrameId) → less a b ≡ true → less b c ≡ true → less a c ≡ true
less_trans a b c p q = elim (ℤ-discrete a.buffer_pool_id b.buffer_pool_id) [
  | yes e ↦ elim (ℤ-discrete b.buffer_pool_id c.buffer_pool_id) [
    | yes e' ↦
        less-page a c (e ∙ e')
        ∙ ltb_ℤ-trans a.page_num b.page_num c.page_num (sym (less-page a b e) ∙ p)
            (sym (less-page b c e') ∙ q)
    | no n' ↦ less-ltb_ℤ a c (rw e (sym (less-pool b c n') ∙ q))
  ]
  | no n ↦ elim (ℤ-discrete b.buffer_pool_id c.buffer_pool_id) [
    | yes e' ↦ less-ltb_ℤ a c (rw (← e') (sym (less-pool a b n) ∙ p))
    | no n' ↦ less-ltb_ℤ a c (
        ltb_ℤ-trans a.buffer_pool_id b.buffer_pool_id c.buffer_pool_id (sym (less-pool a b n) ∙ p)
          (sym (less-pool b c n') ∙ q))
  ]
]

hash-parts :
    (p q : ℕ)
    → p < 2 ^ 31
    → q < 2 ^ 31
    → hash (record { buffer_pool_id = pos p; page_num = pos q }) ≡ p * 2 ^ 32 + q
unfolding hash to_size
hash-parts p q h h' =
    let e : p % 2 ^ 64 * 2 ^ 32 % 2 ^ 64 ≡ p * 2 ^ 32 = omega arith in
    let e' : q % 2 ^ 64 ≡ q = omega arith in rw (e, e') (bit_or_parts 32 p q (omega arith))

-- Frame ids whose pool id and page number are not negative collide in `hash` only if they are equal.
pub hash-equal :
    (p q p' q' : ℕ)
    → p < 2 ^ 31
    → q < 2 ^ 31
    → p' < 2 ^ 31
    → q' < 2 ^ 31
    → hash (record { buffer_pool_id = pos p; page_num = pos q })
      ≡ hash (record { buffer_pool_id = pos p'; page_num = pos q' })
    → equal
        (record { buffer_pool_id = pos p; page_num = pos q })
        (record { buffer_pool_id = pos p'; page_num = pos q' })
      ≡ true
unfolding equal
hash-equal p q p' q' h1 h2 h3 h4 h =
    let sums : p * 2 ^ 32 + q ≡ p' * 2 ^ 32 + q' =
      sym (hash-parts p q h1 h2) ∙ h ∙ hash-parts p' q' h3 h4 in
    let e : p ≡ p' = omega arith in
    let e' : q ≡ q' = omega arith in rw (eq_ℤ-refl _ _ (ap pos e), eq_ℤ-refl _ _ (ap pos e')) refl
