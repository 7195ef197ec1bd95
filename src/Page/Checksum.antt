-- ===== src/Page/Checksum.antt =====
-- What `verify_checksum` accepts, and what it detects.
use dimdb.Prelude.{
  ℕ, zero, suc, ◌-◌, ◌^◌, ◌<◌, ◌≡◌, ◌≢◌, refl, sym, ap, ◌∙◌, Bool, true, false, some, List, [], ◌∷◌,
  get_elem?, set, ◌==◌, ==_iff, arith,
}
use dimdb.Page.{Page, crc_step, crc_loop, complement, checksum_of, calc_checksum, verify_checksum}
use dimdb.Page.Crc.{crc_step-lt, step_same_byte, step_same_register}

abbrev pub AreBytes : List ℕ → Type 0
AreBytes [] = Unit
AreBytes (b ∷ bytes) = (b < 256) × AreBytes bytes

pub crc_loop-lt : (c : ℕ) (bytes : List ℕ) → c < 2 ^ 32 → crc_loop c bytes < 2 ^ 32
unfolding crc_loop
crc_loop-lt c [] p = p
crc_loop-lt c (b ∷ bytes) p = crc_loop-lt (crc_step c b) bytes (crc_step-lt c b p)

-- Registers that the same data takes to the same result are the same.
loop_same_register :
    (c c' : ℕ) (bytes : List ℕ)
    → c < 2 ^ 32
    → c' < 2 ^ 32
    → AreBytes bytes
    → crc_loop c bytes ≡ crc_loop c' bytes
    → c ≡ c'
unfolding crc_loop
loop_same_register c c' [] p p' q e = e
loop_same_register c c' (b ∷ bytes) p p' q e = step_same_register c c' b p p' q.0 (
    loop_same_register (crc_step c b) (crc_step c' b) bytes (crc_step-lt c b p)
      (crc_step-lt c' b p') q.1 e)

-- Data that differ in one byte have different results.
loop_set :
    (c i b b' : ℕ) (bytes : List ℕ)
    → c < 2 ^ 32
    → AreBytes bytes
    → b' < 256
    → get_elem? bytes i ≡ some b
    → crc_loop c bytes ≡ crc_loop c (set bytes i b')
    → b ≡ b'
unfolding crc_loop
loop_set c i b b' [] p q q' at e = absurd (cc at)
loop_set c zero b b' (x ∷ bytes) p q q' at e =
    let x_is : x ≡ b = ground (arith, at) in
    sym x_is
    ∙ step_same_byte c x b' p q.0 q' (
        loop_same_register (crc_step c x) (crc_step c b') bytes (crc_step-lt c x p)
          (crc_step-lt c b' p) q.1 e)
loop_set c (suc i) b b' (x ∷ bytes) p q q' at e =
    loop_set (crc_step c x) i b b' bytes (crc_step-lt c x p) q.1 q' at e

-- A page whose checksum was computed verifies, and verifying leaves the page as it was.
pub verify_checksum-calc_checksum :
    (p : Page) → verify_checksum (calc_checksum p) ≡ (true, calc_checksum p)
unfolding verify_checksum
verify_checksum-calc_checksum p = ap (λ (b : Bool). (b, calc_checksum p)) ((==_iff _ _).1 refl)

-- Verifying leaves any page as it was, and accepts it exactly if the checksum in its header is that
-- of its data.
pub verify_checksum_lem :
    (p : Page) → verify_checksum p ≡ (p.header.check_sum == checksum_of p.bytes, p)
unfolding verify_checksum
verify_checksum_lem p = refl

-- A change of one byte of the data, whatever the byte and the new value, is detected: the page with
-- the old checksum no longer verifies.
pub verify_checksum-set :
    (p : Page) (i b b' : ℕ)
    → AreBytes p.bytes
    → get_elem? p.bytes i ≡ some b
    → b' < 256
    → b ≢ b'
    → (verify_checksum (record (calc_checksum p) { bytes = set p.bytes i b' })).0 ≡ false
unfolding verify_checksum
verify_checksum-set p i b b' q at q' ne =
    let below = crc_loop-lt (2 ^ 32 - 1) p.bytes (omega arith) in
    let below' = crc_loop-lt (2 ^ 32 - 1) (set p.bytes i b') (omega arith) in
    let differ = loop_set (2 ^ 32 - 1) i b b' p.bytes (omega arith) q q' at in
    let sums : checksum_of p.bytes ≢ checksum_of (set p.bytes i b') =
      λ e. ne (differ (unfold checksum_of complement in omega (arith, e, below, below'))) in
    ground (arith, sums)
