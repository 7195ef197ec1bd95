-- ===== src/Frame/Flags.antt =====
-- The dirty flag.
use dimdb.Prelude.{
  ℕ, ◌<◌, ◌≡◌, Bool, true, false, not, bit_and, bit_or, refl, ◌&&◌, ◌==◌, arith, ◌/◌,
}
use dimdb.Bits.{every, every-at}
use dimdb.Frame.{Frame, is_dirty, mark_dirty, clear_dirty}

-- The seven other flags.
pub others : ℕ → ℕ
others flags = flags / 2

marked : ℕ → Bool
unfolding others
marked flags = not (bit_and (bit_or flags 1) 1 == 0) && (others (bit_or flags 1) == others flags)

cleared : ℕ → Bool
unfolding others
cleared flags =
    (bit_and (bit_and flags 0xFE) 1 == 0) && (others (bit_and flags 0xFE) == others flags)

marked-all : every 256 marked ≡ true
unfolding every marked others
marked-all = refl

cleared-all : every 256 cleared ≡ true
unfolding every cleared others
cleared-all = refl

-- `mark_dirty` makes a frame dirty, `clear_dirty` makes it clean, and neither changes another flag.
pub is_dirty-mark_dirty :
    (f : Frame)
    → f.page.header.flags < 256
    → (is_dirty (mark_dirty f) ≡ true)
      × (is_dirty (clear_dirty f) ≡ false)
      × (others (mark_dirty f).page.header.flags ≡ others f.page.header.flags)
      × (others (clear_dirty f).page.header.flags ≡ others f.page.header.flags)
unfolding is_dirty mark_dirty clear_dirty
is_dirty-mark_dirty f h =
    let m = every-at 256 marked f.page.header.flags h marked-all in
    let c = every-at 256 cleared f.page.header.flags h cleared-all in
    unfold marked cleared in
    (ground (arith, m), ground (arith, c), ground (arith, m), ground (arith, c))
