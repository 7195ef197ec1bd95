-- ===== src/Frame/Pins.antt =====
-- The pin count.
use dimdb.Prelude.{ℕ, zero, suc, refl, ◌∙◌, ◌+◌, ◌^◌, ◌%◌, ◌<◌, ◌≡◌, ap, arith, ◌==◌}
use dimdb.Frame.{buffer_pool_id, Frame, pin, unpin, can_purge}

unfoldable pub pins : ℕ → Frame → Frame
unfolding pin
pins zero f = f
pins (suc n) f = pin (pins n f)

pub unpins : ℕ → Frame → Frame
unfolding unpin
unpins zero f = f
unpins (suc n) f = unpins n (unpin f)

pin_count-pins :
    (n : ℕ) (f : Frame)
    → f.pin_count + n < 2 ^ 31
    → pins n f ≡ record f { pin_count = f.pin_count + n }
unfolding pin pins
pin_count-pins zero f h = ap (λ c. record f { pin_count = c }) (omega arith)
pin_count-pins (suc n) f h =
    rw (pin_count-pins n f (omega arith)) (ap (λ c. record f { pin_count = c }) (omega arith))

unpin-pin : (f : Frame) → f.pin_count + 1 < 2 ^ 31 → unpin (pin f) ≡ f
unfolding unpin pin
unpin-pin f h =
    let e : (f.pin_count + 1) % 2 ^ 32 ≡ f.pin_count + 1 = omega arith in rw e (ground arith)

-- Each `unpin` takes back a `pin`: after as many of the one as of the other, the frame is the same, while the count stays in the positive range of an `int`.
pub unpins-pins : (n : ℕ) (f : Frame) → f.pin_count + n < 2 ^ 31 → unpins n (pins n f) ≡ f
unfolding unpins pins
unpins-pins zero f h = refl
unpins-pins (suc n) f h =
    let count : (pins n f).pin_count ≡ f.pin_count + n =
      ap (λ (x : Frame). x.pin_count) (pin_count-pins n f (omega arith)) in
    ap (unpins n) (unpin-pin (pins n f) (omega (arith, count))) ∙ unpins-pins n f (omega arith)

-- A frame is pinned by any number of pins below 2 ^ 31, so that it cannot be purged; an unpinned one can.
pub can_purge-pins :
    (n : ℕ) (f : Frame) → f.pin_count ≡ 0 → n < 2 ^ 31 → can_purge (pins n f) ≡ (n == 0)
unfolding can_purge
can_purge-pins n f h below = rw (pin_count-pins n f (omega arith)) (ground (arith, h))

pub buffer_pool_id-pins : (n : ℕ) (f : Frame) → buffer_pool_id (pins n f) ≡ buffer_pool_id f
unfolding buffer_pool_id pin pins
buffer_pool_id-pins zero f = refl
buffer_pool_id-pins (suc n) f = buffer_pool_id-pins n f
