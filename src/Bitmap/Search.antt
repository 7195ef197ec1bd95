-- ===== src/Bitmap/Search.antt =====
-- `next_zero_bit` and `next_one_bit` find the first such bit from `start` on, below the size.
use dimdb.Prelude.{
  ℕ, zero, suc, ◌+◌, ◌-◌, ◌*◌, ◌/◌, ◌%◌, ◌≤◌, ◌<◌, ◌≡◌, refl, ◌∙◌, Bool, true, false, not, Option,
  none, some, arith, length, get_elem?, get_elem?_in_range, leb, Bool-cases, Option-cases, inl, inr,
}
use dimdb.Bitmap.{
  Bitmap, bytes, get, zero_in_byte, one_in_byte, scan_bytes, within, next_zero_bit, next_one_bit,
  IsValid,
}
use dimdb.Bitmap.Byte.{IsFirst, IsFirst-step, bit_of, zero_in_byte-IsFirst, one_in_byte-IsFirst}

-- Every bit of a stretch is the other way: the search goes on behind it.
IsFirst-skip :
    (bit : ℕ → Option Bool) (want : Bool) (n lo mid hi : ℕ) (r : Option ℕ)
    → lo + n ≡ mid
    → ((j : ℕ) → lo ≤ j → j < mid → bit j ≡ some (not want))
    → IsFirst bit want mid hi r
    → IsFirst bit want lo hi r
IsFirst-skip bit want zero lo mid hi r e here rest = let e' : lo ≡ mid = omega arith in rw e' rest
IsFirst-skip bit want (suc n) lo mid hi r e here rest =
    IsFirst-step bit want lo hi r (here lo (omega arith) (omega arith)) (
      IsFirst-skip bit want n (lo + 1) mid hi r (omega arith) (λ j p q. here j (omega arith) q)
        rest)

module _ (want : Bool) (in_byte : ℕ → ℕ → Option ℕ)
    (in_byte-IsFirst : (b start : ℕ)
      → start ≤ 8
      → IsFirst (bit_of b) want start 8 (in_byte b start))
    (bm : Bitmap) where
  in_byte_found :
      (b start : ℕ) {k : ℕ}
      → start ≤ 8
      → in_byte b start ≡ some k
      → IsFirst (bit_of b) want start 8 (some k)
  in_byte_found b start h e = rw e at (in_byte-IsFirst b start h)

  in_byte_missed :
      (b start : ℕ) → start ≤ 8 → in_byte b start ≡ none → IsFirst (bit_of b) want start 8 none
  in_byte_missed b start h e = rw e at (in_byte-IsFirst b start h)

  -- The bit at `j` of a byte that is known.
  get_bit :
      (iter b j : ℕ)
      → get_elem? bm.bitmap iter ≡ some b
      → iter * 8 ≤ j
      → j < iter * 8 + 8
      → get bm j ≡ bit_of b (j - iter * 8)
  unfolding get
  get_bit iter b j e p q =
      let byte : j / 8 ≡ iter = omega arith in
      let bit : j % 8 ≡ j - iter * 8 = omega arith in rw (byte, bit, e)

  scan_miss :
      (left iter start b : ℕ)
      → get_elem? bm.bitmap iter ≡ some b
      → in_byte b start ≡ none
      → scan_bytes in_byte bm.bitmap (suc left) iter start
        ≡ scan_bytes in_byte bm.bitmap left (iter + 1) 0
  unfolding scan_bytes
  scan_miss left iter start b old miss = ground arith

  scan_hit :
      (left iter start b : ℕ) {k : ℕ}
      → get_elem? bm.bitmap iter ≡ some b
      → in_byte b start ≡ some k
      → scan_bytes in_byte bm.bitmap (suc left) iter start ≡ some (some (iter * 8 + k))
  unfolding scan_bytes
  scan_hit left iter start b old hit = ground arith

  scan_bytes-IsFirst :
      (left iter start : ℕ)
      → start ≤ 8
      → iter + left ≤ length bm.bitmap
      → (r : Option ℕ) × (scan_bytes in_byte bm.bitmap left iter start ≡ some r)
        × IsFirst (get bm) want (iter * 8 + start) ((iter + left) * 8) r
  scan_bytes-IsFirst zero iter start h fits =
      (none, unfold scan_bytes in refl, λ j p q. absurd (omega arith))
  scan_bytes-IsFirst (suc left) iter start h fits =
      let (b, old) = get_elem?_in_range bm.bitmap iter (omega arith) in
      elim (Option-cases (in_byte b start)) [
        | inl miss ↦
            let (r, scans, first) =
              scan_bytes-IsFirst left (iter + 1) 0 (omega arith) (omega arith) in
            let end : (iter + suc left) * 8 ≡ (iter + 1 + left) * 8 = omega arith in
            (
              r,
              scan_miss left iter start b old miss ∙ scans,
              rw end (
                  IsFirst-skip (get bm) want (8 - start) (iter * 8 + start) ((iter + 1) * 8 + 0) _ r
                    (omega arith)
                    (λ j p q.
                      get_bit iter b j old (omega arith) (omega arith)
                      ∙ in_byte_missed b start h miss (j - iter * 8) (omega arith) (omega arith))
                    first),
            )
        | inr (k, hit) ↦
            let (lo, hi, is, below) = in_byte_found b start h hit in
            let bit : iter * 8 + k - iter * 8 ≡ k = omega arith in
            (
              some (iter * 8 + k),
              scan_hit left iter start b old hit,
              (
                omega arith,
                omega arith,
                get_bit iter b (iter * 8 + k) old (omega arith) (omega arith) ∙ rw bit is,
                λ j p q.
                    get_bit iter b j old (omega arith) (omega arith)
                    ∙ below (j - iter * 8) (omega arith) (omega arith),
              ),
            )
      ]

  within-IsFirst :
      (size lo hi : ℕ) (r : Option ℕ)
      → size ≤ hi
      → IsFirst (get bm) want lo hi r
      → IsFirst (get bm) want lo size (within size r)
  unfolding within
  within-IsFirst size lo hi none h first = λ j p q. first j p (omega arith)
  within-IsFirst size lo hi (some k) h first = elim (Bool-cases (leb size k)) [
    | inl past ↦ rw past λ j p q. first.3 j p (ground arith)
    | inr inside ↦ rw inside (first.0, ground arith, first.2, first.3)
  ]

  search-IsFirst :
      (start : ℕ)
      → IsValid bm
      → start ≤ bm.size
      → (r : Option ℕ) × (scan_bytes in_byte bm.bitmap
            (bytes bm - start / 8)
            (start / 8)
            (start % 8)
          ≡ some r)
        × IsFirst (get bm) want start bm.size (within bm.size r)
  unfolding bytes
  search-IsFirst start h below =
      let left = (bm.size + 7) / 8 - start / 8 in
      let (r, scans, first) =
        scan_bytes-IsFirst left (start / 8) (start % 8) (omega arith) (omega (arith, h.covers)) in
      let from : start / 8 * 8 + start % 8 ≡ start = omega arith in
      (
        r,
        scans,
        within-IsFirst bm.size start ((start / 8 + left) * 8) r (omega arith) (rw from at first),
      )

-- On a valid bitmap `next_zero_bit` reads nothing outside the buffer. From a start that is at most
-- the size it returns the first index from there on, below the size, whose bit is 0, and -1 if
-- all those bits are 1.
pub next_zero_bit-IsFirst :
    (bm : Bitmap) (start : ℕ)
    → IsValid bm
    → start ≤ bm.size
    → (r : Option ℕ) × (next_zero_bit bm start ≡ some r) × IsFirst (get bm) false start bm.size r
unfolding next_zero_bit
next_zero_bit-IsFirst bm start h below =
    let (r, scans, first) =
      search-IsFirst false zero_in_byte zero_in_byte-IsFirst bm start h below in
    (within bm.size r, rw scans, first)

-- On a valid bitmap `next_one_bit` reads nothing outside the buffer. From a start that is at most
-- the size it returns the first index from there on, below the size, whose bit is 1, and -1 if
-- all those bits are 0.
pub next_one_bit-IsFirst :
    (bm : Bitmap) (start : ℕ)
    → IsValid bm
    → start ≤ bm.size
    → (r : Option ℕ) × (next_one_bit bm start ≡ some r) × IsFirst (get bm) true start bm.size r
unfolding next_one_bit
next_one_bit-IsFirst bm start h below =
    let (r, scans, first) = search-IsFirst true one_in_byte one_in_byte-IsFirst bm start h below in
    (within bm.size r, rw scans, first)
