-- ===== src/Bitmap/Access.antt =====
-- `set` and `clear` change one bit: what `get` reads afterwards, and that the buffer stays valid.
use dimdb.Prelude.{
  ℕ, ◌-◌, ◌/◌, ◌%◌, ◌<◌, ◌^◌, bit_and, bit_or, ◌≡◌, refl, sym, ◌∙◌, Bool, true, false, some, arith,
  get_elem?, set, length-set, get_elem?-set_self, get_elem?-set_ne, get_elem?_in_range,
  length_of_get_elem?, ◌==◌, if◌then◌else◌, Bool-cases, inl, inr,
}
use dimdb.Bitmap.{Bitmap, bytes, test_bit, get, set_bit, clear, IsValid}
use dimdb.Bitmap.Byte.{set_byte-lt, clear_byte-lt, test_bit-set, test_bit-clear}

-- The two updates write one byte: `update` is the new value of the byte at `index / 8`.
module _ (bm : Bitmap) (index b v : ℕ) (v_byte : v < 256)
    (old : get_elem? bm.bitmap (index / 8) ≡ some b) (new_bit : Bool)
    (at : (j : ℕ) → j < 8 → test_bit v j ≡ (if index % 8 == j then new_bit else test_bit b j)) where
  abbrev written : Bitmap
  written = record bm { bitmap = set bm.bitmap (index / 8) v }

  get-written : (j : ℕ) → get written j ≡ (if index == j then some new_bit else get bm j)
  unfolding get
  get-written j = elim (Bool-cases (index / 8 == j / 8)) [
    | inl e ↦
        let same_byte : j / 8 ≡ index / 8 = ground arith in
        rw
          (
            same_byte,
            old,
            get_elem?-set_self bm.bitmap (index / 8) v
                (length_of_get_elem? bm.bitmap (index / 8) old),
          )
          (ground (arith, at (j % 8)))
    | inr ne ↦ rw (get_elem?-set_ne bm.bitmap (index / 8) (j / 8) v (ground arith)) (ground arith)
  ]

  written-IsValid : IsValid bm → IsValid written
  unfolding bytes
  written-IsValid h = record {
    covers = rw length-set h.covers;
    all_bytes = λ i c e. elim (Bool-cases (index / 8 == i)) [
      | inl same ↦
          let i' : i ≡ index / 8 = ground arith in
          ground (
            arith,
            get_elem?-set_self bm.bitmap (index / 8) v
                (length_of_get_elem? bm.bitmap (index / 8) old),
          )
      | inr ne ↦
          h.all_bytes i c (sym (get_elem?-set_ne bm.bitmap (index / 8) i v (ground arith)) ∙ e)
    ];
  }

module _ (bm : Bitmap) (index : ℕ) (h : IsValid bm) (in_range : index < bm.size) where
  byte_of : (b : ℕ) × (get_elem? bm.bitmap (index / 8) ≡ some b)
  unfolding bytes
  byte_of = get_elem?_in_range bm.bitmap (index / 8) (omega (arith, h.covers))

-- `set` of an index below the size stays in the buffer, keeps the size and the validity, and makes
-- that bit 1; `get` of any other index reads what it read before.
pub get-set_bit :
    (bm : Bitmap) (index : ℕ)
    → IsValid bm
    → index < bm.size
    → (bm' : Bitmap) × (set_bit bm index ≡ some bm')
      × IsValid bm'
      × (bm'.size ≡ bm.size)
      × ((j : ℕ) → get bm' j ≡ (if index == j then some true else get bm j))
unfolding set_bit
get-set_bit bm index h in_range =
    let (b, old) = byte_of bm index h in_range in
    let v = bit_or b (2 ^ (index % 8)) in
    let b_byte = h.all_bytes (index / 8) b old in
    let v_byte = set_byte-lt b (index % 8) b_byte (omega arith) in
    let at : (j : ℕ) → j < 8 → test_bit v j ≡ (if index % 8 == j then true else test_bit b j) =
      λ j j_bit. ground (arith, test_bit-set b (index % 8) b_byte (omega arith) j j_bit) in
    (
      record bm { bitmap = set bm.bitmap (index / 8) v },
      rw old,
      written-IsValid bm index b v v_byte old true at h,
      refl,
      get-written bm index b v v_byte old true at,
    )

-- `clear` of an index below the size stays in the buffer, keeps the size and the validity, and
-- makes that bit 0; `get` of any other index reads what it read before.
pub get-clear :
    (bm : Bitmap) (index : ℕ)
    → IsValid bm
    → index < bm.size
    → (bm' : Bitmap) × (clear bm index ≡ some bm')
      × IsValid bm'
      × (bm'.size ≡ bm.size)
      × ((j : ℕ) → get bm' j ≡ (if index == j then some false else get bm j))
unfolding clear
get-clear bm index h in_range =
    let (b, old) = byte_of bm index h in_range in
    let v = bit_and b (255 - 2 ^ (index % 8)) in
    let b_byte = h.all_bytes (index / 8) b old in
    let v_byte = clear_byte-lt b (index % 8) b_byte (omega arith) in
    let at : (j : ℕ) → j < 8 → test_bit v j ≡ (if index % 8 == j then false else test_bit b j) =
      λ j j_bit. ground (arith, test_bit-clear b (index % 8) b_byte (omega arith) j j_bit) in
    (
      record bm { bitmap = set bm.bitmap (index / 8) v },
      rw old,
      written-IsValid bm index b v v_byte old false at h,
      refl,
      get-written bm index b v v_byte old false at,
    )
