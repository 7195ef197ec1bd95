-- ===== src/Logger/Rotate.antt =====
-- The name of the next log file when files are rotated by size.
use dimdb.Prelude.{
  ℕ, zero, suc, ◌+◌, ◌<◌, ◌≤◌, ◌≡◌, refl, sym, ap, ◌∙◌, true, false, List, [], ◌∷◌, length,
  Bool-cases, inl, inr, arith,
}
use native.Mathlib.Decide.{ℕ_discrete}
use dimdb.Prelude.Int.{ℤ}
use dimdb.Logger.{
  Files, Platform, FileLogAppender, exists, indexed, free_index, new_name, rotate_size,
}
use dimdb.Logger.Names.{indexed-ne, without, length-without, exists-without}

module _ (name : List ℕ) where
  -- The index is free and those before it, from `first` on, are not.
  abbrev pub IsFirstFree : ℕ → ℕ → Files → Type 0
  IsFirstFree first index files =
      (exists (indexed name index) files ≡ false)
      × ((j : ℕ) → first ≤ j → j < index → exists (indexed name j) files ≡ true)

  -- `left` are the files whose names can still be met from the index `first` on.
  free_index-IsFirstFree :
      (fuel first : ℕ) (left files : Files)
      → length left ≤ fuel
      → ((j : ℕ) → first ≤ j → exists (indexed name j) left ≡ exists (indexed name j) files)
      → IsFirstFree first (free_index fuel first name files) files
  unfolding free_index exists
  free_index-IsFirstFree zero first [] files h same =
      (sym (same first (omega arith)), λ j l r. absurd (omega arith))
  free_index-IsFirstFree zero first (entry ∷ left) files h same = absurd (omega arith)
  free_index-IsFirstFree (suc fuel) first left files h same =
      elim (Bool-cases (exists (indexed name first) files)) [
        | inr e ↦ rw e (e, λ j l r. absurd (omega arith))
        | inl e ↦
            let there : exists (indexed name first) left ≡ true = same first (omega arith) ∙ e in
            let (free, taken) =
              free_index-IsFirstFree fuel (first + 1) (without (indexed name first) left) files
                (omega (arith, length-without (indexed name first) left there))
                (λ j l.
                  exists-without (indexed name first) (indexed name j) left
                    (indexed-ne name first j (omega arith))
                  ∙ same j (omega arith)) in
            rw e (
              free,
              λ j l r. elim (ℕ_discrete first j) [
                | yes p ↦ ap (λ k. exists (indexed name k) files) (sym p) ∙ e
                | no n ↦ taken j (omega arith) r
              ],
            )
      ]

-- A file rotated by size gets the name with the first index that no file has: the loop of
-- `createNewFile` ends within as many rounds as there are files, and one.
pub new_name-IsFirstFree :
    (platform : Platform) (a : FileLogAppender) (time : ℤ) (files : Files)
    → (index : ℕ) × (new_name platform rotate_size a time files ≡ indexed a.filename index)
      × IsFirstFree a.filename 0 index files
unfolding new_name
new_name-IsFirstFree texts a time files = (
  free_index (length files) 0 a.filename files,
  refl,
  free_index-IsFirstFree a.filename (length files) 0 files files (omega arith) (λ j l. refl),
)
