-- ===== src/LogFile/Manager/Below.antt =====
-- A log file with a larger first LSN than all others of the manager's map.
use dimdb.Prelude.{
  Bool, ℕ, ◌≡◌, ◌≢◌, refl, sym, ap, ◌∙◌, true, false, none, some, List, [], ◌∷◌, ◌++◌, arith,
  Bool-cases, Option-cases, inl, inr,
}
use dimdb.Prelude.Int.{ℤ-discrete, ℤ, pos, negsuc, ltb_ℤ}
use dimdb.LogFile.Manager.{LogFileManager, insert_file, last_of, next_lsn_of}
use dimdb.Frame.{eq_ℤ}
use dimdb.Frame.Id.{ltb_ℤ-trans, eq_ℤ-refl, eq_ℤ-ne}
use dimdb.LogFile.Manager.Sorted.{IsUnder, IsSorted}

pub last_of-append :
    (files : List (ℤ × List ℕ)) (f : ℤ × List ℕ) → last_of (files ++ f ∷ []) ≡ some f
unfolding last_of
last_of-append [] f = refl
last_of-append (g ∷ []) f = refl
last_of-append (g ∷ h ∷ files) f = last_of-append (h ∷ files) f

last_of-cons : (f : ℤ × List ℕ) (files : List (ℤ × List ℕ)) → last_of (f ∷ files) ≢ none
unfolding last_of
last_of-cons f [] e = absurd (cc e)
last_of-cons f (g ∷ files) e = last_of-cons g files e

IsUnder-last :
    (a l : ℤ) (p : List ℕ) (files : List (ℤ × List ℕ))
    → IsUnder a files
    → last_of files ≡ some (l, p)
    → ltb_ℤ a l ≡ true
unfolding last_of
IsUnder-last a l p [] u e = absurd (cc e)
IsUnder-last a l p ((k, q) ∷ []) u e =
    let same : k ≡ l = ground (arith, e) in ap (ltb_ℤ a) (sym same) ∙ u.0
IsUnder-last a l p (f ∷ g ∷ files) u e = IsUnder-last a l p (g ∷ files) u.1 e

above : (a b : ℤ) → ltb_ℤ a b ≡ true → (eq_ℤ b a ≡ false) × (ltb_ℤ b a ≡ false)
above (pos a) (pos b) h = ground (arith, h)
above (pos a) (negsuc b) h = ground (arith, h)
above (negsuc a) (pos b) h = ground (arith, h)
above (negsuc a) (negsuc b) h = ground (arith, h)

below : (a b : ℤ) → ltb_ℤ a b ≡ true → eq_ℤ a b ≡ false
below (pos a) (pos b) h = ground (arith, h)
below (pos a) (negsuc b) h = ground (arith, h)
below (negsuc a) (pos b) h = ground (arith, h)
below (negsuc a) (negsuc b) h = ground (arith, h)

-- Every file's first LSN is below `n`.
abbrev pub IsBelow : ℤ → List (ℤ × List ℕ) → Type 0
IsBelow n [] = Unit
IsBelow n ((l, p) ∷ files) = (ltb_ℤ l n ≡ true) × IsBelow n files

last_of-IsBelow :
    (n l : ℤ) (p : List ℕ) (files : List (ℤ × List ℕ))
    → IsSorted files
    → last_of files ≡ some (l, p)
    → ltb_ℤ l n ≡ true
    → IsBelow n files
unfolding last_of
last_of-IsBelow n l p [] s e h = tt
last_of-IsBelow n l p ((k, q) ∷ []) s e h =
    let same : k ≡ l = ground (arith, e) in (ap (λ (z : ℤ). ltb_ℤ z n) same ∙ h, tt)
last_of-IsBelow n l p ((k, q) ∷ g ∷ files) s e h = (
  ltb_ℤ-trans k l n (IsUnder-last k l p (g ∷ files) s.0 e) h,
  last_of-IsBelow n l p (g ∷ files) s.1 e h,
)

-- A file with a larger first LSN than all others is put behind them.
pub insert_file-IsBelow :
    (n : ℤ) (path : List ℕ) (files : List (ℤ × List ℕ))
    → IsBelow n files
    → insert_file n path files ≡ files ++ (n, path) ∷ []
unfolding insert_file
insert_file-IsBelow n path [] b = refl
insert_file-IsBelow n path ((k, q) ∷ files) b =
    let (other, more) = above k n b.0 in
    rw (other, more) (ap (◌∷◌ (k, q)) (insert_file-IsBelow n path files b.1))

-- It stays behind a file that is inserted.
pub insert_file-append :
    (n l : ℤ) (path p : List ℕ) (files : List (ℤ × List ℕ))
    → ltb_ℤ l n ≡ true
    → insert_file l p (files ++ (n, path) ∷ []) ≡ insert_file l p files ++ (n, path) ∷ []
unfolding insert_file
insert_file-append n l path p [] h = rw (below l n h, h) refl
insert_file-append n l path p ((k, q) ∷ files) h = elim (Bool-cases (eq_ℤ l k)) [
  | inl same ↦ rw same refl
  | inr other ↦ elim (Bool-cases (ltb_ℤ l k)) [
    | inl b ↦ rw (other, b) refl
    | inr b ↦ rw (other, b) (ap (◌∷◌ (k, q)) (insert_file-append n l path p files h))
  ]
]

pub IsBelow-insert_file :
    (n l : ℤ) (p : List ℕ) (files : List (ℤ × List ℕ))
    → IsBelow n (insert_file l p files)
    → (ltb_ℤ l n ≡ true) × IsBelow n files
unfolding insert_file
IsBelow-insert_file n l p [] = λ b. b
IsBelow-insert_file n l p ((k, q) ∷ files) = elim (ℤ-discrete l k) [
  | yes same ↦
      rw (eq_ℤ-refl l k same) (λ (b : IsBelow n ((l, p) ∷ files)).
        (b.0, (ap (λ (z : ℤ). ltb_ℤ z n) (sym same) ∙ b.0, b.1)))
  | no other ↦ elim (Bool-cases (ltb_ℤ l k)) [
    | inl less ↦ rw (eq_ℤ-ne l k other, less) (λ (b : IsBelow n ((l, p) ∷ (k, q) ∷ files)). b)
    | inr more ↦
        rw (eq_ℤ-ne l k other, more)
          (λ (b : IsBelow n ((k, q) ∷ insert_file l p files)).
            let later = IsBelow-insert_file n l p files b.1 in (later.0, (b.0, later.1)))
  ]
]

none-IsBelow : (n : ℤ) (files : List (ℤ × List ℕ)) → last_of files ≡ none → IsBelow n files
none-IsBelow n [] e = tt
none-IsBelow n (f ∷ files) e = absurd (last_of-cons f files e)

-- The next LSN is above the last file's first: the number of entries is positive, and the sum does not
-- wrap around.
abbrev pub advances : LogFileManager → Bool
advances m = elim (last_of m.log_files) [
  | none ↦ true
  | some (lsn, path) ↦ ltb_ℤ lsn (next_lsn_of m)
]

pub next_lsn_of-IsBelow :
    (m : LogFileManager)
    → IsSorted m.log_files
    → advances m ≡ true
    → IsBelow (next_lsn_of m) m.log_files
next_lsn_of-IsBelow m s larger = elim (Option-cases (last_of m.log_files)) [
  | inl e ↦ none-IsBelow (next_lsn_of m) m.log_files e
  | inr ((l, p), last) ↦
      let above_last : ltb_ℤ l (next_lsn_of m) ≡ true = rw (last, advances) at larger in
      last_of-IsBelow (next_lsn_of m) l p m.log_files s last above_last
]
