-- ===== src/LogFile/Manager/Sorted.antt =====
-- The manager's map of log files stays in the order of its first LSNs.
use mathlib.Core.Path.{subst}
use dimdb.Prelude.{
  ℕ, ◌≡◌, sym, ◌∙◌, ap, Bool, true, not, ◌||◌, Option, List, [], ◌∷◌, Bool-cases, Option-cases, inl,
  inr,
}
use dimdb.Prelude.Int.{ℤ, ltb_ℤ, ℤ-discrete}
use dimdb.Frame.{eq_ℤ}
use dimdb.Frame.Id.{ltb_ℤ-cases, ltb_ℤ-trans, eq_ℤ-ne, eq_ℤ-refl}
use dimdb.Utils.{starts_with, ends_with}
use dimdb.LogFile.Manager.{
  join, clog_file_prefix, clog_file_suffix, insert_file, get_lsn_from_filename, scan,
}

-- The LSN is below the first LSN of each file.
abbrev pub IsUnder : ℤ → List (ℤ × List ℕ) → Type 0
IsUnder lsn [] = Unit
IsUnder lsn ((l, p) ∷ files) = (ltb_ℤ lsn l ≡ true) × IsUnder lsn files

abbrev pub IsSorted : List (ℤ × List ℕ) → Type 0
IsSorted [] = Unit
IsSorted ((l, p) ∷ files) = IsUnder l files × IsSorted files

pub IsUnder-trans :
    (a b : ℤ) (files : List (ℤ × List ℕ)) → ltb_ℤ a b ≡ true → IsUnder b files → IsUnder a files
IsUnder-trans a b [] h u = tt
IsUnder-trans a b ((l, p) ∷ files) h u = (ltb_ℤ-trans a b l h u.0, IsUnder-trans a b files h u.1)

-- Files under which `a` is, and a file with a larger LSN.
insert_file-IsUnder :
    (a lsn : ℤ) (path : List ℕ) (files : List (ℤ × List ℕ))
    → ltb_ℤ a lsn ≡ true
    → IsUnder a files
    → IsUnder a (insert_file lsn path files)
unfolding insert_file
insert_file-IsUnder a lsn path [] h u = (h, tt)
insert_file-IsUnder a lsn path ((l, p) ∷ files) h u = elim (Bool-cases (eq_ℤ lsn l)) [
  | inl e ↦ rw e (h, u.1)
  | inr e ↦ elim (Bool-cases (ltb_ℤ lsn l)) [
    | inl b ↦ rw (e, b) (h, u)
    | inr b ↦ rw (e, b) (u.0, insert_file-IsUnder a lsn path files h u.1)
  ]
]

insert_file-IsSorted :
    (lsn : ℤ) (path : List ℕ) (files : List (ℤ × List ℕ))
    → IsSorted files
    → IsSorted (insert_file lsn path files)
unfolding insert_file
insert_file-IsSorted lsn path [] s = (tt, tt)
insert_file-IsSorted lsn path ((l, p) ∷ files) s = elim (ℤ-discrete lsn l) [
  | yes same ↦ rw (eq_ℤ-refl lsn l same) (subst (λ (z : ℤ). IsUnder z files) (sym same) s.0, s.1)
  | no other ↦ elim (Bool-cases (ltb_ℤ lsn l)) [
    | inl b ↦ rw (eq_ℤ-ne lsn l other, b) ((b, IsUnder-trans lsn l files b s.0), s)
    | inr b ↦
        let above : ltb_ℤ l lsn ≡ true = ltb_ℤ-cases lsn l other ∙ ap not b in
        rw (eq_ℤ-ne lsn l other, b)
          (insert_file-IsUnder l lsn path files above s.0, insert_file-IsSorted lsn path files s.1)
  ]
]

pub scan-IsSorted :
    (stol : List ℕ → Option ℤ) (dir : List ℕ) (entries : List (Bool × List ℕ))
    (files : List (ℤ × List ℕ))
    → IsSorted files
    → IsSorted (scan stol dir entries files)
unfolding scan
scan-IsSorted stol dir [] files s = s
scan-IsSorted stol dir ((is_regular_file, filename) ∷ entries) files s =
    elim (Bool-cases is_regular_file) [
      | inr r ↦ rw r (scan-IsSorted stol dir entries files s)
      | inl r ↦
          elim (Bool-cases (
            not (starts_with filename clog_file_prefix)
            || not (ends_with filename clog_file_suffix))) [
              | inl n ↦ rw (r, n) (scan-IsSorted stol dir entries files s)
              | inr n ↦ elim (Option-cases (get_lsn_from_filename stol filename)) [
                | inl o ↦ rw (r, n, o) (scan-IsSorted stol dir entries files s)
                | inr (lsn, o) ↦
                    rw (r, n, o)
                      (scan-IsSorted stol dir entries _
                        (insert_file-IsSorted lsn (join dir filename) files s))
              ]
            ]
    ]
