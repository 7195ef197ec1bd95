-- ===== src/Logger/Shared.antt =====
-- Loggers are shared by name: `getLogger` of `LogManager`.
use dimdb.Prelude.{
  ℕ, ◌<◌, ◌≡◌, ◌≢◌, refl, sym, ◌∙◌, none, some, List, arith, Bool-cases, Option-cases, inl, inr,
}
use dimdb.Utils.{equal_bytes}
use dimdb.Utils.Append.{equal_bytes_self}
use dimdb.Logger.Names.{equal_bytes-path}
use dimdb.Logger.Manager.{LogManager, find, make_logger, get_logger}

-- Two names with one logger are one name, and loggers stand below the address of the next.
pub record IsValid (m : LogManager) : Type 0 where
  pub apart :
      (name other : List ℕ) (address : ℕ)
      → find name m.loggers ≡ some address
      → find other m.loggers ≡ some address
      → name ≡ other
  pub allotted :
      (name : List ℕ) (address : ℕ) → find name m.loggers ≡ some address → address < m.next_address

some-path : (a b : ℕ) → some a ≡ some b → a ≡ b
some-path a b e = cc e

make_logger-IsValid :
    (name : List ℕ) (m : LogManager)
    → find name m.loggers ≡ none
    → IsValid m
    → IsValid (make_logger name m).1
unfolding make_logger find
make_logger-IsValid name m missing v = record {
  apart = λ a b address f g. elim (Bool-cases (equal_bytes name a)) [
    | inl p ↦ elim (Bool-cases (equal_bytes name b)) [
      | inl q ↦ sym (equal_bytes-path name a p) ∙ equal_bytes-path name b q
      | inr q ↦
          let here : m.next_address ≡ address = some-path _ _ (rw p at f) in
          let old = v.allotted b address (rw q at g) in absurd (omega arith)
    ]
    | inr p ↦ elim (Bool-cases (equal_bytes name b)) [
      | inl q ↦
          let here : m.next_address ≡ address = some-path _ _ (rw q at g) in
          let old = v.allotted a address (rw p at f) in absurd (omega arith)
      | inr q ↦ v.apart a b address (rw p at f) (rw q at g)
    ]
  ];
  allotted = λ a address f. elim (Bool-cases (equal_bytes name a)) [
    | inl p ↦ let here : m.next_address ≡ address = some-path _ _ (rw p at f) in omega arith
    | inr p ↦ let old = v.allotted a address (rw p at f) in omega arith
  ];
}

find-make_logger :
    (name other : List ℕ) (m : LogManager)
    → name ≢ other
    → find other (make_logger name m).1.loggers ≡ find other m.loggers
unfolding find make_logger
find-make_logger name other m n = elim (Bool-cases (equal_bytes name other)) [
  | inl e ↦ absurd (n (equal_bytes-path name other e))
  | inr e ↦ rw e refl
]

-- `getLogger` gives a name its logger: it keeps different names apart, gives the same one for the
-- same name from then on and changes nothing then, and leaves the loggers of other names.
pub get_logger-IsValid :
    (name : List ℕ) (m : LogManager)
    → IsValid m
    → IsValid (get_logger name m).1
      × (get_logger name (get_logger name m).1 ≡ get_logger name m)
      × ((other : List ℕ)
          → name ≢ other
          → find other (get_logger name m).1.loggers ≡ find other m.loggers)
unfolding get_logger find make_logger
get_logger-IsValid name m v = elim (Option-cases (find name m.loggers)) [
  | inl e ↦ rw e (
    make_logger-IsValid name m e v,
    rw (equal_bytes_self name) refl,
    λ other n. find-make_logger name other m n,
  )
  | inr (address, e) ↦ rw e (v, rw e refl, λ other n. refl)
]
