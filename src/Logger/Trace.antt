-- ===== src/Logger/Trace.antt =====
-- src/dimserver/common/log/log.cpp: `stacktrace`.
--
-- `backtrace` and `backtrace_symbols` are functions of the C library's execinfo.h, and parameters:
-- the addresses of at most so many frames, and a text for each frame, or the null pointer.
use dimdb.Prelude.{
  ℕ, zero, suc, ◌+◌, ◌/◌, ◌%◌, Bool, Option, none, some, List, [], ◌∷◌, ◌++◌, ltb, if◌then◌else◌,
}

-- The digit that `std::hex` writes.
abbrev hex_digit : ℕ → ℕ
hex_digit n = if ltb n 10 then 48 + n else 87 + n

-- The digits in front of `behind`; each round takes one, and `fuel` bounds them.
unfoldable pub hex_digits : ℕ → ℕ → List ℕ → List ℕ
hex_digits zero n behind = behind
hex_digits (suc fuel) n behind =
    let rest = hex_digits fuel (n / 16) (hex_digit (n % 16) ∷ behind) in
    if ltb n 16 then hex_digit n ∷ behind else rest

-- "0x", an address and the end of the line
unfoldable pub address_lines : List ℕ → List ℕ
address_lines [] = []
address_lines (address ∷ trace) =
    48 ∷ 120 ∷ hex_digits (suc address) address [] ++ 10 ∷ address_lines trace

unfoldable pub symbol_lines : List (List ℕ) → List ℕ
symbol_lines [] = []
symbol_lines (symbol ∷ symbols) = symbol ++ 10 ∷ symbol_lines symbols

module _ (backtrace : ℕ → List ℕ) (backtrace_symbols : List ℕ → Option (List (List ℕ))) where
  -- `symbols_support` is the macro.
  unfoldable pub stacktrace : Bool → List ℕ
  stacktrace symbols_support =
      let trace = backtrace 16 in
      elim (if symbols_support then backtrace_symbols trace else none) [
        | none ↦ address_lines trace
        | some symbols ↦ symbol_lines symbols
      ]
