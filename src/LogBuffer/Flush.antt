-- ===== src/LogBuffer/Flush.antt =====
-- Flushing writes the entries in order, each once, and drops what is written.
use mathlib.Core.Path.{subst}
use dimdb.Prelude.{
  ℕ, zero, suc, ◌≡◌, refl, sym, ◌∙◌, ap, Bool, false, List, [], ◌∷◌, length, ◌==◌, min,
  if◌then◌else◌, arith, Bool-cases, List-cases, inl, inr,
}
use dimdb.Rc.{Rc, success, is_fail}
use dimdb.LogEntry.{LogEntry, total_size}
use dimdb.LogBuffer.{
  LogBuffer, write_batch, finish, sub_bytes, bytes_of, IsContiguous, flush_batch, flush, IsValid,
}
use dimdb.LogBuffer.Order.{sub_bytes-bytes_of}

module _ {W : Type 0} (write : LogEntry → W → W × Rc) where
  -- Writing a list of entries up to the first failure, with the entries that are not written.
  unfoldable pub write_all : List LogEntry → W → W × List LogEntry × Rc
  write_all [] w = (w, [], success)
  write_all (entry ∷ entries) w =
      let (w', rc) = write entry w in
      let rest = write_all entries w' in if is_fail rc then (w', entry ∷ entries, rc) else rest

  write_batch-IsValid :
      (rounds : ℕ) (w : W) (b : LogBuffer) → IsValid b → IsValid (write_batch write rounds w b).1
  unfolding write_batch
  write_batch-IsValid zero w b h = h
  write_batch-IsValid (suc rounds) w b h =
      let order : (es : List LogEntry)
          → b.entries ≡ es
          → IsContiguous b.flushed_lsn es b.current_lsn =
        λ es q.
          subst (λ (l : List LogEntry). IsContiguous b.flushed_lsn l b.current_lsn) q
            h.contiguous in
      elim (List-cases b.entries) [
        | inl q ↦ rw q (record { counted = h.counted ∙ ap bytes_of q; contiguous = order [] q })
        | inr (e, es, q) ↦ elim (Bool-cases (is_fail (write e w).1)) [
          | inl f ↦
              rw (q, f)
                (record { counted = h.counted ∙ ap bytes_of q; contiguous = order (e ∷ es) q })
          | inr f ↦
              rw (q, f)
                (write_batch-IsValid rounds (write e w).0 _ (record {
                  counted =
                      ap (λ n. sub_bytes n (total_size e)) (h.counted ∙ ap bytes_of q)
                      ∙ sub_bytes-bytes_of e es;
                  contiguous = (order (e ∷ es) q).1;
                }))
        ]
      ]

  -- What is no failure is SUCCESS.
  write_all-success :
      (entries : List LogEntry) (w : W)
      → is_fail (write_all entries w).2 ≡ false
      → (write_all entries w).2 ≡ success
  unfolding write_all
  write_all-success [] w h = refl
  write_all-success (e ∷ entries) w h = elim (Bool-cases (is_fail (write e w).1)) [
    | inl f ↦ absurd (ground (arith, h, f))
    | inr f ↦ rw f (write_all-success entries (write e w).0 (ground (arith, h, f)))
  ]

  write_batch-write_all :
      (rounds : ℕ) (w : W) (b : LogBuffer)
      → length b.entries ≡ rounds
      → ((write_batch write rounds w b).0 ≡ (write_all b.entries w).0)
        × ((write_batch write rounds w b).1.entries ≡ (write_all b.entries w).1)
        × ((write_batch write rounds w b).2 ≡ (write_all b.entries w).2)
  unfolding write_batch write_all
  write_batch-write_all zero w b e = elim (List-cases b.entries) [
    | inl q ↦ rw q (refl, refl, refl)
    | inr (f, es, q) ↦ absurd (ground (arith, ap (λ (l : List LogEntry). length l) q))
  ]
  write_batch-write_all (suc rounds) w b e = elim (List-cases b.entries) [
    | inl q ↦ absurd (ground (arith, ap (λ (l : List LogEntry). length l) q))
    | inr (f, es, q) ↦ elim (Bool-cases (is_fail (write f w).1)) [
      | inl failed ↦ rw (q, failed) (refl, refl, refl)
      | inr fine ↦
          rw (q, fine)
            (write_batch-write_all rounds (write f w).0 _
              (omega (arith, e, ap (λ (l : List LogEntry). length l) q)))
    ]
  ]

  -- A batch of any size, whether its writes succeed or fail, keeps the buffer valid: the bytes are counted and the LSNs that remain follow on the last one
  -- that was written.
  pub flush_batch-IsValid :
      (reaches : ℕ → ℕ → ℕ → Bool) (elapsed batch_size : ℕ) (w : W) (b : LogBuffer)
      → IsValid b
      → IsValid (flush_batch write reaches elapsed batch_size w b).1
  unfolding flush_batch finish
  flush_batch-IsValid reaches elapsed batch_size w b h =
      let loop = write_batch-IsValid (min batch_size (length b.entries)) w b h in
      elim (Bool-cases (length b.entries == 0)) [
        | inl e ↦ rw e h
        | inr e ↦
            elim (Bool-cases
              (is_fail (write_batch write (min batch_size (length b.entries)) w b).2)) [
                | inl f ↦ rw (e, f) loop
                | inr f ↦
                    rw (e, f) (record { counted = loop.counted; contiguous = loop.contiguous })
              ]
      ]

  -- `flush` writes the entries in order up to the first write that fails. It returns that write's result code, and the buffer holds
  -- the entries from the failed one on; without a failure, none.
  pub flush-write_all :
      (reaches : ℕ → ℕ → ℕ → Bool) (elapsed : ℕ) (w : W) (b : LogBuffer)
      → ((flush write reaches elapsed w b).0 ≡ (write_all b.entries w).0)
        × ((flush write reaches elapsed w b).1.entries ≡ (write_all b.entries w).1)
        × ((flush write reaches elapsed w b).2 ≡ (write_all b.entries w).2)
  unfolding flush flush_batch finish write_all
  flush-write_all reaches elapsed w b = elim (List-cases b.entries) [
    | inl q ↦ rw q (refl, refl, refl)
    | inr (f, es, q) ↦
        let loop = write_batch-write_all (length b.entries) w b refl in
        let some_entries : (length b.entries == 0) ≡ false = rw q (ground arith) in
        let all_entries : min (length b.entries) (length b.entries) ≡ length b.entries =
          omega arith in
        elim (Bool-cases (is_fail (write_batch write (length b.entries) w b).2)) [
          | inl failed ↦ rw (some_entries, all_entries, failed) loop
          | inr fine ↦
              rw (some_entries, all_entries, fine)
                (loop.0, loop.1, sym (write_all-success b.entries w (rw (← loop.2) fine)))
        ]
  ]
