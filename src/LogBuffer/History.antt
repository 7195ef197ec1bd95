-- ===== src/LogBuffer/History.antt =====
-- Interleavings of appends and flushes as sequences of steps, with a log that keeps what is written.
--
-- Threads change the buffer under its mutex, so a run is a sequence, in some order, of what the calls
-- do while they hold it. A call of `append` that waits makes no step.
use mathlib.Core.Path.{subst}
use dimdb.Prelude.{
  ℕ, zero, suc, ◌≡◌, refl, sym, ◌∙◌, Bool, List, [], ◌∷◌, ◌++◌, length, min, ◌==◌, if◌then◌else◌,
  append_assoc, Bool-cases, List-cases, inl, inr,
}
use dimdb.Prelude.Int.{ℤ, pos, negsuc}
use dimdb.Rc.{Rc, is_fail}
use dimdb.LogEntry
use dimdb.LogEntry.{LogEntry, new_entry, set_lsn, lsn}
use dimdb.LogBuffer.{
  LogBuffer, new_buffer, init, push, next, append_locked, append_entry_locked, should_flush,
  write_batch, finish, flush_batch, IsContiguous,
}
use dimdb.LogBuffer.Order.{append-IsContiguous}

-- A writer, and the entries whose write it reported as done.
abbrev pub recording :
    {W : Type 0} → (LogEntry → W → W × Rc) → LogEntry → W × List LogEntry → (W × List LogEntry) × Rc
recording write entry (w, log) =
    let (w', rc) = write entry w in ((w', if is_fail rc then log else log ++ entry ∷ []), rc)

module _ (reaches : ℕ → ℕ → ℕ → Bool) (W : Type 0) where
  -- What a thread does under the buffer's mutex. An append looks whether the buffer is full before it
  -- locks the mutex, so at that step it may be full again. Each flush has a writer in any state, and
  -- may fail where an earlier one did, or not.
  pub data Step (b : LogBuffer) (log : List LogEntry) (b' : LogBuffer) (log' : List LogEntry)
      : Type 0 where
    appends :
        (out module_id : ℤ) (payload : List ℕ) (out' : ℤ) (rc : Rc)
        → append_locked out module_id payload b ≡ (b', out', rc)
        → log' ≡ log
        → Step b log b' log'
    appends_entry :
        (entry : LogEntry)
        → append_entry_locked reaches entry b ≡ b'
        → log' ≡ log
        → Step b log b' log'
    flushes :
        (write : LogEntry → W → W × Rc) (elapsed batch_size : ℕ) (w w' : W) (rc : Rc)
        → flush_batch (recording write) reaches elapsed batch_size (w, log) b ≡ ((w', log'), b', rc)
        → Step b log b' log'

  pub data Reaches (b : LogBuffer) (log : List LogEntry) : LogBuffer → List LogEntry → Type 0 where
    here : Reaches b log b log
    onward :
        {c d : LogBuffer} {log' log'' : List LogEntry}
        → Reaches b log c log'
        → Step c log' d log''
        → Reaches b log d log''

-- The entries of the log and then those of the buffer have the LSNs behind `first`, up to the current.
abbrev pub IsComplete : ℤ → LogBuffer → List LogEntry → Type 0
IsComplete first b log = IsContiguous first (log ++ b.entries) b.current_lsn

push-IsComplete :
    (first : ℤ) (entry : LogEntry) (b : LogBuffer) (log : List LogEntry)
    → IsComplete first b log
    → IsComplete first (push entry b) log
unfolding push set_lsn
push-IsComplete first entry b log h =
    subst (λ l. IsContiguous first l (next b.current_lsn))
      (append_assoc log b.entries (set_lsn entry (next b.current_lsn) ∷ []))
      (append-IsContiguous first b.current_lsn (log ++ b.entries)
        (set_lsn entry (next b.current_lsn)) h refl)

module _ {W : Type 0} (write : LogEntry → W → W × Rc) where
  -- The loop of a batch moves entries from the front of the buffer to the end of the log.
  write_batch-moves :
      (rounds : ℕ) (w : W) (log : List LogEntry) (b : LogBuffer)
      → let (after, b', rc) = write_batch (recording write) rounds (w, log) b in
        (after.1 ++ b'.entries ≡ log ++ b.entries) × (b'.current_lsn ≡ b.current_lsn)
  unfolding write_batch
  write_batch-moves zero w log b = (refl, refl)
  write_batch-moves (suc rounds) w log b = elim (List-cases b.entries) [
    | inl q ↦ rw q (refl, refl)
    | inr (e, es, q) ↦ elim (Bool-cases (is_fail (write e w).1)) [
      | inr a ↦
          let (moved, same) = write_batch-moves rounds (write e w).0 (log ++ e ∷ []) _ in
          rw (q, a) (moved ∙ append_assoc log (e ∷ []) es, same)
      | inl a ↦ rw (q, a) (refl, refl)
    ]
  ]

  flush_batch-IsComplete :
      (reaches : ℕ → ℕ → ℕ → Bool) (first : ℤ) (elapsed batch_size : ℕ) (w : W)
      (log : List LogEntry) (b : LogBuffer)
      → IsComplete first b log
      → let (after, b', rc) = flush_batch (recording write) reaches elapsed batch_size (w, log) b in
        IsComplete first b' after.1
  unfolding flush_batch finish
  flush_batch-IsComplete reaches first elapsed batch_size w log b h =
      let rounds = min batch_size (length b.entries) in
      let (entries, same) = write_batch-moves rounds w log b in
      let (after, b', rc) = write_batch (recording write) rounds (w, log) b in
      let moved =
        subst (λ n. IsContiguous first (after.1 ++ b'.entries) n) (sym same)
          (subst (λ l. IsContiguous first l b.current_lsn) (sym entries) h) in
      elim (Bool-cases (length b.entries == 0)) [
        | inl e ↦ rw e h
        | inr e ↦ elim (Bool-cases (is_fail (write_batch (recording write) rounds (w, log) b).2)) [
          | inl f ↦ rw (e, f) moved
          | inr f ↦ rw (e, f) moved
        ]
      ]

append-IsComplete :
    (first out module_id : ℤ) (payload : List ℕ) (b : LogBuffer) (log : List LogEntry)
    → IsComplete first b log
    → IsComplete first (append_locked out module_id payload b).0 log
unfolding append_locked
append-IsComplete first out module_id payload b log h =
    elim (Bool-cases (is_fail (LogEntry.init new_entry out module_id payload).1)) [
      | inl f ↦ rw f h
      | inr f ↦ rw f (push-IsComplete first _ b log h)
    ]

append_entry-IsComplete :
    (reaches : ℕ → ℕ → ℕ → Bool) (first : ℤ) (entry : LogEntry) (b : LogBuffer)
    (log : List LogEntry)
    → IsComplete first b log
    → IsComplete first (append_entry_locked reaches entry b) log
unfolding append_entry_locked
append_entry-IsComplete reaches first entry b log h =
    elim (Bool-cases (should_flush reaches (push entry b))) [
      | inl f ↦ rw f (push-IsComplete first entry b log h)
      | inr f ↦ rw f (push-IsComplete first entry b log h)
    ]

module _ (reaches : ℕ → ℕ → ℕ → Bool) (W : Type 0) where
  Step-IsComplete :
      (first : ℤ) {b b' : LogBuffer} {log log' : List LogEntry}
      → Step reaches W b log b' log'
      → IsComplete first b log
      → IsComplete first b' log'
  Step-IsComplete first {b = b} {b' = b'} {log = log} (appends out module_id payload out' rc e same)
        h =
      subst (λ l. IsComplete first b' l) (sym same)
        (subst (λ (r : LogBuffer × ℤ × Rc). IsComplete first r.0 log) e
          (append-IsComplete first out module_id payload b log h))
  Step-IsComplete first {b = b} {b' = b'} {log = log} (appends_entry entry e same) h =
      subst (λ l. IsComplete first b' l) (sym same)
        (subst (λ c. IsComplete first c log) e
          (append_entry-IsComplete reaches first entry b log h))
  Step-IsComplete first {b = b} {b' = b'} {log = log} (flushes write elapsed batch_size w w' rc e)
        h =
      subst (λ (r : (W × List LogEntry) × LogBuffer × Rc). IsComplete first r.1 r.0.1) e
        (flush_batch-IsComplete write reaches first elapsed batch_size w log b h)

  init-IsComplete : (first max_bytes : ℤ) → IsComplete first (init new_buffer first max_bytes) []
  unfolding init
  init-IsComplete first (pos zero) = refl
  init-IsComplete first (pos (suc n)) = refl
  init-IsComplete first (negsuc n) = refl

  -- Whatever appends and flushes, failing ones included, follow on `init` in whatever order, the
  -- entries that a writer reported as written, in that order, and then those of the buffer have the
  -- LSNs from the one behind the first on, up to the current: no entry is lost, reported twice or
  -- out of order. Each flush may have another writer, in any state, and a write that failed may
  -- succeed later.
  pub Reaches-IsComplete :
      (first max_bytes : ℤ) {b : LogBuffer} {log : List LogEntry}
      → Reaches reaches W (init new_buffer first max_bytes) [] b log
      → IsComplete first b log
  Reaches-IsComplete first max_bytes here = init-IsComplete first max_bytes
  Reaches-IsComplete first max_bytes (onward r step) =
      Step-IsComplete first step (Reaches-IsComplete first max_bytes r)
