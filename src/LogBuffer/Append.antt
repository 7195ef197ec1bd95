-- ===== src/LogBuffer/Append.antt =====
-- Both kinds of `append` number the entry with the next LSN and put it behind the others.
use dimdb.Prelude.{
  ℕ, ◌+◌, ◌^◌, ◌<◌, ◌≤◌, ◌≡◌, refl, sym, Bool, false, some, none, List, [], ◌∷◌, ◌++◌, length, leb,
  arith, Bool-cases, inl, inr,
}
use dimdb.Prelude.Int.{ℤ}
use dimdb.Rc.{success, message_invaid}
use dimdb.LogEntry.{LogEntry, new_entry, head_size, max_size, total_size, set_lsn}
use dimdb.LogEntry.Size.{total_size-init}
use dimdb.LogBuffer.{
  LogBuffer, notify, one, append_entry, append, push, next, is_full, should_flush, IsValid,
}
use dimdb.LogBuffer.Order.{bytes_of-append, append-IsContiguous}

push-IsValid : (entry : LogEntry) (b : LogBuffer) → IsValid b → IsValid (push entry b)
unfolding push set_lsn total_size
push-IsValid entry b h = record {
  counted = rw h.counted (sym (bytes_of-append b.entries (set_lsn entry (next b.current_lsn))));
  contiguous =
      append-IsContiguous b.flushed_lsn b.current_lsn b.entries (set_lsn entry (next b.current_lsn))
        h.contiguous refl;
}

module _ (reaches : ℕ → ℕ → ℕ → Bool) (b : LogBuffer) (h : IsValid b) where
  -- `append` of an entry waits while the buffer is full. Otherwise it puts the entry behind the others
  -- with the LSN after the current one, which becomes the current one; what is flushed stays, and the
  -- buffer stays valid.
  pub append_entry-IsValid :
      (entry : LogEntry)
      → (b.max_bytes ≤ b.current_bytes → append_entry reaches entry b ≡ none)
        × (b.current_bytes < b.max_bytes
            → (b' : LogBuffer) × (append_entry reaches entry b ≡ some b')
              × IsValid b'
              × (b'.entries ≡ b.entries ++ set_lsn entry (next b.current_lsn) ∷ [])
              × (b'.current_lsn ≡ next b.current_lsn)
              × (b'.flushed_lsn ≡ b.flushed_lsn))
  unfolding append_entry is_full push
  append_entry-IsValid entry = (
    λ full. ground arith,
    λ room.
        let open_b : leb b.max_bytes b.current_bytes ≡ false = ground arith in
        let valid = push-IsValid entry b h in
        elim (Bool-cases (should_flush reaches (push entry b))) [
          | inl s ↦ (
            notify one (push entry b),
            rw (open_b, s) refl,
            record { counted = valid.counted; contiguous = valid.contiguous },
            refl,
            refl,
            refl,
          )
          | inr s ↦ (push entry b, rw (open_b, s) refl, valid, refl, refl, refl)
        ],
  )

module _ (b : LogBuffer) (h : IsValid b) (lsn module_id : ℤ) (payload : List ℕ)
    (room : b.current_bytes < b.max_bytes) (small : length payload < 2 ^ 31) where
  -- `append` of a payload to a buffer that is not full rejects more than 4 MB with the head and changes nothing.
  -- Any other payload below 2 ^ 31 bytes it puts behind the others in an entry with the LSN after the current one,
  -- which it returns; the buffer stays valid.
  pub append-IsValid :
      (max_size < length payload + head_size
        → append lsn module_id payload b ≡ some (b, lsn, message_invaid))
      × (length payload + head_size ≤ max_size
          → (b' : LogBuffer) × (entry : LogEntry) × (append lsn module_id payload b
              ≡ some (b', next b.current_lsn, success))
            × IsValid b'
            × (b'.entries ≡ b.entries ++ entry ∷ [])
            × (entry.payload ≡ payload)
            × (entry.header.lsn ≡ next b.current_lsn)
            × (entry.header.module_id ≡ module_id)
            × (b'.current_lsn ≡ next b.current_lsn))
  unfolding append is_full push set_lsn
  append-IsValid =
      let cases = total_size-init new_entry lsn module_id payload small in
      let open_b : leb b.max_bytes b.current_bytes ≡ false = ground arith in
      (
        λ large. rw (open_b, cases.0 large) refl,
        λ fits.
            let (entry, made, sized, kept, numbered, owned) = cases.1 fits in
            (
              push entry b,
              set_lsn entry (next b.current_lsn),
              rw (open_b, made) refl,
              push-IsValid entry b h,
              refl,
              kept,
              refl,
              owned,
              refl,
            ),
      )
