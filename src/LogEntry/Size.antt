-- ===== src/LogEntry/Size.antt =====
-- The sizes of entries.
use dimdb.Prelude.{ℕ, ◌+◌, ◌%◌, ◌^◌, ◌<◌, ◌≤◌, ◌≡◌, refl, List, length, arith}
use dimdb.Prelude.Int.{ℤ, pos}
use dimdb.Rc.{success, message_invaid}
use dimdb.LogEntry.{LogEntry, head_size, max_size, to_int32, init, total_size}

to_int32-small : (n : ℕ) → n < 2 ^ 31 → to_int32 n ≡ pos n
unfolding to_int32
to_int32-small n h = let e : n % 2 ^ 32 ≡ n = omega arith in rw e (ground arith)

-- `init` of a payload below 2 ^ 31 bytes accepts at most 4 MB with the head. It then stores the
-- payload, and the entry's total size is the payload's length with the head. Any other such payload it rejects
-- with MESSAGE_INVAID, and the entry is as before.
pub total_size-init :
    (entry : LogEntry) (lsn module_id : ℤ) (payload : List ℕ)
    → length payload < 2 ^ 31
    → (max_size < length payload + head_size
        → init entry lsn module_id payload ≡ (entry, message_invaid))
      × (length payload + head_size ≤ max_size
          → (entry' : LogEntry) × (init entry lsn module_id payload ≡ (entry', success))
            × (total_size entry' ≡ pos (length payload + head_size))
            × (entry'.payload ≡ payload)
            × (entry'.header.lsn ≡ lsn)
            × (entry'.header.module_id ≡ module_id))
unfolding init total_size
total_size-init entry lsn module_id payload h =
    let size = to_int32-small (length payload) h in
    (
      λ large. rw size (ground arith),
      λ small. (
        record {
          header = record {
            lsn = lsn;
            data_size = to_int32 (length payload);
            module_id = module_id;
          };
          payload = payload;
        },
        rw size (ground arith),
        rw size refl,
        refl,
        refl,
        refl,
      ),
    )
