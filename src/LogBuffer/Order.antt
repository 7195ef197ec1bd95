-- ===== src/LogBuffer/Order.antt =====
-- Counting bytes and LSNs: what an entry added behind or taken from the front does to both.
use dimdb.Prelude.{◌^◌, ◌<◌, ◌≡◌, refl, List, [], ◌∷◌, ◌++◌, arith}
use dimdb.Prelude.Int.{ℤ, pos, negsuc}
use dimdb.Frame.{to_size}
use dimdb.LogEntry.{LogEntry, total_size, lsn}
use dimdb.LogBuffer.{add_bytes, sub_bytes, next, bytes_of, IsContiguous}

to_size-lt : (n : ℤ) → to_size n < 2 ^ 64
unfolding to_size
to_size-lt (pos n) = omega arith
to_size-lt (negsuc n) = omega arith

bytes_of-lt : (entries : List LogEntry) → bytes_of entries < 2 ^ 64
unfolding bytes_of
bytes_of-lt [] = omega arith
bytes_of-lt (e ∷ entries) = omega arith

pub bytes_of-append :
    (entries : List LogEntry) (e : LogEntry)
    → bytes_of (entries ++ e ∷ []) ≡ add_bytes (bytes_of entries) (total_size e)
unfolding bytes_of add_bytes
bytes_of-append [] e = omega arith
bytes_of-append (f ∷ entries) e = omega (arith, bytes_of-append entries e)

pub sub_bytes-bytes_of :
    (e : LogEntry) (entries : List LogEntry)
    → sub_bytes (bytes_of (e ∷ entries)) (total_size e) ≡ bytes_of entries
unfolding bytes_of sub_bytes
sub_bytes-bytes_of e entries = omega (arith, to_size-lt (total_size e), bytes_of-lt entries)

pub append-IsContiguous :
    (flushed current : ℤ) (entries : List LogEntry) (e : LogEntry)
    → IsContiguous flushed entries current
    → lsn e ≡ next current
    → IsContiguous flushed (entries ++ e ∷ []) (lsn e)
append-IsContiguous flushed current [] e h n = (rw h n, refl)
append-IsContiguous flushed current (f ∷ entries) e h n =
    (h.0, append-IsContiguous (lsn f) current entries e h.1 n)
