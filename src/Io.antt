-- ===== src/Io.antt =====
-- src/dimserver/common/io/io.cpp: `readn` and `writen` over the answers of the operating system.
--
-- An answer is what one call of `read` or `write` returns: a number of bytes, or -1 with `errno`. A
-- call moves at most the bytes that it was asked for, and a read no more than the file has left. The
-- file is the list of its bytes; writes append.
pub mod Write
pub mod Read
mod Tests
use dimdb.Prelude.{
  ℕ, zero, suc, ◌+◌, ◌-◌, ◌≡◌, Bool, true, false, not, ◌&&◌, ◌||◌, List, [], ◌∷◌, ◌++◌, length,
  take, drop, min, ◌==◌, if◌then◌else◌,
}
use dimdb.Prelude.Int.{ℤ, pos, negsuc}

pub data Answer : Type 0 where
  moved : ℕ → Answer
  failed : ℕ → Answer

-- How a call goes: it returns, it still runs when the answers end, or it ends by an exception.
pub data Run {ℓ} (A : Type ℓ) : Type ℓ where
  returned : A → Run A
  running thrown : Run A

infixl 5 ◌>>=◌
abbrev pub ◌>>=◌ {ℓ κ} : {A : Type ℓ} {B : Type κ} → Run A → (A → Run B) → Run B
returned a >>= f = f a
running >>= f = running
thrown >>= f = thrown

-- EAGAIN and EINTR, after which the loops try again.
unfoldable pub is_soft : ℕ → Bool
is_soft errno = errno == 11 || errno == 4

-- The result code, the file, and the answers that are left.
unfoldable pub writen : List Answer → List ℕ → List ℕ → Run (ℕ × List ℕ × List Answer)
writen answers [] file = returned (0, file, answers)
writen [] (b ∷ bytes) file = running
writen (moved n ∷ answers) (b ∷ bytes) file =
    writen answers (drop n (b ∷ bytes)) (file ++ take n (b ∷ bytes))
writen (failed errno ∷ answers) (b ∷ bytes) file =
    let again = writen answers (b ∷ bytes) file in
    if is_soft errno then again else returned (errno, file, answers)

-- The result code, the bytes read, the rest of the file, and the answers that are left.
unfoldable pub readn : List Answer → ℕ → List ℕ → List ℕ → Run (ℤ × List ℕ × List ℕ × List Answer)
readn answers zero rest got = returned (pos 0, got, rest, answers)
readn [] (suc size) rest got = running
readn (moved n ∷ answers) (suc size) rest got =
    let k = min n (min (suc size) (length rest)) in
    let more = readn answers (suc size - k) (drop k rest) (got ++ take k rest) in
    if k == 0 then returned (negsuc 0, got, rest, answers) else more
readn (failed errno ∷ answers) (suc size) rest got =
    let again = readn answers (suc size) rest got in
    if is_soft errno then again else returned (pos errno, got, rest, answers)

-- No answer is an error that ends a loop.
unfoldable pub all_soft : List Answer → Bool
all_soft [] = true
all_soft (moved n ∷ answers) = all_soft answers
all_soft (failed errno ∷ answers) = is_soft errno && all_soft answers

-- The answers that move bytes.
unfoldable pub moves : List Answer → ℕ
moves [] = 0
moves (moved zero ∷ answers) = moves answers
moves (moved (suc n) ∷ answers) = 1 + moves answers
moves (failed errno ∷ answers) = moves answers

-- Besides, no read answers 0 bytes by itself: `read` does so only at the end of the file, where it
-- has no bytes left to move.
unfoldable pub all_live : List Answer → Bool
all_live [] = true
all_live (moved zero ∷ answers) = false
all_live (moved (suc n) ∷ answers) = all_live answers
all_live (failed errno ∷ answers) = is_soft errno && all_live answers
