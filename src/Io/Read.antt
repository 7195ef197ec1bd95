-- ===== src/Io/Read.antt =====
-- `readn` reads exactly what is asked for, or reports the end of the file.
use dimdb.Prelude.{
  ℕ, zero, suc, ◌+◌, ◌-◌, ◌≤◌, ◌<◌, ◌≡◌, refl, ◌∙◌, ap, true, false, List, [], ◌∷◌, ◌++◌, length,
  take, drop, length-drop, append_assoc, append_nil, min, ◌==◌, arith, Bool-cases, inl, inr,
}
use dimdb.Prelude.Int.{pos, negsuc}
use dimdb.Io.{Answer, moved, failed, returned, is_soft, readn, all_live, moves}

take-drop-add : (k m n : ℕ) (l : List ℕ) → k + m ≡ n → take k l ++ take m (drop k l) ≡ take n l
unfolding take drop
take-drop-add zero m n l e = let same : m ≡ n = omega arith in ap (λ (j : ℕ). take j l) same
take-drop-add (suc k) m zero l e = absurd (omega arith)
take-drop-add (suc k) zero (suc n) [] e = refl
take-drop-add (suc k) (suc m) (suc n) [] e = refl
take-drop-add (suc k) m (suc n) (a ∷ l) e = ap (◌∷◌ a) (take-drop-add k m n l (omega arith))

drop-drop : (k m n : ℕ) (l : List ℕ) → k + m ≡ n → drop m (drop k l) ≡ drop n l
unfolding drop
drop-drop zero m n l e = let same : m ≡ n = omega arith in ap (λ (j : ℕ). drop j l) same
drop-drop (suc k) m zero l e = absurd (omega arith)
drop-drop (suc k) zero (suc n) [] e = refl
drop-drop (suc k) (suc m) (suc n) [] e = refl
drop-drop (suc k) m (suc n) (a ∷ l) e = drop-drop k m n l (omega arith)

-- When no answer ends the loop, enough of them move bytes and the file has `size` bytes left,
-- `readn` returns 0 with exactly these, in order, and leaves the rest of the file. It takes no more
-- moving answers than bytes.
pub readn_complete :
    (answers : List Answer) (size : ℕ) (rest got : List ℕ)
    → all_live answers ≡ true
    → size ≤ moves answers
    → size ≤ length rest
    → (answers' : List Answer) × (readn answers size rest got
        ≡ returned (pos 0, got ++ take size rest, drop size rest, answers'))
      × (all_live answers' ≡ true)
      × (moves answers ≤ moves answers' + size)
unfolding readn all_live moves is_soft take drop
readn_complete answers zero rest got live enough there =
    (answers, rw (append_nil got) refl, live, omega arith)
readn_complete [] (suc size) rest got live enough there = absurd (omega arith)
readn_complete (moved zero ∷ answers) (suc size) rest got live enough there =
    absurd (ground (arith, live))
readn_complete (moved (suc n) ∷ answers) (suc size) rest got live enough there =
    let k : ℕ = min (suc n) (min (suc size) (length rest)) in
    let some_bytes : (k == 0) ≡ false = ground arith in
    let fits : k ≤ suc size = omega arith in
    let dropped = length-drop k rest (omega arith) in
    let (answers', e, l, m) =
      readn_complete answers (suc size - k) (drop k rest) (got ++ take k rest) live (omega arith)
        (omega arith) in
    let whole : k + (suc size - k) ≡ suc size = omega arith in
    let bytes : (got ++ take k rest) ++ take (suc size - k) (drop k rest)
        ≡ got ++ take (suc size) rest =
      append_assoc got (take k rest) (take (suc size - k) (drop k rest))
      ∙ ap (λ (l : List ℕ). got ++ l) (take-drop-add k (suc size - k) (suc size) rest whole) in
    let left : drop (suc size - k) (drop k rest) ≡ drop (suc size) rest =
      drop-drop k (suc size - k) (suc size) rest whole in
    (
      answers',
      rw some_bytes (e ∙ (λ i. returned (pos 0, bytes i, left i, answers'))),
      l,
      omega arith,
    )
readn_complete (failed errno ∷ answers) (suc size) rest got live enough there =
    elim (Bool-cases (is_soft errno)) [
      | inl e ↦
          let (answers', w, l, m) =
            readn_complete answers (suc size) rest got (ground (arith, live, e)) enough there in
          (answers', rw e w, l, m)
      | inr e ↦ absurd (ground (arith, live, e))
    ]

-- At the end of the file `readn` of some bytes returns -1 and reads none, after one answer that
-- moves bytes.
pub readn-end :
    (answers : List Answer) (size : ℕ) (got : List ℕ)
    → all_live answers ≡ true
    → 0 < moves answers
    → (answers' : List Answer) × (readn answers (suc size) [] got
        ≡ returned (negsuc 0, got, [], answers'))
      × (all_live answers' ≡ true)
      × (moves answers ≤ moves answers' + 1)
unfolding readn all_live moves is_soft
readn-end [] size got live enough = absurd (omega arith)
readn-end (moved zero ∷ answers) size got live enough = absurd (ground (arith, live))
readn-end (moved (suc n) ∷ answers) size got live enough =
    let none_left : min (suc n) (min (suc size) 0) ≡ 0 = omega arith in
    (answers, rw none_left refl, live, omega arith)
readn-end (failed errno ∷ answers) size got live enough = elim (Bool-cases (is_soft errno)) [
  | inl e ↦
      let (answers', w, l, m) = readn-end answers size got (ground (arith, live, e)) enough in
      (answers', rw e w, l, m)
  | inr e ↦ absurd (ground (arith, live, e))
]
