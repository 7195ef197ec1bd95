-- ===== src/Io/Write.antt =====
-- `writen` writes everything in order.
use dimdb.Prelude.{
  ℕ, zero, suc, ◌+◌, ◌≤◌, ◌≡◌, refl, ◌∙◌, ap, true, List, [], ◌∷◌, ◌++◌, length, take, drop,
  take-drop, append_assoc, append_nil, arith, Bool-cases, inl, inr,
}
use dimdb.Io.{Answer, moved, failed, returned, is_soft, writen, all_soft, moves}

-- What is left after a move of `suc n` bytes is shorter.
pub length-drop-suc :
    (n : ℕ) (b : ℕ) (bytes : List ℕ) → length (drop (suc n) (b ∷ bytes)) ≤ length bytes
unfolding drop
length-drop-suc zero b bytes = omega arith
length-drop-suc (suc n) b [] = omega arith
length-drop-suc (suc n) b (c ∷ bytes) = omega (arith, length-drop-suc n c bytes)

-- When no answer is an error that ends the loop and enough of them move bytes, `writen` returns 0
-- with all bytes appended to the file in order. It takes no more moving answers than bytes.
pub writen_complete :
    (answers : List Answer) (bytes file : List ℕ)
    → all_soft answers ≡ true
    → length bytes ≤ moves answers
    → (answers' : List Answer) × (writen answers bytes file ≡ returned (0, file ++ bytes, answers'))
      × (all_soft answers' ≡ true)
      × (moves answers ≤ moves answers' + length bytes)
unfolding writen all_soft moves is_soft take drop
writen_complete answers [] file soft enough =
    (answers, rw (append_nil file) refl, soft, omega arith)
writen_complete [] (b ∷ bytes) file soft enough = absurd (omega arith)
writen_complete (moved zero ∷ answers) (b ∷ bytes) file soft enough =
    let (answers', e, s, m) = writen_complete answers (b ∷ bytes) file soft enough in
    (answers', rw (append_nil file) e, s, m)
writen_complete (moved (suc n) ∷ answers) (b ∷ bytes) file soft enough =
    let shorter = length-drop-suc n b bytes in
    let (answers', e, s, m) =
      writen_complete answers (drop (suc n) (b ∷ bytes)) (file ++ take (suc n) (b ∷ bytes)) soft
        (omega arith) in
    (
      answers',
      e
          ∙ ap (λ l. returned (0, l, answers'))
              (append_assoc file _ _ ∙ ap (λ l. file ++ l) (take-drop (suc n) (b ∷ bytes))),
      s,
      omega arith,
    )
writen_complete (failed errno ∷ answers) (b ∷ bytes) file soft enough =
    elim (Bool-cases (is_soft errno)) [
      | inl e ↦
          let (answers', w, s, m) =
            writen_complete answers (b ∷ bytes) file (ground (arith, soft, e)) enough in
          (answers', rw e w, s, m)
      | inr e ↦ absurd (ground (arith, soft, e))
    ]
