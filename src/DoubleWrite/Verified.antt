-- ===== src/DoubleWrite/Verified.antt =====
-- What `load_pages` takes into the map.
use dimdb.Prelude.{
  Bool, ℕ, zero, suc, ◌+◌, ◌*◌, ◌≡◌, sym, ◌∙◌, true, not, ◌&&◌, [], ◌∷◌, some, Bool-cases, inl, inr,
  Option-cases,
}
use mathlib.Core.Path.{subst}
use dimdb.Prelude.Int.{ℤ, negsuc}
use dimdb.Frame.{eq_ℤ}
use dimdb.Io.{Run, returned, running, thrown, ◌>>=◌}
use dimdb.LogFile.{File, read_file, is_negative}
use dimdb.Rc.{Rc, is_zero}
use dimdb.DoubleWrite.{
  DoubleWritePageKey, DoubleWritePage, Pointer, Pages, live, dangling, IsDistinct, AllLive, equal,
  find, Placement, DiskDoubleWriteBuffer,
}
use dimdb.DoubleWrite.Load.{
  page_of, is_verified, insert, insert_found, keep_verified, load_loop, load_pages, open_file,
  rounds, page_cnt_of, page_size, header_size, is_nil,
}
use dimdb.DoubleWrite.Keys.{equal-path}

-- Whatever the call returns has the property.
abbrev Whenever {ℓ} : {A : Type ℓ} → (A → Type 0) → Run A → Type 0
Whenever P (returned a) = P a
Whenever P running = Unit
Whenever P thrown = Unit

any_result {ℓ κ} :
    {A : Type ℓ} {B : Type κ} (P : B → Type 0) (run : Run A) (next : A → Run B)
    → ((a : A) → Whenever P (next a))
    → Whenever P (run >>= next)
any_result P (returned a) next h = h a
any_result P running next h = tt
any_result P thrown next h = tt

held_result {ℓ κ} :
    {A : Type ℓ} {B : Type κ} (Q : A → Type 0) (P : B → Type 0) (run : Run A) (next : A → Run B)
    → Whenever Q run
    → ((a : A) → Q a → Whenever P (next a))
    → Whenever P (run >>= next)
held_result Q P (returned a) next q h = h a q
held_result Q P running next q h = tt
held_result Q P thrown next q h = tt

-- The page agrees with its checksum and stands under its key.
abbrev pub IsVerified : DoubleWritePageKey → Pointer → Type 0
IsVerified key dangling = ⊥
IsVerified key (live p) = (is_verified p ≡ true) × (p.key ≡ key)

-- Keys are distinct, pages are there, and those that lookup finds are verified.
abbrev pub IsLoaded : Pages → Type 0
IsLoaded pages =
    IsDistinct pages
    × AllLive pages
    × ((key : DoubleWritePageKey) (p : Pointer) → find key pages ≡ some p → IsVerified key p)

module _ (placement : Placement) where
  insert-IsLoaded :
      (p : DoubleWritePage) (pages : Pages)
      → is_verified p ≡ true
      → IsLoaded pages
      → IsLoaded (insert placement p pages)
  unfolding insert insert_found find
  insert-IsLoaded p pages v (d, l, all) = elim (Option-cases (find p.key pages)) [
    | inl e ↦
        let distinct : IsDistinct ((p.key, live p) ∷ pages) = (e, d) in
        rw e (
          placement.arrange-IsDistinct _ distinct,
          placement.arrange-AllLive _ l,
          λ key q found.
              let found' : find key ((p.key, live p) ∷ pages) ≡ some q =
                sym (placement.find-arrange key _ distinct) ∙ found in
              elim (Bool-cases (equal p.key key)) [
                | inl same ↦
                    let it : some (live p) ≡ some q = rw same at found' in
                    let it' : live p ≡ q = cc it in
                    subst (λ r. IsVerified key r) it' (v, equal-path p.key key same)
                | inr other ↦ all key q (rw other at found')
              ],
        )
    | inr (held, e) ↦ rw e (d, l, all)
  ]

module _ (placement : Placement) (seeks : ℕ → Bool) where
  load_loop-IsLoaded :
      (left page_num : ℕ) (pages : Pages) (file : File)
      → IsLoaded pages
      → Whenever
          (λ (r : Pages × File × Rc). IsLoaded r.0)
          (load_loop placement seeks left page_num pages file)
  unfolding load_loop keep_verified
  load_loop-IsLoaded zero page_num pages file h = h
  load_loop-IsLoaded (suc left) page_num pages file h =
      elim (Bool-cases (seeks (page_num * page_size + header_size))) [
        | inr s ↦ rw s h
        | inl s ↦ rw s (
            any_result (λ (r : Pages × File × Rc). IsLoaded r.0)
              (read_file page_size (record file { offset = page_num * page_size + header_size })) _
              (λ (ret, bytes, file'). elim (Bool-cases (is_zero ret)) [
                | inl e ↦ elim (Bool-cases (is_verified (page_of bytes))) [
                  | inl v ↦
                      rw (e, v)
                        (load_loop-IsLoaded left (page_num + 1) _ file'
                          (insert-IsLoaded placement (page_of bytes) pages v h))
                  | inr v ↦ rw (e, v) (load_loop-IsLoaded left (page_num + 1) pages file' h)
                ]
                | inr e ↦ rw e h
              ]))
      ]

  abbrev Loaded : DiskDoubleWriteBuffer × File × Rc → Type 0
  Loaded (b, file, rc) = IsLoaded b.dblwr_pages_

  nil-IsLoaded : IsLoaded []
  unfolding find
  nil-IsLoaded = (tt, tt, λ key p found. absurd (cc found))

  load_pages-IsLoaded :
      (b : DiskDoubleWriteBuffer) (file : File)
      → IsLoaded b.dblwr_pages_
      → Whenever Loaded (load_pages placement seeks b file)
  unfolding load_pages
  load_pages-IsLoaded b file h = elim (Bool-cases (is_negative b.file_desc_)) [
    | inl n ↦ rw n h
    | inr n ↦ elim (Bool-cases (is_nil b.dblwr_pages_)) [
      | inr e ↦ rw (n, e) h
      | inl e ↦ elim (Bool-cases (seeks 0)) [
        | inr s ↦ rw (n, e, s) h
        | inl s ↦
            rw (n, e, s)
              (any_result Loaded (read_file header_size (record file { offset = 0 })) _
                (λ (ret, bytes, file').
                  elim (Bool-cases (not (is_zero ret) && not (eq_ℤ ret (negsuc 0)))) [
                    | inl r ↦ rw r h
                    | inr r ↦ rw r (
                        held_result (λ (q : Pages × File × Rc). IsLoaded q.0) Loaded
                          (load_loop placement seeks (rounds (page_cnt_of bytes b.page_cnt)) 0 []
                            file')
                          _ (load_loop-IsLoaded _ 0 [] file' nil-IsLoaded) (λ q loaded. loaded))
                  ]))
      ]
    ]
  ]

  -- Whatever opening a file into an empty buffer returns, also when it fails: each page that the
  -- buffer then holds agrees with its checksum and stands under its own key, no key stands twice
  -- and no pointer dangles.
  pub open_file-IsLoaded :
      (fd : ℤ) (b b' : DiskDoubleWriteBuffer) (file file' : File) (rc : Rc)
      → b.dblwr_pages_ ≡ []
      → open_file placement seeks fd b file ≡ returned (b', file', rc)
      → IsLoaded b'.dblwr_pages_
  unfolding open_file
  open_file-IsLoaded fd b b' file file' rc e run =
      let empty : IsLoaded b.dblwr_pages_ = subst IsLoaded (sym e) nil-IsLoaded in
      let whatever : Whenever Loaded (open_file placement seeks fd b file) =
        elim (Bool-cases (is_negative b.file_desc_)) [
          | inr n ↦ rw n empty
          | inl n ↦ elim (Bool-cases (is_negative fd)) [
            | inl m ↦ rw (n, m) empty
            | inr m ↦ rw (n, m) (load_pages-IsLoaded (record b { file_desc_ = fd }) file empty)
          ]
        ] in
      subst (Whenever Loaded) run whatever
