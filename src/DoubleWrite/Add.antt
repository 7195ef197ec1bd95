-- ===== src/DoubleWrite/Add.antt =====
-- `add_page` keeps the map valid and its size below the limit.
use dimdb.Prelude.{
  ap, ℕ, ◌%◌, ◌^◌, ◌≡◌, ◌⊎◌, refl, sym, ◌∙◌, Bool, true, false, not, [], ◌∷◌, none, some, length,
  arith, Bool-cases, inl, inr, if◌then◌else◌, Option-cases,
}
use mathlib.Core.Path.{subst}
use dimdb.Prelude.Int.{pos, ℤ, ltb_ℤ}
use dimdb.LogEntry.{to_int32}
use dimdb.Outcome.{Returns, Outcome}
use dimdb.Page.{Page}
use dimdb.Rc.{Rc, is_succ, is_fail}
use dimdb.DoubleWrite.{
  DoubleWritePageKey, DoubleWritePage, Pointer, Pages, live, dangling, IsDistinct, AllLive, equal,
  find, Placement, World, DiskDoubleWriteBuffer, flush_page, write_header, flush_full, add_new,
  add_held, add_found, add_page,
}
use dimdb.DoubleWrite.Keys.{
  equal_self, find-replace, find-replace_other, replace-IsDistinct, replace-AllLive, find-AllLive,
}
use dimdb.DoubleWrite.Flush.{flush_page-write_pages, write_pages}

abbrev pub IsValid : Pages → Type 0
IsValid pages = IsDistinct pages × AllLive pages

pub branches_return {ℓ} :
    {A : Type ℓ} (P : A → Type 0) (t : Bool) (x y : Outcome A)
    → (t ≡ true → Returns P x)
    → (t ≡ false → Returns P y)
    → Returns P (if t then x else y)
branches_return P true x y h k = h refl
branches_return P false x y h k = k refl

-- The map holds the page under the key and all other pages as before.
abbrev pub Holds : DoubleWritePageKey → Page → Pages → Pages → Type 0
Holds key page before after =
    (q : DoubleWritePage) × (find key after ≡ some (live q))
    × (q.page ≡ page)
    × ((k : DoubleWritePageKey) → equal key k ≡ false → find k after ≡ find k before)

abbrev pub reaches_limit : ℤ → Pages → Bool
reaches_limit max_pages pages = not (ltb_ℤ (to_int32 (length pages % 2 ^ 32)) max_pages)

module _ (world : World) where
  -- The map held these pages, which reached the limit, and all of them were written.
  pub record Flushed (max_pages : ℤ) (key : DoubleWritePageKey) (page : Page) (before : Pages)
      (b : DiskDoubleWriteBuffer) (w : world.W) : Type 0 where
    pub pages : Pages
    pub earlier : world.W
    pub holds : Holds key page before pages
    pub full : reaches_limit max_pages pages ≡ true
    pub written : is_succ (write_pages world pages earlier).2 ≡ true
    pub world_then : w ≡ (write_pages world pages earlier).1
    pub emptied : b.dblwr_pages_ ≡ []
    pub counted : b.page_cnt ≡ pos 0

  abbrev pub Stored :
      ℤ → DoubleWritePageKey → Page → Pages → DiskDoubleWriteBuffer → world.W → Type 0
  Stored max_pages key page before b w =
      Holds key page before b.dblwr_pages_ ⊎ Flushed max_pages key page before b w

module _ (world : World) where
  abbrev pub Added :
      ℤ → DoubleWritePageKey → Page → Pages → DiskDoubleWriteBuffer × world.W × Rc → Type 0
  Added max_pages key page before (b, w, rc) =
      is_succ rc ≡ true → IsValid b.dblwr_pages_ × Stored world max_pages key page before b w

module _ (world : World) where
  flush_page-Added :
      (key : DoubleWritePageKey) (page : Page) (before : Pages) (b : DiskDoubleWriteBuffer)
      (w : world.W)
      → IsValid b.dblwr_pages_
      → Holds key page before b.dblwr_pages_
      → reaches_limit b.max_pages_ b.dblwr_pages_ ≡ true
      → Returns (Added world b.max_pages_ key page before) (flush_page world b w)
  flush_page-Added key page before b w (d, l) s full =
      let written = write_pages world b.dblwr_pages_ w in
      rw (flush_page-write_pages world b w l) (elim (Bool-cases (is_succ written.2)) [
        | inl e ↦ rw e (λ ok. (
          (tt, tt),
          inr (record {
            pages = b.dblwr_pages_;
            earlier = w;
            holds = s;
            full = full;
            written = e;
            world_then = refl;
            emptied = refl;
            counted = refl;
          }),
        ))
        | inr e ↦ rw e (λ ok. absurd (ground (arith, ok, e)))
      ])

  flush_full-Added :
      (key : DoubleWritePageKey) (page : Page) (before : Pages) (b : DiskDoubleWriteBuffer)
      (w : world.W)
      → IsValid b.dblwr_pages_
      → Holds key page before b.dblwr_pages_
      → Returns (Added world b.max_pages_ key page before) (flush_full world b w)
  unfolding flush_full
  flush_full-Added key page before b w v s =
      elim (Bool-cases (ltb_ℤ (to_int32 (length b.dblwr_pages_ % 2 ^ 32)) b.max_pages_)) [
        | inl e ↦ rw e (λ ok. (v, inl s))
        | inr e ↦ rw e (flush_page-Added key page before b w v s (ap not e))
      ]

  -- Writing the header leaves the pages and the limit.
  pub write_header-pages :
      (page_cnt : ℕ) (b : DiskDoubleWriteBuffer) (w : world.W)
      → ((write_header world page_cnt b w).0.dblwr_pages_ ≡ b.dblwr_pages_)
        × ((write_header world page_cnt b w).0.max_pages_ ≡ b.max_pages_)
  unfolding write_header
  write_header-pages page_cnt b w = (ground arith, ground arith)

  module _ (placement : Placement) where
    inserted :
        (key : DoubleWritePageKey) (p : DoubleWritePage) (pages : Pages)
        → IsValid pages
        → find key pages ≡ none
        → IsValid (placement.arrange ((key, live p) ∷ pages))
          × Holds key p.page pages (placement.arrange ((key, live p) ∷ pages))
    unfolding find
    inserted key p pages (d, l) fresh =
        let distinct : IsDistinct ((key, live p) ∷ pages) = (fresh, d) in
        (
          (placement.arrange-IsDistinct _ distinct, placement.arrange-AllLive _ l),
          (
            p,
            placement.find-arrange key _ distinct ∙ rw (equal_self key) refl,
            refl,
            λ k n. placement.find-arrange k _ distinct ∙ rw n refl,
          ),
        )

    add_new-Added :
        (key : DoubleWritePageKey) (page : Page) (b : DiskDoubleWriteBuffer) (w : world.W)
        → IsValid b.dblwr_pages_
        → find key b.dblwr_pages_ ≡ none
        → Returns
            (Added world b.max_pages_ key page b.dblwr_pages_)
            (add_new world placement key page b w)
    unfolding add_new
    add_new-Added key page b w v fresh =
        let p : DoubleWritePage = record {
          key = key;
          page_index = to_int32 (length b.dblwr_pages_ % 2 ^ 32);
          valid = true;
          page = page;
        } in
        let b' = record b { dblwr_pages_ = placement.arrange ((key, live p) ∷ b.dblwr_pages_) } in
        let r = world.write_page_internal p w in
        let r' = write_header world (length b.dblwr_pages_) b' r.0 in
        let after : IsValid r'.0.dblwr_pages_ × Holds key page b.dblwr_pages_ r'.0.dblwr_pages_ =
          subst (λ pages. IsValid pages × Holds key page b.dblwr_pages_ pages)
            (sym (write_header-pages (length b.dblwr_pages_) b' r.0).0)
            (inserted key p b.dblwr_pages_ v fresh) in
        branches_return (Added world b.max_pages_ key page b.dblwr_pages_) (is_fail r.1) _ _
          (λ bad ok. absurd (ground (arith, bad, ok)))
          (λ good.
            branches_return (Added world b.max_pages_ key page b.dblwr_pages_) (is_fail r'.2) _ _
              (λ bad ok. absurd (ground (arith, bad, ok)))
              (λ good'.
                subst
                  (λ most.
                    Returns (Added world most key page b.dblwr_pages_) (flush_full world r'.0 r'.1))
                  (write_header-pages (length b.dblwr_pages_) b' r.0).1
                  (flush_full-Added key page b.dblwr_pages_ r'.0 r'.1 after.0 after.1)))

    add_held-Added :
        (key : DoubleWritePageKey) (page : Page) (p : Pointer) (b : DiskDoubleWriteBuffer)
        (w : world.W)
        → IsValid b.dblwr_pages_
        → find key b.dblwr_pages_ ≡ some p
        → Returns
            (Added world b.max_pages_ key page b.dblwr_pages_)
            (add_held world placement key page p b w)
    unfolding add_held
    add_held-Added key page dangling b w (d, l) held = find-AllLive key b.dblwr_pages_ l held
    add_held-Added key page (live p) b w (d, l) held = λ ok. (
      (replace-IsDistinct key _ b.dblwr_pages_ d, replace-AllLive key _ b.dblwr_pages_ l),
      inl (
        record p { page = page },
        find-replace key _ _ b.dblwr_pages_ held,
        refl,
        λ k n. find-replace_other key k _ b.dblwr_pages_ n,
      ),
    )

    -- On a buffer whose keys are distinct and whose pages are all there, `add_page` returns. If it
    -- succeeds the buffer is so again, and holds the page under its key and the other pages as before.
    -- Or it is empty and counts no pages: these pages reached the limit, and all of them were written.
    pub add_page-Added :
        (id page_num : ℤ) (page : Page) (b : DiskDoubleWriteBuffer) (w : world.W)
        → IsValid b.dblwr_pages_
        → Returns
            (Added world b.max_pages_
              (record { buffer_pool_id = id; page_num = page_num })
              page
              b.dblwr_pages_)
            (add_page world placement id page_num page b w)
    unfolding add_page add_found
    add_page-Added id page_num page b w v =
        let key : DoubleWritePageKey = record { buffer_pool_id = id; page_num = page_num } in
        elim (Option-cases (find key b.dblwr_pages_)) [
          | inl e ↦ rw e (add_new-Added key page b w v e)
          | inr (p, e) ↦ rw e (add_held-Added key page p b w v e)
        ]
