-- ===== src/DoubleWrite/Limit.antt =====
-- `add_page` keeps fewer pages than the limit.
use mathlib.Core.Path.{subst}
use dimdb.Prelude.{
  ℕ, suc, ◌%◌, ◌^◌, ◌<◌, ◌≡◌, refl, sym, ap, ◌∙◌, true, ◌∷◌, some, length, arith, Bool-cases, inl,
  inr, Option-cases, ltb,
}
use dimdb.Prelude.Int.{ℤ, pos}
use dimdb.LogEntry.{to_int32}
use dimdb.Outcome.{Returns}
use dimdb.Page.{Page}
use dimdb.Rc.{Rc, is_succ, is_fail}
use dimdb.DoubleWrite.{
  DoubleWritePageKey, DoubleWritePage, Pointer, live, dangling, AllLive, find, Placement, World,
  DiskDoubleWriteBuffer, flush_page, write_header, flush_full, add_new, add_held, add_found,
  add_page,
}
use dimdb.DoubleWrite.Keys.{length-replace, find-AllLive}
use dimdb.DoubleWrite.Flush.{flush_page-write_pages, write_pages}
use dimdb.DoubleWrite.Add.{branches_return, write_header-pages}

to_int32_small : (n : ℕ) → n < 2 ^ 31 → to_int32 (n % 2 ^ 32) ≡ pos n
unfolding to_int32
to_int32_small n h =
    let e : n % 2 ^ 32 ≡ n = omega arith in
    let small : ltb n (2 ^ 31) ≡ true = ground arith in rw e (rw e (rw small refl))

module _ (world : World) (m : ℕ) where
  -- On success fewer pages than the limit are left.
  abbrev pub Below : DiskDoubleWriteBuffer × world.W × Rc → Type 0
  Below (b, w, rc) = is_succ rc ≡ true → length b.dblwr_pages_ < m

  flush_page-Below :
      (b : DiskDoubleWriteBuffer) (w : world.W)
      → AllLive b.dblwr_pages_
      → 0 < m
      → Returns Below (flush_page world b w)
  flush_page-Below b w l some_room =
      rw (flush_page-write_pages world b w l)
        (elim (Bool-cases (is_succ (write_pages world b.dblwr_pages_ w).2)) [
          | inl e ↦ rw e (λ ok. some_room)
          | inr e ↦ rw e (λ ok. absurd (ground (arith, ok, e)))
        ])

  flush_full-Below :
      (b : DiskDoubleWriteBuffer) (w : world.W)
      → b.max_pages_ ≡ pos m
      → AllLive b.dblwr_pages_
      → length b.dblwr_pages_ < 2 ^ 31
      → 0 < m
      → Returns Below (flush_full world b w)
  unfolding flush_full
  flush_full-Below b w limit l fits some_room =
      rw (limit, to_int32_small (length b.dblwr_pages_) fits)
        (branches_return Below (ltb (length b.dblwr_pages_) m) _ _ (λ e ok. ground (arith, e))
          (λ e. flush_page-Below (record b { max_pages_ = pos m }) w l some_room))

  module _ (placement : Placement) where
    add_new-Below :
        (key : DoubleWritePageKey) (page : Page) (b : DiskDoubleWriteBuffer) (w : world.W)
        → b.max_pages_ ≡ pos m
        → AllLive b.dblwr_pages_
        → length b.dblwr_pages_ < m
        → m < 2 ^ 31
        → Returns Below (add_new world placement key page b w)
    unfolding add_new
    add_new-Below key page b w limit l below small =
        let p : DoubleWritePage = record {
          key = key;
          page_index = to_int32 (length b.dblwr_pages_ % 2 ^ 32);
          valid = true;
          page = page;
        } in
        let b' = record b { dblwr_pages_ = placement.arrange ((key, live p) ∷ b.dblwr_pages_) } in
        let r = world.write_page_internal p w in
        let r' = write_header world (length b.dblwr_pages_) b' r.0 in
        let (same, limit') = write_header-pages world (length b.dblwr_pages_) b' r.0 in
        let longer : length b'.dblwr_pages_ ≡ suc (length b.dblwr_pages_) =
          placement.length-arrange ((key, live p) ∷ b.dblwr_pages_) in
        let all : AllLive b'.dblwr_pages_ =
          placement.arrange-AllLive ((key, live p) ∷ b.dblwr_pages_) l in
        branches_return Below (is_fail r.1) _ _ (λ bad ok. absurd (ground (arith, bad, ok)))
          (λ good.
            branches_return Below (is_fail r'.2) _ _ (λ bad ok. absurd (ground (arith, bad, ok)))
              (λ good'.
                flush_full-Below r'.0 r'.1 (limit' ∙ limit) (subst AllLive (sym same) all)
                  (omega (arith, longer, ap (λ pages. length pages) same)) (omega arith)))

    add_held-Below :
        (key : DoubleWritePageKey) (page : Page) (p : Pointer) (b : DiskDoubleWriteBuffer)
        (w : world.W)
        → AllLive b.dblwr_pages_
        → length b.dblwr_pages_ < m
        → find key b.dblwr_pages_ ≡ some p
        → Returns Below (add_held world placement key page p b w)
    unfolding add_held
    add_held-Below key page dangling b w l below held = find-AllLive key b.dblwr_pages_ l held
    add_held-Below key page (live p) b w l below held =
        λ ok. omega (arith, length-replace key (live (record p { page = page })) b.dblwr_pages_)

    -- `add_page` returns on a buffer without dangling pointers. If it succeeds on fewer pages than the
    -- limit, which is below 2^31, fewer than the limit are there afterwards.
    pub add_page-Below :
        (id page_num : ℤ) (page : Page) (b : DiskDoubleWriteBuffer) (w : world.W)
        → b.max_pages_ ≡ pos m
        → AllLive b.dblwr_pages_
        → length b.dblwr_pages_ < m
        → m < 2 ^ 31
        → Returns Below (add_page world placement id page_num page b w)
    unfolding add_page add_found
    add_page-Below id page_num page b w limit l below small =
        let key : DoubleWritePageKey = record { buffer_pool_id = id; page_num = page_num } in
        elim (Option-cases (find key b.dblwr_pages_)) [
          | inl e ↦ rw e (add_new-Below key page b w limit l below small)
          | inr (p, e) ↦ rw e (add_held-Below key page p b w l below e)
        ]
