-- ===== src/DoubleWrite/Flush.antt =====
-- `flush_page` against the sequence of its writes, and what a failed one leaves behind.
use dimdb.Prelude.{
  ◌<◌, ℕ, zero, suc, ◌≡◌, refl, ◌∙◌, true, false, [], ◌∷◌, if◌then◌else◌, arith, Bool-cases, inl,
  inr,
}
use dimdb.Prelude.Int.{pos}
use dimdb.Outcome.{done, fault}
use dimdb.Rc.{Rc, success, is_succ, is_fail}
use dimdb.DoubleWrite.{
  Pages, live, dangling, AllLive, World, DiskDoubleWriteBuffer, flush_loop, flush_page,
}

module _ (world : World) where
  -- Each page is written to its place and then, marked invalid, to the buffer's file, up to the
  -- first that does not come to its place: how many did, the world, and the result.
  unfoldable pub write_pages : Pages → world.W → ℕ × world.W × Rc
  write_pages [] w = (0, w, success)
  write_pages ((key, dangling) ∷ pages) w = (0, w, success)
  write_pages ((key, live p) ∷ pages) w =
      let (w', rc) = world.write_page p w in
      let (w'', ignored) = world.write_page_internal (record p { valid = false }) w' in
      let (n, w''', rc') = write_pages pages w'' in
      if is_succ rc then (suc n, w''', rc') else (0, w', rc)

-- The first pointers dangle.
unfoldable pub deleted : ℕ → Pages → Pages
deleted n [] = []
deleted zero (entry ∷ pages) = entry ∷ pages
deleted (suc n) ((key, p) ∷ pages) = (key, dangling) ∷ deleted n pages

module _ (world : World) where
  flush_loop-write_pages :
      (pages : Pages) (w : world.W)
      → AllLive pages
      → flush_loop world pages w
        ≡ done (
          deleted (write_pages world pages w).0 pages,
          (write_pages world pages w).1,
          (write_pages world pages w).2,
        )
  unfolding flush_loop write_pages deleted
  flush_loop-write_pages [] w h = refl
  flush_loop-write_pages ((key, dangling) ∷ pages) w h = absurd h
  flush_loop-write_pages ((key, live p) ∷ pages) w h =
      let first = world.write_page p w in
      let second = world.write_page_internal (record p { valid = false }) first.0 in
      elim (Bool-cases (is_succ first.1)) [
        | inl e ↦ rw (e, flush_loop-write_pages pages second.0 h) refl
        | inr e ↦ rw e refl
      ]

  -- With live pointers, `flush_page` writes the pages in order up to the first failure. If all are
  -- written the buffer is empty and counts no pages; otherwise the pages written are deleted, the
  -- map keeps their entries, and the others stay.
  pub flush_page-write_pages :
      (b : DiskDoubleWriteBuffer) (w : world.W)
      → AllLive b.dblwr_pages_
      → flush_page world b w
        ≡ done (
            let (n, w', rc) = write_pages world b.dblwr_pages_ w in
            if is_succ rc
            then (record b { dblwr_pages_ = []; page_cnt = pos 0 }, w', rc)
            else (record b { dblwr_pages_ = deleted n b.dblwr_pages_ }, w', rc))
  unfolding flush_page
  flush_page-write_pages b w h = rw (flush_loop-write_pages b.dblwr_pages_ w h) refl

  flush_loop-deleted :
      (pages : Pages) (w v : world.W)
      → 0 < (write_pages world pages w).0
      → flush_loop world (deleted (write_pages world pages w).0 pages) v ≡ fault
  unfolding flush_loop deleted write_pages
  flush_loop-deleted [] w v h = absurd (omega arith)
  flush_loop-deleted ((key, dangling) ∷ pages) w v h = absurd (omega arith)
  flush_loop-deleted ((key, live p) ∷ pages) w v h =
      elim (Bool-cases (is_succ (world.write_page p w).1)) [
        | inl e ↦ rw e refl
        | inr e ↦ let none_written : 0 < 0 = rw e at h in absurd (omega arith)
      ]

  -- A flush that fails behind a page that it wrote leaves a dangling pointer in the map, which the
  -- next flush, also the destructor's, follows, whatever the world is by then.
  pub flush_page-dangling :
      (b : DiskDoubleWriteBuffer) (w v : world.W)
      → AllLive b.dblwr_pages_
      → 0 < (write_pages world b.dblwr_pages_ w).0
      → is_fail (write_pages world b.dblwr_pages_ w).2 ≡ true
      → (b' : DiskDoubleWriteBuffer) × (w' : world.W) × (rc : Rc) × (flush_page world b w
          ≡ done (b', w', rc))
        × (is_fail rc ≡ true)
        × (flush_page world b' v ≡ fault)
  unfolding flush_page
  flush_page-dangling b w v h some_written failed =
      let written = write_pages world b.dblwr_pages_ w in
      let e : is_succ written.2 ≡ false = ground (arith, failed) in
      (
        record b { dblwr_pages_ = deleted written.0 b.dblwr_pages_ },
        written.1,
        written.2,
        flush_page-write_pages b w h ∙ rw e refl,
        failed,
        rw (flush_loop-deleted b.dblwr_pages_ w v some_written) refl,
      )
