-- ===== src/FrameManager/Tests.antt =====
-- Runs of the frame manager, and the theorems at a manager of two frames, one of them in use.
use dimdb.Prelude.{
  ℕ, ◌≡◌, ◌≢◌, ◌<◌, Bool, take, refl, sym, ap, ◌∙◌, true, false, none, some, [], ◌∷◌, count, if_neg,
  ◌==◌, if◌then◌else◌, arith,
}
use dimdb.Prelude.Int.{pos, negsuc}
use dimdb.Outcome.{done, abort}
use dimdb.Page.{Page}
use dimdb.Frame
use dimdb.Frame.{FrameId, Frame, new_frame, buffer_pool_id, can_purge}
use dimdb.Frame.Pins.{pins}
use dimdb.Frame.Id.{frame_id_discrete}
use dimdb.LruCache.{find, node_of, item_at}
use dimdb.LruCache.Index.{value_of, without}
use dimdb.LruCache.Refines.{view, promote}
use dimdb.MemPool
use dimdb.MemPool.{MemPool, slots}
use dimdb.FrameManager.{
  FrameManager, IsValid, store, frame_of, get, find_list, alloc, free, at_least_one, purge_frames,
}
use dimdb.FrameManager.Pool.{frames_in, find_list-frames_in}
use dimdb.FrameManager.Shared.{id_of}
use dimdb.FrameManager.Registered.{Keeps, without_all, accepted}
use dimdb.FrameManager.Victims.{purgeable}
use dimdb.FrameManager.Ids.{set_frame_id-HasIds}
use dimdb.FrameManager.Purge.{HasIds, purge_frames-accepted}
use dimdb.FrameManager.Alloc.{alloc-frame_of}
use dimdb.FrameManager.Pages.{get-frame_of, free-frame_of, free-unmapped}

abbrev page : Page
page = record {
  header = record {
    page_num = pos 0;
    lsn = pos 0;
    check_sum = 0;
    free_space = 0;
    free_space_offset = 0;
    slot_count = 0;
    page_type = 0;
    flags = 0;
    last_trx_id = pos 0;
  };
  bytes = [];
}

abbrev loaded : Frame
loaded = record { pin_count = 1; acc_time = 0; frame_id = id_of (pos 1) (negsuc 0); page = page }

-- Page 3 of pool 1 is in the frame at the address 1.
abbrev manager : FrameManager
manager = record {
  frames = record {
    items = record { node = 0; key = id_of (pos 1) (pos 3); value = 1 } ∷ [];
    lookup = (id_of (pos 1) (pos 3), 0) ∷ [];
    next_node = 1;
  };
  allocator = record {
    size = 2;
    dynamic = false;
    item_num_per_pool = 1;
    pools = 1 ∷ 2 ∷ [];
    used = 1 ∷ [];
    frees = 2 ∷ [];
    next_address = 3;
    objects = λ a. loaded;
  };
}

pool-IsValid : MemPool.IsValid manager.allocator
unfolding slots
pool-IsValid = record {
  shared_out = λ a. ground arith;
  once = λ a. ground arith;
  in_memory = λ a q. ground arith;
  not_null = refl;
  heap_not_null = omega arith;
  sized = refl;
  pooled = refl;
}

abbrev key : FrameId
key = id_of (pos 1) (pos 3)

manager-IsValid : IsValid manager
unfolding find node_of item_at value_of
manager-IsValid = record {
  coherent = record {
    indexed = λ k. refl;
    unique = (refl, tt);
    linked = (omega arith, refl, refl, tt);
    counted = refl;
  };
  pool = pool-IsValid;
  in_use = λ k a f. ground (arith, f);
  apart = λ j k a f g. elim (frame_id_discrete key j) [
    | yes p ↦ elim (frame_id_discrete key k) [
      | yes q ↦ sym p ∙ q
      | no n ↦ absurd (ground (arith, g))
    ]
    | no n ↦ absurd (ground (arith, f))
  ];
}

held : frame_of key manager ≡ some 1
unfolding value_of
held = ground (arith)

missing : frame_of (id_of (pos 1) (negsuc 0)) manager ≡ none
unfolding value_of
missing =
    if_neg (frame_id_discrete key (id_of (pos 1) (negsuc 0)))
      (λ e. ground (arith, ap (λ (x : FrameId). x.page_num) e)) _ _

get-frame_of_example :
    (m' : FrameManager) × (get manager (pos 1) (pos 3) ≡ done (m', 1))
    × IsValid m'
    × (view m'.frames ≡ promote frame_id_discrete key (view manager.frames))
    × ((b : ℕ) → m'.allocator.objects b ≡ (if 1 == b then Frame.pin loaded else loaded))
get-frame_of_example = get-frame_of manager (pos 1) (pos 3) manager-IsValid 1 held

free-frame_of_example :
    (m' : FrameManager) × (free true page manager (pos 1) (pos 3) 1 ≡ done m')
    × IsValid m'
    × (view m'.frames ≡ without frame_id_discrete key (view manager.frames))
    × (m'.allocator.frees ≡ 2 ∷ 1 ∷ [])
    × (count 1 m'.allocator.used ≡ 0)
    × ((b : ℕ) → ◌≢◌ {A = ℕ} 1 b → m'.allocator.objects b ≡ loaded)
free-frame_of_example = free-frame_of manager (pos 1) (pos 3) manager-IsValid true page 1 held refl

-- The id that `alloc` leaves in the frame, which `purge_frames` frees it under.
free-unmapped_example :
    (m' : FrameManager) × (free true page manager (pos 1) (negsuc 0) 1 ≡ abort)
    × (view m'.frames ≡ view manager.frames)
    × (m'.allocator.frees ≡ 2 ∷ 1 ∷ [])
    × (count 1 m'.allocator.used ≡ 0)
free-unmapped_example =
    free-unmapped manager (pos 1) (negsuc 0) manager-IsValid true page 1 missing (omega arith)

alloc-frame_of_example :
    (m' : FrameManager) × (alloc true page manager (pos 1) (pos 3) ≡ done (m', 2))
    × IsValid m'
    × (view m'.frames ≡ (key, 2) ∷ without frame_id_discrete key (view manager.frames))
    × (m'.allocator.frees ≡ [])
    × ((m'.allocator.objects 2).pin_count ≡ 1)
    × ((m'.allocator.objects 2).page.header.page_num ≡ pos 3)
    × ((m'.allocator.objects 2).frame_id ≡ id_of (pos 1) (negsuc 0))
    × ((b : ℕ) → ◌≢◌ {A = ℕ} 2 b → m'.allocator.objects b ≡ loaded)
alloc-frame_of_example = alloc-frame_of manager (pos 1) (pos 3) manager-IsValid true page 2 [] refl

find_list-frames_in_example :
    ((find_list manager (pos 1)).1 ≡ 1 ∷ [])
    × ((a : ℕ)
        → (find_list manager (pos 1)).0.allocator.objects a
          ≡ pins (count a (find_list manager (pos 1)).1) loaded)
    × ((find_list manager (pos 1)).0.frames ≡ manager.frames)
unfolding frames_in buffer_pool_id
find_list-frames_in_example = find_list-frames_in manager (pos 1)

-- The frame's caller sets its id and lets go of it.
abbrev idle : FrameManager
idle = store 1 (Frame.unpin (Frame.set_frame_id loaded key)) manager

manager-HasIds : HasIds manager
unfolding value_of can_purge
manager-HasIds k a e free_of_pins = absurd (ground (arith, free_of_pins))

idle-IsValid : IsValid idle
idle-IsValid = (set_frame_id-HasIds manager key 1 manager-IsValid manager-HasIds held).0

idle-HasIds : HasIds idle
idle-HasIds = (set_frame_id-HasIds manager key 1 manager-IsValid manager-HasIds held).1

abbrev accept : ℕ → Frame → Frame × Bool
accept a f = (f, true)

accept-Keeps : Keeps accept
accept-Keeps = record { frame_id = λ a f. refl; pin_count = λ a f. refl }

purge_frames-accepted_example :
    (m' : FrameManager) × (purge_frames true page idle (pos 0) accept ≡ done (m', 1))
    × IsValid m'
    × (view m'.frames
        ≡ without_all (λ a. Frame.pin (idle.allocator.objects a)) (1 ∷ []) (view idle.frames))
    × (m'.allocator.frees ≡ 2 ∷ 1 ∷ [])
    × ((b : ℕ) → count b (1 ∷ []) ≡ 0 → m'.allocator.objects b ≡ idle.allocator.objects b)
    × ((b : ℕ)
        → 0 < count b (1 ∷ [])
        → (accept b (Frame.pin (idle.allocator.objects b))).1 ≡ false
        → m'.allocator.objects b ≡ Frame.unpin (accept b (Frame.pin (idle.allocator.objects b))).0)
unfolding accepted purgeable can_purge at_least_one take Frame.unpin Frame.set_frame_id
purge_frames-accepted_example =
    purge_frames-accepted true page accept accept-Keeps idle (pos 0) idle-IsValid idle-HasIds
