-- ===== src/Tests/Rewrites.antt =====
-- The rewrite of an extent of which a file holds one sector, by the kernel that keeps count of it.
use btrealloc.Prelude.{[], ◌∷◌}
use btrealloc.Kernel.Os.{State}
use btrealloc.Extent.{Extent, new_extent}
use btrealloc.Tests.Runs.{strict, one_ref}

abbrev rewritten_state : State strict
rewritten_state = record {
  world = record { named = 0; made = 1; shared = 1 };
  subvolumes = [];
  last_snapshots = [];
}

abbrev held_extent : Extent
held_extent = new_extent 1024 262144 262144 (one_ref ∷ [])
