-- ===== src/Kernel/Backrefs/Gather.antt =====
-- What `logical_ino` of src/kernel.rs gathers from a buffer of the backreference walk.
use btrealloc.Prelude.{ℕ, ◌≡◌, true, List, any, All}
use btrealloc.Kernel.Tally.{DataRef}
use btrealloc.Kernel.Backrefs.{Triple}
use btrealloc.Kernel.Backrefs.Grouping.{items_of, counted_for}
use btrealloc.Kernel.Backrefs.Windows.{holds_item, OneEach}

-- References that stand for the items of a walk: for each file as many as there are, each item in
-- the window of the reference of its file, and one reference for each file.
pub record IsGrouping (ts : List Triple) (ds : List DataRef) : Type 0 where
  pub counts : (root inode : ℕ) → counted_for root inode ds ≡ items_of root inode ts
  pub windows : All (λ t. any (holds_item t) ds ≡ true) ts
  pub one_each : OneEach ds
