-- ===== src/Kernel/Refs/Window.antt =====
-- The stretch of a file that `data_ref_extents` of src/kernel.rs searches holds every item that its
-- reference stands for.
use btrealloc.Prelude.{ℕ, ◌≤◌, ◌<◌, max, arith, add64, sub64}
use btrealloc.Kernel.Tally.{base}
use btrealloc.Kernel.Refs.{offset_window, max_compressed_bytes}

-- The largest file offset that the kernel allows is below this.
abbrev pub max_file : ℕ
max_file = 9223372036854775808

-- An item at `file_offset` that points `extent_offset` bytes into its extent stands for a reference
-- whose base is their wrapped difference. If it points into the extent's data (which is no longer
-- than the extent on disk, or than what btrfs compresses at once), the window of that base holds it,
-- also where the base has wrapped.
pub offset_window-holds :
    (disk_bytes file_offset extent_offset : ℕ)
    → file_offset < max_file
    → disk_bytes < max_file
    → extent_offset < max disk_bytes max_compressed_bytes
    → ((offset_window disk_bytes (base (sub64 file_offset extent_offset))).0 ≤ file_offset)
      × (file_offset ≤ (offset_window disk_bytes (base (sub64 file_offset extent_offset))).1)
unfolding offset_window add64 sub64
offset_window-holds disk_bytes file_offset extent_offset f d e = ground arith
