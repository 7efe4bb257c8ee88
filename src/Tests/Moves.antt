-- ===== src/Tests/Moves.antt =====
-- A kernel that shares four sectors at a time, and a stretch of 64 KiB moved by it.
use btrealloc.Prelude.{false, min, []}
use btrealloc.Io.{ok}
use btrealloc.Extent.{ExtentRef}
use btrealloc.Kernel.Os.{Os, natural, Filesystem, State}
use btrealloc.Tests.Toy.{toy}

abbrev sharing : Os
sharing = record toy {
  dedupe_range =
      λ _ _ len _ _ w. (ok (record { status = natural 0; bytes_deduped = min len 16384 }), w);
}

abbrev sharing_fs : Filesystem sharing
sharing_fs = record { file = tt; mount = []; sectorsize = 4096; read_only = false }

abbrev sharing_state : State sharing
sharing_state = record { world = tt; subvolumes = []; last_snapshots = [] }

abbrev moved_ref : ExtentRef
moved_ref = record {
  root = 5;
  inode = 257;
  disk_address = 1048576;
  disk_bytes = 262144;
  uncompressed_bytes = 262144;
  file_offset = 8192;
  extent_offset = 4096;
  num_bytes = 65536;
  leaf_generation = 7;
}
