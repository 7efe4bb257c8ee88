-- ===== src/Tests/Extents.antt =====
-- An extent of 256 KiB, of which two overlapping references use 24 KiB, in two files.
use btrealloc.Prelude.{
  any, true, ℕ, ◌+◌, ◌*◌, ◌-◌, ◌≤◌, ◌≡◌, ◌↔◌, none, List, [], ◌∷◌, arith, u64_mod, map,
}
use mathlib.Core.List.{Perm}
use btrealloc.Extent.{
  ExtentRef, Extent, new_extent, ref_range, live_ranges, live_uncompressed_bytes, disk_used_bytes,
  holders, not_worth_rewriting, min_reclaim_bytes,
}
use btrealloc.Extent.Ranges.{AllFit, IsApart, live_ranges-IsApart, covered, live_ranges-covered}
use btrealloc.Extent.Live.{uses, bytes_used, live_uncompressed_bytes-eq-bytes_used}
use btrealloc.Extent.Usage.{disk_used_bytes_mono, plain_extent_worth}
use btrealloc.Extent.Holders.{AreHolders, all_refs, holders-AreHolders}

abbrev ref_at : ℕ → ℕ → ℕ → ExtentRef
ref_at inode offset bytes = record {
  root = 5;
  inode = inode;
  disk_address = 1048576;
  disk_bytes = 262144;
  uncompressed_bytes = 262144;
  file_offset = 4096;
  extent_offset = offset;
  num_bytes = bytes;
  leaf_generation = 7;
}

abbrev two_refs : List ExtentRef
two_refs = ref_at 257 0 16384 ∷ ref_at 258 8192 16384 ∷ []

abbrev the_extent : Extent
the_extent = new_extent 1048576 262144 262144 two_refs

two_refs-AllFit : AllFit two_refs
two_refs-AllFit = (omega arith, (omega arith, tt))

live_uncompressed_bytes-eq-bytes_used_example :
    live_uncompressed_bytes the_extent ≡ bytes_used two_refs
live_uncompressed_bytes-eq-bytes_used_example =
    live_uncompressed_bytes-eq-bytes_used 1048576 262144 262144 two_refs two_refs-AllFit

live_ranges-covered_example :
    covered 20000 (live_ranges two_refs) ≡ covered 20000 (map ref_range two_refs)
live_ranges-covered_example = live_ranges-covered 20000 two_refs

live_ranges-IsApart_example : IsApart u64_mod (live_ranges two_refs)
live_ranges-IsApart_example = live_ranges-IsApart two_refs two_refs-AllFit

plain_extent_worth_example : (not_worth_rewriting the_extent ≡ none) ↔ (
    (min_reclaim_bytes + bytes_used two_refs ≤ 262144)
    × (bytes_used two_refs ≤ 4 * (262144 - bytes_used two_refs)))
plain_extent_worth_example =
    plain_extent_worth 1048576 262144 two_refs (omega arith) (omega arith, (omega arith, tt))

holders-AreHolders_example :
    AreHolders (holders the_extent) × Perm (all_refs (holders the_extent)) the_extent.refs
holders-AreHolders_example = holders-AreHolders the_extent

-- The first reference on its own uses no more.
more_used : (x : ℕ) → any (uses x) (ref_at 257 0 16384 ∷ []) ≡ true → any (uses x) two_refs ≡ true
more_used x h = ground arith

disk_used_bytes_mono_example :
    disk_used_bytes (new_extent 1048576 262144 262144 (ref_at 257 0 16384 ∷ []))
    ≤ disk_used_bytes the_extent
disk_used_bytes_mono_example =
    disk_used_bytes_mono 262144 262144 1048576 1048576 (ref_at 257 0 16384 ∷ []) two_refs
      (omega arith, tt) two_refs-AllFit more_used
