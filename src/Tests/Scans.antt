-- ===== src/Tests/Scans.antt =====
-- Extents counted by a scan.
use btrealloc.Prelude.{refl, none, []}
use btrealloc.Extent.{Extent, too_much_to_copy}
use btrealloc.Scan.{zero_left_alone, add_left_alone}
use btrealloc.Scan.Reasons.{Counts, add_left_alone-Counts}

abbrev unshared : Extent
unshared = record {
  disk_address = 1048576;
  disk_bytes = 262144;
  uncompressed_bytes = 262144;
  refs = [];
  live_ranges = [];
}

add_left_alone-Counts_example :
    Counts zero_left_alone too_much_to_copy none
      (add_left_alone zero_left_alone too_much_to_copy none)
add_left_alone-Counts_example = add_left_alone-Counts zero_left_alone too_much_to_copy none refl
