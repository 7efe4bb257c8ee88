-- ===== src/Tests/Units.antt =====
-- The unit tests at the end of src/extent.rs.
use btrealloc.Prelude.{ℕ, ◌*◌, ◌-◌, ◌^◌, ◌≡◌, refl, none, some, List, [], ◌∷◌, map}
use btrealloc.Extent.{
  ExtentRef, Extent, too_little_to_free, too_much_to_copy, new_extent, disk_used_bytes,
  disk_free_bytes, not_worth_rewriting,
}

abbrev extent_ref : ℕ → ℕ → ExtentRef
extent_ref start len = record {
  root = 5;
  inode = 257;
  disk_address = 0;
  disk_bytes = 1024;
  uncompressed_bytes = 1024;
  file_offset = 0;
  extent_offset = start;
  num_bytes = len;
  leaf_generation = 0;
}

abbrev extent_of_refs : List (ℕ × ℕ) → Extent
extent_of_refs refs = new_extent 0 1024 1024 (map (λ r. extent_ref r.0 r.1) refs)

disjoint_references_add_up : disk_used_bytes (extent_of_refs ((0, 100) ∷ (900, 124) ∷ [])) ≡ 224
unfolding new_extent disk_used_bytes
disjoint_references_add_up = refl

overlapping_references_count_once :
    disk_used_bytes (extent_of_refs ((0, 600) ∷ (400, 400) ∷ [])) ≡ 800
unfolding new_extent disk_used_bytes
overlapping_references_count_once = refl

a_reference_inside_another_is_absorbed :
    disk_used_bytes (extent_of_refs ((0, 900) ∷ (100, 50) ∷ [])) ≡ 900
unfolding new_extent disk_used_bytes
a_reference_inside_another_is_absorbed = refl

separate_stretches_stay_separate :
    (extent_of_refs ((0, 100) ∷ (900, 124) ∷ [])).live_ranges
    ≡ record { start = 0; end = 100 } ∷ record { start = 900; end = 1024 } ∷ []
unfolding new_extent
separate_stretches_stay_separate = refl

touching_stretches_merge :
    (extent_of_refs ((0, 512) ∷ (512, 512) ∷ [])).live_ranges
    ≡ record { start = 0; end = 1024 } ∷ []
unfolding new_extent
touching_stretches_merge = refl

mostly_dead_extent_is_worth_rewriting :
    not_worth_rewriting (new_extent 0 (2 ^ 20) (2 ^ 20) (extent_ref 0 4096 ∷ [])) ≡ none
unfolding new_extent not_worth_rewriting disk_free_bytes disk_used_bytes
mostly_dead_extent_is_worth_rewriting = refl

small_gap_frees_too_little :
    not_worth_rewriting (extent_of_refs ((0, 1000) ∷ [])) ≡ some too_little_to_free
unfolding new_extent not_worth_rewriting disk_free_bytes disk_used_bytes
small_gap_frees_too_little = refl

mostly_live_extent_copies_too_much :
    not_worth_rewriting (new_extent 0 (2 ^ 20) (2 ^ 20) (extent_ref 0 (900 * 2 ^ 10) ∷ []))
    ≡ some too_much_to_copy
unfolding new_extent not_worth_rewriting disk_free_bytes disk_used_bytes
mostly_live_extent_copies_too_much = refl

identical_references_are_one_range :
    let e = extent_of_refs ((256, 256) ∷ (256, 256) ∷ []) in
    (disk_used_bytes e ≡ 256) × (e.disk_bytes - disk_used_bytes e ≡ 768)
unfolding new_extent disk_used_bytes
identical_references_are_one_range = (refl, refl)
