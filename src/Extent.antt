-- ===== src/Extent.antt =====
-- src/extent.rs: an extent, the references into it, what of it is live, who holds it, and whether
-- reallocating it is worth what it costs. All integers are `u64`, with the wrap-around written out.
pub mod Ranges
pub mod Live
pub mod Usage
pub mod Holders
pub mod Contained
use btrealloc.Prelude.{
  ℕ, zero, suc, ◌*◌, ◌/◌, min, max, Bool, true, false, ◌&&◌, ◌||◌, Option, none, some, List, [],
  ◌∷◌, ◌++◌, map, ltb, leb, ◌==◌, if◌then◌else◌, add64, sub64, mul64, sort_by,
}

abbrev pub min_reclaim_bytes : ℕ
min_reclaim_bytes = 65536

abbrev pub max_copy_ratio : ℕ
max_copy_ratio = 4

pub record ExtentRef : Type 0 where
  pub root : ℕ
  pub inode : ℕ
  pub disk_address : ℕ
  pub disk_bytes : ℕ
  pub uncompressed_bytes : ℕ
  pub file_offset : ℕ
  pub extent_offset : ℕ
  pub num_bytes : ℕ
  pub leaf_generation : ℕ

-- `Range<u64>`: `start..end`
pub record Range : Type 0 where
  pub start : ℕ
  pub end : ℕ

pub record Extent : Type 0 where
  pub disk_address : ℕ
  pub disk_bytes : ℕ
  pub uncompressed_bytes : ℕ
  pub refs : List ExtentRef
  pub live_ranges : List Range

pub data LeftAlone : Type 0 where
  too_little_to_free too_much_to_copy no_data_cow past_end changed unresolved failed deleted :
      LeftAlone

pub record Holder : Type 0 where
  pub root : ℕ
  pub inode : ℕ
  pub refs : List ExtentRef

-- Where a reference ends inside the extent.
unfoldable pub ref_end : ExtentRef → ℕ
unfolding add64
ref_end r = add64 r.extent_offset r.num_bytes

unfoldable pub ref_range : ExtentRef → Range
unfolding ref_end
ref_range r = record { start = r.extent_offset; end = ref_end r }

-- The sort key of a range, `(start, end)`.
unfoldable pub range_le : Range → Range → Bool
range_le a b = ltb a.start b.start || (a.start == b.start && leb a.end b.end)

-- The merging loop from its second round on. `last` is what `merged.last_mut()` gives; the ranges
-- before it are final, and come out as they are pushed behind.
unfoldable pub merge_from : Range → List Range → List Range
merge_from last [] = last ∷ []
merge_from last (r ∷ rs) = elim (leb r.start last.end) [
  | true ↦ merge_from (record { start = last.start; end = max last.end r.end }) rs
  | false ↦ last ∷ merge_from r rs
]

unfoldable pub merge_ranges : List Range → List Range
unfolding merge_from
merge_ranges [] = []
merge_ranges (r ∷ rs) = merge_from r rs

unfoldable pub live_ranges : List ExtentRef → List Range
unfolding ref_range range_le merge_ranges sort_by
live_ranges refs = merge_ranges (sort_by range_le (map ref_range refs))

-- `Extent::new`
unfoldable pub new_extent : ℕ → ℕ → ℕ → List ExtentRef → Extent
unfolding live_ranges
new_extent disk_address disk_bytes uncompressed_bytes refs = record {
  disk_address = disk_address;
  disk_bytes = disk_bytes;
  uncompressed_bytes = uncompressed_bytes;
  refs = refs;
  live_ranges = live_ranges refs;
}

-- `Extent::from_refs`. `none` is the panic of `refs[0]` on an empty vector. The `debug_assert_eq!`s
-- are compiled out of a release build.
unfoldable pub from_refs : List ExtentRef → Option Extent
unfolding new_extent
from_refs [] = none
from_refs (first ∷ rest) =
    some (new_extent first.disk_address first.disk_bytes first.uncompressed_bytes (first ∷ rest))

-- `.map(|r| r.end - r.start).sum()`
unfoldable pub sum_lengths : List Range → ℕ
unfolding add64 sub64
sum_lengths [] = 0
sum_lengths (r ∷ rs) = add64 (sub64 r.end r.start) (sum_lengths rs)

unfoldable pub live_uncompressed_bytes : Extent → ℕ
unfolding sum_lengths
live_uncompressed_bytes e = sum_lengths e.live_ranges

-- The product is taken in `u128`, where it fits, and the quotient is at most `disk_bytes`.
unfoldable pub disk_used_bytes : Extent → ℕ
unfolding live_uncompressed_bytes
disk_used_bytes e =
    if e.uncompressed_bytes == 0
    then 0
    else min (live_uncompressed_bytes e) e.uncompressed_bytes * e.disk_bytes / e.uncompressed_bytes

unfoldable pub disk_free_bytes : Extent → ℕ
unfolding disk_used_bytes sub64
disk_free_bytes e = sub64 e.disk_bytes (disk_used_bytes e)

-- The sort key of `holders`, `(root, inode, file_offset)`.
unfoldable pub holder_le : ExtentRef → ExtentRef → Bool
holder_le a b =
    ltb a.root b.root
    || (a.root == b.root
        && (ltb a.inode b.inode || (a.inode == b.inode && leb a.file_offset b.file_offset)))

-- `(holder.root, holder.inode) == (r.root, r.inode)`
unfoldable pub same_file : Holder → ExtentRef → Bool
same_file h r = h.root == r.root && h.inode == r.inode

unfoldable pub new_holder : ExtentRef → Holder
new_holder r = record { root = r.root; inode = r.inode; refs = r ∷ [] }

-- The grouping loop from its second round on: `h` is what `holders.last_mut()` gives.
unfoldable pub group_from : Holder → List ExtentRef → List Holder
unfolding same_file new_holder
group_from h [] = h ∷ []
group_from h (r ∷ rs) = elim (same_file h r) [
  | true ↦ group_from (record { root = h.root; inode = h.inode; refs = h.refs ++ r ∷ [] }) rs
  | false ↦ h ∷ group_from (new_holder r) rs
]

unfoldable pub group_refs : List ExtentRef → List Holder
unfolding group_from
group_refs [] = []
group_refs (r ∷ rs) = group_from (new_holder r) rs

unfoldable pub holders : Extent → List Holder
unfolding group_refs holder_le sort_by
holders e = group_refs (sort_by holder_le e.refs)

unfoldable pub not_worth_rewriting : Extent → Option LeftAlone
unfolding disk_free_bytes mul64
not_worth_rewriting e =
    let free_bytes = disk_free_bytes e in
    if ltb free_bytes min_reclaim_bytes
    then some too_little_to_free
    else if ltb (mul64 free_bytes max_copy_ratio) (live_uncompressed_bytes e)
    then some too_much_to_copy
    else none

unfoldable pub worth_rewriting : Extent → Bool
unfolding not_worth_rewriting
worth_rewriting e = elim (not_worth_rewriting e) [ none ↦ true | some _ ↦ false ]
