-- ===== src/Extent/Contained.antt =====
-- `live_ranges` of src/extent.rs: each reference lies in one range, of which nothing is cut off.
use btrealloc.Prelude.{
  ℕ, ◌≤◌, ◌≡◌, refl, inl, inr, List, [], ◌∷◌, map, max, leb, arith, All, All-mono, Bool-cases,
  sort_by, sort_by-IsSorted, sort_by-All, All-sort_by,
}
use mathlib.Core.List.{Memᴰ}
use mathlib.Core.List.Memᴰ as M
use mathlib.Core.Path.{subst}
use btrealloc.Extent.{
  ExtentRef, Range, ref_range, range_le, merge_from, merge_ranges, live_ranges, new_extent,
  holder_le, holders,
}
use btrealloc.Extent.Ranges.{StartSorted, StartsAfter, StartSorted-of_IsSorted, range_le-IsOrder}
use btrealloc.Extent.Holders.{all_refs, group_refs-all_refs}

-- That one of some ranges holds all of a range.
pub record IsWithin (ms : List Range) (q : Range) : Type 0 where
  pub range : Range
  pub among : Memᴰ range ms
  pub starts : range.start ≤ q.start
  pub ends : q.end ≤ range.end

merge_from-IsWithin :
    (last : Range) (rs : List Range)
    → StartsAfter last.start rs
    → StartSorted rs
    → All (IsWithin (merge_from last rs)) (last ∷ rs)
unfolding merge_from
merge_from-IsWithin last [] a s =
    (record { range = last; among = M.head refl; starts = omega arith; ends = omega arith }, tt)
merge_from-IsWithin last (r ∷ rs) a s = elim (Bool-cases (leb r.start last.end)) [
  | inl e ↦
      let joined : Range = record { start = last.start; end = max last.end r.end } in
      let step : merge_from joined rs ≡ merge_from last (r ∷ rs) = rw (merge_from, e) refl in
      let (h, rest) = merge_from-IsWithin joined rs a.1 s.1 in
      subst (λ ms. All (IsWithin ms) (last ∷ r ∷ rs)) step
        (
          record {
            range = h.range;
            among = h.among;
            starts = h.starts;
            ends = omega (arith, h.ends);
          },
          (
            record {
              range = h.range;
              among = h.among;
              starts = omega (arith, h.starts, a.0);
              ends = omega (arith, h.ends);
            },
            rest,
          ),
        )
  | inr e ↦
      let step : last ∷ merge_from r rs ≡ merge_from last (r ∷ rs) = rw (merge_from, e) refl in
      subst (λ ms. All (IsWithin ms) (last ∷ r ∷ rs)) step
        (
          record { range = last; among = M.head refl; starts = omega arith; ends = omega arith },
          All-mono
              (λ q h. record {
                range = h.range;
                among = M.tail h.among;
                starts = h.starts;
                ends = h.ends;
              })
              (r ∷ rs) (merge_from-IsWithin r rs s.0 s.1),
        )
]

merge_ranges-IsWithin : (rs : List Range) → StartSorted rs → All (IsWithin (merge_ranges rs)) rs
unfolding merge_ranges
merge_ranges-IsWithin [] s = tt
merge_ranges-IsWithin (r ∷ rs) s = merge_from-IsWithin r rs s.0 s.1

All-map :
    (P : Range → Type 0) (refs : List ExtentRef)
    → All P (map ref_range refs)
    → All (λ r. P (ref_range r)) refs
All-map P [] h = tt
All-map P (r ∷ refs) h = (h.0, All-map P refs h.1)

-- Every reference, as it stands with the holders of an extent, lies in one live range.
pub holders-IsWithin :
    (disk_address disk_bytes uncompressed_bytes : ℕ) (refs : List ExtentRef)
    → All
        (λ r. IsWithin (live_ranges refs) (ref_range r))
        (all_refs (holders (new_extent disk_address disk_bytes uncompressed_bytes refs)))
unfolding live_ranges holders new_extent
holders-IsWithin disk_address disk_bytes uncompressed_bytes refs =
    let spans = sort_by range_le (map ref_range refs) in
    let sorted =
      StartSorted-of_IsSorted spans
        (sort_by-IsSorted range_le range_le-IsOrder (map ref_range refs)) in
    let P = IsWithin (merge_ranges spans) in
    let each =
      All-map P refs
        (All-sort_by range_le P (map ref_range refs) (merge_ranges-IsWithin spans sorted)) in
    rw group_refs-all_refs (sort_by-All holder_le (λ r. P (ref_range r)) refs each)
