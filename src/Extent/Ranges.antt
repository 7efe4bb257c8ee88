-- ===== src/Extent/Ranges.antt =====
-- `live_ranges` of src/extent.rs: the merged ranges cover what the references cover, and are
-- apart and in order.
use btrealloc.Prelude.{
  ℕ, suc, ◌+◌, ◌≤◌, ◌<◌, ◌≡◌, refl, ◌∙◌, inl, inr, Bool, true, ◌&&◌, ◌||◌, List, [], ◌∷◌, map, max,
  ltb, leb, arith, All, All-mono, any, Bool-cases, u64_mod, add64-eq, sort_by, insert_by, IsSorted,
  IsOrder, sort_by-IsSorted, sort_by-All,
}
use btrealloc.Extent.{
  ExtentRef, Range, ref_end, ref_range, range_le, merge_from, merge_ranges, live_ranges,
}

-- Whether byte `x` of the extent lies in a range, or in one of several.
unfoldable pub holds : ℕ → Range → Bool
holds x r = leb r.start x && ltb x r.end

abbrev pub covered : ℕ → List Range → Bool
covered x rs = any (holds x) rs

pub range_le-IsOrder : IsOrder range_le
unfolding range_le
range_le-IsOrder = record { total = λ a b. ground arith; trans = λ a b c p q. ground arith }

insert_by-covered :
    (x : ℕ) (r : Range) (rs : List Range)
    → covered x (insert_by range_le r rs) ≡ (holds x r || covered x rs)
unfolding insert_by
insert_by-covered x r [] = refl
insert_by-covered x r (s ∷ rs) = ground (arith, insert_by-covered x r rs)

sort_by-covered : (x : ℕ) (rs : List Range) → covered x (sort_by range_le rs) ≡ covered x rs
unfolding sort_by
sort_by-covered x [] = refl
sort_by-covered x (r ∷ rs) =
    ground (arith, insert_by-covered x r (sort_by range_le rs), sort_by-covered x rs)

-- One round of the merging loop joins two ranges that overlap or touch.
holds-join :
    (x : ℕ) (last r : Range)
    → last.start ≤ r.start
    → r.start ≤ last.end
    → holds x (record { start = last.start; end = max last.end r.end })
      ≡ (holds x last || holds x r)
unfolding holds
holds-join x last r p q = ground arith

abbrev pub StartsAfter : ℕ → List Range → Type 0
StartsAfter n rs = All (λ r. n ≤ r.start) rs

abbrev pub StartSorted : List Range → Type 0
StartSorted [] = Unit
StartSorted (r ∷ rs) = StartsAfter r.start rs × StartSorted rs

range_le-start : (a b : Range) → range_le a b ≡ true → a.start ≤ b.start
unfolding range_le
range_le-start a b h = ground arith

pub StartSorted-of_IsSorted : (rs : List Range) → IsSorted range_le rs → StartSorted rs
StartSorted-of_IsSorted [] s = tt
StartSorted-of_IsSorted (r ∷ rs) s =
    (All-mono (λ z h. range_le-start r z h) rs s.0, StartSorted-of_IsSorted rs s.1)

merge_from-covered :
    (x : ℕ) (last : Range) (rs : List Range)
    → StartsAfter last.start rs
    → StartSorted rs
    → covered x (merge_from last rs) ≡ (holds x last || covered x rs)
unfolding merge_from
merge_from-covered x last [] a s = refl
merge_from-covered x last (r ∷ rs) a s = ground (
  arith,
  merge_from-covered x (record { start = last.start; end = max last.end r.end }) rs a.1 s.1,
  merge_from-covered x r rs s.0 s.1,
  holds-join x last r a.0,
)

pub merge_ranges-covered :
    (x : ℕ) (rs : List Range) → StartSorted rs → covered x (merge_ranges rs) ≡ covered x rs
unfolding merge_ranges
merge_ranges-covered x [] s = refl
merge_ranges-covered x (r ∷ rs) s = merge_from-covered x r rs s.0 s.1

-- A byte of the extent is in a live range exactly when the span of some reference holds it.
pub live_ranges-covered :
    (x : ℕ) (refs : List ExtentRef) → covered x (live_ranges refs) ≡ covered x (map ref_range refs)
unfolding live_ranges
live_ranges-covered x refs =
    merge_ranges-covered x (sort_by range_le (map ref_range refs))
      (StartSorted-of_IsSorted _ (sort_by-IsSorted range_le range_le-IsOrder (map ref_range refs)))
    ∙ sort_by-covered x (map ref_range refs)

-- Ranges in order, each within bounds, and with a gap before the next.
abbrev pub IsApart : ℕ → List Range → Type 0
IsApart bound [] = Unit
IsApart bound (r ∷ rs) =
    (r.start ≤ r.end) × (r.end < bound) × All (λ s. r.end < s.start) rs × IsApart bound rs

abbrev InBounds : ℕ → Range → Type 0
InBounds bound r = (r.start ≤ r.end) × (r.end < bound)

merge_from-starts :
    (n : ℕ) (last : Range) (rs : List Range)
    → n ≤ last.start
    → StartsAfter n rs
    → StartsAfter n (merge_from last rs)
unfolding merge_from
merge_from-starts n last [] h a = (h, tt)
merge_from-starts n last (r ∷ rs) h a = elim (Bool-cases (leb r.start last.end)) [
  | inl e ↦ rw (e, merge_from) (merge_from-starts n _ rs h a.1)
  | inr e ↦ rw (e, merge_from) (h, merge_from-starts n r rs a.0 a.1)
]

merge_from-IsApart :
    (bound : ℕ) (last : Range) (rs : List Range)
    → InBounds bound last
    → All (InBounds bound) rs
    → StartsAfter last.start rs
    → StartSorted rs
    → IsApart bound (merge_from last rs)
unfolding merge_from
merge_from-IsApart bound last [] l b a s = (l.0, l.1, tt, tt)
merge_from-IsApart bound last (r ∷ rs) l b a s = elim (Bool-cases (leb r.start last.end)) [
  | inl e ↦ rw (e, merge_from) (merge_from-IsApart bound _ rs (omega arith) b.1 a.1 s.1)
  | inr e ↦
      let gap : last.end < r.start = ground arith in
      let after : StartsAfter (suc last.end) rs =
        All-mono (λ z (h : r.start ≤ z.start). omega arith) rs s.0 in
      rw (e, merge_from)
        (
          l.0,
          l.1,
          merge_from-starts (suc last.end) r rs gap after,
          merge_from-IsApart bound r rs b.0 b.1 s.0 s.1,
        )
]

merge_ranges-IsApart :
    (bound : ℕ) (rs : List Range)
    → All (InBounds bound) rs
    → StartSorted rs
    → IsApart bound (merge_ranges rs)
unfolding merge_ranges
merge_ranges-IsApart bound [] b s = tt
merge_ranges-IsApart bound (r ∷ rs) b s = merge_from-IsApart bound r rs b.0 b.1 s.0 s.1

-- References whose spans end within `u64`, as those of every file extent item do.
abbrev pub Fits : ExtentRef → Type 0
Fits r = r.extent_offset + r.num_bytes < u64_mod

abbrev pub AllFit : List ExtentRef → Type 0
AllFit refs = All Fits refs

pub ref_end-eq : (r : ExtentRef) → Fits r → ref_end r ≡ r.extent_offset + r.num_bytes
unfolding ref_end
ref_end-eq r h = add64-eq r.extent_offset r.num_bytes h

ref_range-InBounds :
    (refs : List ExtentRef) → AllFit refs → All (InBounds u64_mod) (map ref_range refs)
unfolding ref_range
ref_range-InBounds [] h = tt
ref_range-InBounds (r ∷ refs) h = (
  (omega (arith, ref_end-eq r h.0), omega (arith, ref_end-eq r h.0)),
  ref_range-InBounds refs h.1,
)

-- If every reference ends within 64 bits, the live ranges are in order, within 64 bits, and a byte
-- that is not live parts any two of them.
pub live_ranges-IsApart : (refs : List ExtentRef) → AllFit refs → IsApart u64_mod (live_ranges refs)
unfolding live_ranges
live_ranges-IsApart refs h =
    merge_ranges-IsApart u64_mod (sort_by range_le (map ref_range refs))
      (sort_by-All range_le (InBounds u64_mod) (map ref_range refs) (ref_range-InBounds refs h))
      (StartSorted-of_IsSorted _ (sort_by-IsSorted range_le range_le-IsOrder (map ref_range refs)))
