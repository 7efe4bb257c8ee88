-- ===== src/Run/Copy/Sectors.antt =====
-- `read_liveranges` of src/run.rs: it returns, and no whole sector that can be read is missing.
use btrealloc.Prelude.{
  ℕ, zero, suc, ◌-◌, ◌*◌, ◌≤◌, ◌<◌, ◌≡◌, refl, sym, ◌∙◌, true, false, ◌⊎◌, inl, inr, List, [], ◌∷◌,
  ◌++◌, arith, ltb, Bool-cases, All, All-mono, All-and, IsSorted, IsOrder, sort_by, sort_by-All,
  All-sort_by, sort_by-IsSorted,
}
use mathlib.Core.Path.{subst}
use native.Mathlib.Nat.{mul-le-mul_right, le-div_iff_mul-le}
use btrealloc.Io.{Result, ok}
use btrealloc.Extent.{Range, Extent}
use btrealloc.Kernel.Os.{Os, State, Filesystem}
use btrealloc.Run.Locate.{Failure, Located}
use btrealloc.Run.Copy.{
  Source, Filled, LiveRange, copies_of, whole_sectors, read_range, read_ranges, read_liveranges,
  all_sources, source_le, unwrap_or, min_past,
}
use btrealloc.Run.Copy.Gaps.{min_past-IsNext, min_past-behind}
use btrealloc.Run.Copy.Filling.{IsReadable, given_to, IsDone, fill-IsFull}

-- That one of some stretches holds the bytes from `lo` to `hi`.
abbrev pub IsIn : ℕ → ℕ → List LiveRange → Type 0
IsIn lo hi [] = ⊥
IsIn lo hi (c ∷ cs) = ((c.start ≤ lo) × (hi ≤ c.end)) ⊎ IsIn lo hi cs

IsIn-left : (lo hi : ℕ) (cs ds : List LiveRange) → IsIn lo hi cs → IsIn lo hi (cs ++ ds)
IsIn-left lo hi [] ds h = absurd h
IsIn-left lo hi (c ∷ cs) ds (inl h) = inl h
IsIn-left lo hi (c ∷ cs) ds (inr h) = inr (IsIn-left lo hi cs ds h)

IsIn-right : (lo hi : ℕ) (cs ds : List LiveRange) → IsIn lo hi ds → IsIn lo hi (cs ++ ds)
IsIn-right lo hi [] ds h = h
IsIn-right lo hi (c ∷ cs) ds h = inr (IsIn-right lo hi cs ds h)

-- How the loops of `read_liveranges` end: with stretches of which something holds.
record AllRead {os : Os} (Q : List LiveRange → Type 0)
    (x : Result Failure (List LiveRange) × State os) : Type 0 where
  copies : List LiveRange
  after : State os
  returns : x ≡ (ok copies, after)
  holds : Q copies

module _ (os : Os) (fs : Filesystem os) (size : Located → ℕ) (lo hi : ℕ) where
  -- That the bytes from `lo` to `hi`, where they lie within a range and a reference's file has data
  -- for them, are in one of some stretches.
  abbrev pub IsRead : ℕ → ℕ → List LiveRange → Source → Type 0
  IsRead start end cs src =
      start ≤ lo
      → hi ≤ end
      → src.0.extent_offset ≤ lo
      → hi ≤ given_to os fs size src
      → IsIn lo hi cs

module _ (os : Os) (fs : Filesystem os) (size : Located → ℕ) (lo hi : ℕ) (some_bytes : lo < hi)
    (whole : (n : ℕ) → hi ≤ n → hi ≤ whole_sectors os fs n) where
  copies_of-IsIn :
      (start : ℕ) (f : Filled) → start ≤ lo → hi ≤ f.position → IsIn lo hi (copies_of os fs start f)
  unfolding copies_of
  copies_of-IsIn start f from to =
      let held = whole f.position to in
      let c : ltb start (whole_sectors os fs f.position) ≡ true = ground arith in
      rw c (inl (from, held))

  -- A stretch that was filled, and those read behind it.
  both-IsRead :
      (refs : List Source) (start end : ℕ) (f : Filled) (cs : List LiveRange)
      → start ≤ f.position
      → All (IsDone os fs size end f.position) refs
      → All (IsRead os fs size lo hi (unwrap_or (min_past f.position refs) end) end cs) refs
      → All (IsRead os fs size lo hi start end (copies_of os fs start f ++ cs)) refs
  both-IsRead refs start end f cs no_less done later =
      let next =
        min_past-IsNext f.position refs end (unwrap_or (min_past f.position refs) end)
          (omega arith) in
      let known = All-and _ _ refs done (All-and _ _ refs next later) in
      All-mono
        (λ src (full, (next, later)) from to held given. elim (Bool-cases (ltb f.position hi)) [
          | inl c ↦
              let behind : f.position < src.0.extent_offset = ground (arith, full) in
              IsIn-right lo hi (copies_of os fs start f) cs
                (later (omega (arith, next behind)) to held given)
          | inr c ↦
              IsIn-left lo hi (copies_of os fs start f) cs
                (copies_of-IsIn start f from (ground arith))
        ])
        refs known

  read_range-AllRead :
      (refs : List Source) (rounds start end : ℕ) (s : State os)
      → IsSorted source_le refs
      → All (IsReadable os fs size) refs
      → end - start ≤ rounds
      → AllRead
          (λ cs. All (IsRead os fs size lo hi start end cs) refs)
          (read_range os fs refs rounds start end s)
  unfolding read_range
  read_range-AllRead refs zero start end s sorted h enough =
      let ended : ltb start end ≡ false = ground arith in
      rw ended (record {
        copies = [];
        after = s;
        returns = refl;
        holds = All-mono (λ src _ from to. absurd (omega arith)) refs h;
      })
  read_range-AllRead refs (suc rounds) start end s sorted h enough =
      elim (Bool-cases (ltb start end)) [
        | inl c ↦
            let full = fill-IsFull os fs size refs start end s sorted h in
            let f = full.filled in
            let lt : start < end = ground arith in
            let next = unwrap_or (min_past f.position refs) end in
            let further = min_past-behind f.position refs start end full.no_less lt in
            let later =
              read_range-AllRead refs rounds next end full.after sorted h
                (omega (arith, further)) in
            rw (c, full.returns, later.returns)
              (record {
                copies = copies_of os fs start f ++ later.copies;
                after = later.after;
                returns = refl;
                holds =
                    both-IsRead refs start end f later.copies full.no_less full.done later.holds;
              })
        | inr c ↦ rw c (record {
          copies = [];
          after = s;
          returns = refl;
          holds = All-mono (λ src _ from to. absurd (ground arith)) refs h;
        })
      ]

  read_ranges-AllRead :
      (refs : List Source) (ranges : List Range) (s : State os)
      → IsSorted source_le refs
      → All (IsReadable os fs size) refs
      → AllRead
          (λ cs. All (λ range. All (IsRead os fs size lo hi range.start range.end cs) refs) ranges)
          (read_ranges os fs refs ranges s)
  unfolding read_ranges
  read_ranges-AllRead refs [] s sorted h = record {
    copies = [];
    after = s;
    returns = refl;
    holds = tt;
  }
  read_ranges-AllRead refs (range ∷ ranges) s sorted h =
      let here =
        read_range-AllRead refs (range.end - range.start) range.start range.end s sorted h
          (omega arith) in
      let later = read_ranges-AllRead refs ranges here.after sorted h in
      rw (here.returns, later.returns)
        (record {
          copies = here.copies ++ later.copies;
          after = later.after;
          returns = refl;
          holds = (
            All-mono
                (λ src k from to held given.
                  IsIn-left lo hi here.copies later.copies (k from to held given))
                refs here.holds,
            All-mono
                (λ r k.
                  All-mono
                    (λ src k from to held given.
                      IsIn-right lo hi here.copies later.copies (k from to held given))
                    refs k)
                ranges later.holds,
          );
        })

module _ (os : Os) (fs : Filesystem os) (size : Located → ℕ) where
  whole_sectors-le :
      (k n : ℕ)
      → 0 < fs.sectorsize
      → k * fs.sectorsize ≤ n
      → k * fs.sectorsize ≤ whole_sectors os fs n
  whole_sectors-le k n some_bytes le =
      mul-le-mul_right fs.sectorsize ((le-div_iff_mul-le some_bytes).1 le)

  source_le-IsOrder : IsOrder source_le
  unfolding source_le
  source_le-IsOrder = record { total = λ a b. ground arith; trans = λ a b c p q. ground arith }

  sector_lt : (k : ℕ) → 0 < fs.sectorsize → k * fs.sectorsize < suc k * fs.sectorsize
  sector_lt k some_bytes = grind arith

  -- How `read_liveranges` ends: with stretches in which no whole sector is missing that lies in a live
  -- range, and that the file of some reference has all data for.
  pub record HasSectors (extent : Extent) (located : List Located)
      (x : Result Failure (List LiveRange) × State os) : Type 0 where
    pub copies : List LiveRange
    pub after : State os
    pub returns : x ≡ (ok copies, after)
    pub has :
        (k : ℕ)
        → All
            (λ range.
              All
                (IsRead os fs size
                  (k * fs.sectorsize)
                  (suc k * fs.sectorsize)
                  range.start
                  range.end
                  copies)
                (all_sources located))
            extent.live_ranges

  -- If every holder's file can be opened and read whenever that is tried, and has one size meanwhile,
  -- and nothing goes over 64 bits, then `read_liveranges` returns, and no whole sector is missing: each
  -- that lies in a live range, and for which the file of some reference has data to its end, is in one
  -- of the stretches that it returns, whatever gaps the ends of other files leave.
  pub read_liveranges-HasSectors :
      (extent : Extent) (located : List Located) (s : State os)
      → 0 < fs.sectorsize
      → All (IsReadable os fs size) (all_sources located)
      → HasSectors extent located (read_liveranges os fs extent located s)
  unfolding read_liveranges
  read_liveranges-HasSectors extent located s some_bytes h =
      let refs = sort_by source_le (all_sources located) in
      let sorted = sort_by-IsSorted source_le source_le-IsOrder (all_sources located) in
      let readable = sort_by-All source_le (IsReadable os fs size) (all_sources located) h in
      let first =
        read_ranges-AllRead os fs size (0 * fs.sectorsize) (1 * fs.sectorsize)
          (sector_lt 0 some_bytes) (λ n. whole_sectors-le 1 n some_bytes) refs extent.live_ranges s
          sorted readable in
      record {
        copies = first.copies;
        after = first.after;
        returns = first.returns;
        has = λ k.
            let this =
              read_ranges-AllRead os fs size (k * fs.sectorsize) (suc k * fs.sectorsize)
                (sector_lt k some_bytes) (λ n. whole_sectors-le (suc k) n some_bytes) refs
                extent.live_ranges s sorted readable in
            let both : ◌≡◌ {A = Result Failure (List LiveRange) × State os}
                (ok this.copies, this.after) (ok first.copies, first.after) =
              sym this.returns ∙ first.returns in
            let same : this.copies ≡ first.copies = cc in
            All-mono
              (λ range seen.
                All-sort_by source_le
                  (IsRead os fs size (k * fs.sectorsize) (suc k * fs.sectorsize) range.start
                    range.end first.copies)
                  (all_sources located)
                  (subst
                    (λ cs.
                      All
                        (IsRead os fs size (k * fs.sectorsize) (suc k * fs.sectorsize) range.start
                          range.end cs)
                        refs)
                    same seen))
              extent.live_ranges this.holds;
      }
