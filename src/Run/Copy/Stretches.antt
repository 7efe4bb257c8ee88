-- ===== src/Run/Copy/Stretches.antt =====
-- `read_liveranges` of src/run.rs: the stretches that it returns hold the data of the extent.
use mathlib.Core.Path.{subst}
use native.Mathlib.Nat.{mul_comm, mul-div-le}
use btrealloc.Prelude.{
  ℕ, zero, suc, ◌-◌, ◌≤◌, ◌≡◌, refl, ap, List, [], ◌∷◌, ◌++◌, arith, ltb, Bool-cases, inl, inr, All,
  All-append, take, sort_by, sort_by-All,
}
use btrealloc.Io.{Result, ok, err, and_then, pure, ◌>>=◌}
use btrealloc.Extent.{Range, Extent}
use btrealloc.Kernel.Os.{Os, State, Filesystem}
use btrealloc.Run.Locate.{Failure, Run, Located}
use btrealloc.Run.Copy.{
  Source, Filled, fill, LiveRange, copies_of, whole_sectors, read_range, read_ranges,
  read_liveranges, all_sources, source_le, unwrap_or, min_past,
}
use btrealloc.Run.Copy.Data.{stretch, HoldsData, IsFilled, fill-IsFilled}

module _ (os : Os) (fs : Filesystem os) (content : ℕ → ℕ) where
  -- A stretch that is to be staged holds the data of the extent at its place.
  abbrev pub IsCopy : LiveRange → Type 0
  IsCopy c = c.bytes ≡ stretch content c.start (c.end - c.start)

  take-stretch : (at m n : ℕ) → m ≤ n → take m (stretch content at n) ≡ stretch content at m
  take-stretch at zero n h = refl
  take-stretch at (suc m) zero h = absurd (omega arith)
  take-stretch at (suc m) (suc n) h =
      ap (◌∷◌ (content at)) (take-stretch (suc at) m n (omega arith))

  copies_of-IsCopy :
      (start : ℕ) (f : Filled)
      → IsFilled os fs content start f
      → All IsCopy (copies_of os fs start f)
  unfolding copies_of
  copies_of-IsCopy start f filled = elim (Bool-cases (ltb start (whole_sectors os fs f.position))) [
    | inl c ↦
        let le : whole_sectors os fs f.position ≤ f.position =
          rw mul_comm (mul-div-le f.position fs.sectorsize) in
        rw c (rw filled.1 (take-stretch start _ _ (omega arith)), tt)
    | inr c ↦ rw c tt
  ]

  -- Two lists read one after the other.
  both-IsCopy :
      (m : Run os (List LiveRange)) (here : List LiveRange) (cs : List LiveRange) (s s' : State os)
      → All IsCopy here
      → ((ds : List LiveRange) (t : State os) → m s ≡ (ok ds, t) → All IsCopy ds)
      → (m >>= (λ rest. pure (here ++ rest))) s ≡ (ok cs, s')
      → All IsCopy cs
  both-IsCopy m here cs s s' a later e = go (m s) refl e
    where
      go :
          (x : Result Failure (List LiveRange) × State os)
          → m s ≡ x
          → and_then x (λ rest. pure (here ++ rest)) ≡ (ok cs, s')
          → All IsCopy cs
      go (err why, t) p e = cc
      go (ok ds, t) p e =
          let same : here ++ ds ≡ cs = cc in
          subst (All IsCopy) same (All-append IsCopy here ds a (later ds t p))

  read_range-IsCopy :
      (refs : List Source) (rounds start end : ℕ) (cs : List LiveRange) (s s' : State os)
      → All (HoldsData os fs content) refs
      → read_range os fs refs rounds start end s ≡ (ok cs, s')
      → All IsCopy cs
  unfolding read_range
  read_range-IsCopy refs zero start end cs s s' holds e = elim (Bool-cases (ltb start end)) [
    | inl c ↦ let e' = rw c at e in cc
    | inr c ↦ let e' = rw c at e in let same : [] ≡ cs = cc in subst (All IsCopy) same tt
  ]
  read_range-IsCopy refs (suc rounds) start end cs s s' holds e =
      elim (Bool-cases (ltb start end)) [
        | inl c ↦ go (fill os fs refs start end s) refl (rw c at e) (λ f t ds u.
            read_range-IsCopy refs rounds (unwrap_or (min_past f.position refs) end) end ds t u
              holds)
        | inr c ↦ let e' = rw c at e in let same : [] ≡ cs = cc in subst (All IsCopy) same tt
      ]
    where
      go :
          (x : Result Failure Filled × State os)
          → fill os fs refs start end s ≡ x
          → and_then x (λ f.
            read_range os fs refs rounds (unwrap_or (min_past f.position refs) end) end
            >>= (λ rest. pure (copies_of os fs start f ++ rest)))
            ≡ (ok cs, s')
          → ((f : Filled) (t : State os) (ds : List LiveRange) (u : State os)
              → read_range os fs refs rounds (unwrap_or (min_past f.position refs) end) end t
                ≡ (ok ds, u)
              → All IsCopy ds)
          → All IsCopy cs
      go (err why, t) p e later = cc
      go (ok f, t) p e later =
          both-IsCopy (read_range os fs refs rounds (unwrap_or (min_past f.position refs) end) end)
            (copies_of os fs start f) cs t s'
            (copies_of-IsCopy start f (fill-IsFilled os fs content refs start end f s t holds p))
            (later f t) e

  read_ranges-IsCopy :
      (refs : List Source) (ranges : List Range) (cs : List LiveRange) (s s' : State os)
      → All (HoldsData os fs content) refs
      → read_ranges os fs refs ranges s ≡ (ok cs, s')
      → All IsCopy cs
  unfolding read_ranges
  read_ranges-IsCopy refs [] cs s s' holds e = let same : [] ≡ cs = cc in subst (All IsCopy) same tt
  read_ranges-IsCopy refs (range ∷ ranges) cs s s' holds e =
      go (read_range os fs refs (range.end - range.start) range.start range.end s) refl e
        (λ t ds u. read_ranges-IsCopy refs ranges ds t u holds)
    where
      go :
          (x : Result Failure (List LiveRange) × State os)
          → read_range os fs refs (range.end - range.start) range.start range.end s ≡ x
          → and_then x (λ here. read_ranges os fs refs ranges >>= (λ rest. pure (here ++ rest)))
            ≡ (ok cs, s')
          → ((t : State os) (ds : List LiveRange) (u : State os)
              → read_ranges os fs refs ranges t ≡ (ok ds, u)
              → All IsCopy ds)
          → All IsCopy cs
      go (err why, t) p e later = cc
      go (ok here, t) p e later =
          both-IsCopy (read_ranges os fs refs ranges) here cs t s'
            (read_range-IsCopy refs (range.end - range.start) range.start range.end here s t holds
              p)
            (later t) e

  -- If every holder's file, whenever it is opened, gives the data of the extent where a reference
  -- says that it stands, then every stretch that `read_liveranges` returns holds the data of the
  -- extent from its start to its end, whatever the sizes of the files and the order of the
  -- references.
  pub read_liveranges-IsCopy :
      (extent : Extent) (located : List Located) (cs : List LiveRange) (s s' : State os)
      → All (HoldsData os fs content) (all_sources located)
      → read_liveranges os fs extent located s ≡ (ok cs, s')
      → All IsCopy cs
  unfolding read_liveranges
  read_liveranges-IsCopy extent located cs s s' holds e =
      read_ranges-IsCopy (sort_by source_le (all_sources located)) extent.live_ranges cs s s'
        (sort_by-All source_le (HoldsData os fs content) (all_sources located) holds) e
