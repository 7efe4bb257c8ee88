-- ===== src/Run/Copy/Keeps.antt =====
-- Reading the live stretches keeps whatever the reading calls keep, and staging them what the writing
-- of temporary files keeps.
use btrealloc.Prelude.{ℕ, zero, suc, List, [], ◌∷◌}
use btrealloc.Abi.{Bytes}
use btrealloc.Extent.{Range, Extent}
use btrealloc.Kernel.Os.{Os, FilePath, State, Filesystem}
use btrealloc.Kernel.Keeps.{
  Yields, Keeps, OnWorld, Yields-pure, Yields-raise, Keeps-pure, Yields-if, Yields-bind, Keeps-bind,
  Yields-map_err, keeps_rules,
}
use btrealloc.Kernel.Keeps.Calls.{Reads, Harmless}
use btrealloc.Kernel.Keeps.Temp.{temp_file-Yields}
use btrealloc.Run.Locate.{Located}
use btrealloc.Run.Locate.Keeps.{call-Keeps, open_located-Keeps}
use btrealloc.Run.Copy.{
  Source, Filled, read_part, fill_from, fill_loop, fill, read_range, read_ranges, read_liveranges,
  read_before, stage,
}

module _ {os : Os} {I : os.World → Type 0} (q : Reads os I) (fs : Filesystem os) where
  abbrev On : State os → Type 0
  On = OnWorld {os = os} I

  read_part-Keeps :
      (s : Source) (file : os.File) (to : ℕ) (f : Filled) → Keeps On (read_part os fs s file to f)
  unfolding read_part
  read_part-Keeps (r, l) file to f = search (keeps_rules, q.read_exact_at file) depth 12

  fill_from-Keeps : (s : Source) (end : ℕ) (f : Filled) → Keeps On (fill_from os fs s end f)
  unfolding fill_from
  fill_from-Keeps (r, l) end f = Keeps-bind (open_located-Keeps q fs l) (λ file.
      Keeps-bind (call-Keeps q fs l.path _ (q.metadata file))
        (λ meta. read_part-Keeps (r, l) file _ f))

  fill_loop-Keeps : (ss : List Source) (end : ℕ) (f : Filled) → Keeps On (fill_loop os fs ss end f)
  unfolding fill_loop
  fill_loop-Keeps [] end f = Keeps-pure f
  fill_loop-Keeps ((r, l) ∷ ss) end f = Yields-if _ (Keeps-pure f) (
      Yields-if _ (fill_loop-Keeps ss end f)
        (Keeps-bind (fill_from-Keeps (r, l) end f) (fill_loop-Keeps ss end)))

  read_range-Keeps :
      (ss : List Source) (rounds start end : ℕ) → Keeps On (read_range os fs ss rounds start end)
  unfolding read_range fill
  read_range-Keeps ss zero start end = Yields-if _ (Yields-raise _) (Keeps-pure _)
  read_range-Keeps ss (suc rounds) start end =
      Yields-if _
        (Keeps-bind (fill_loop-Keeps ss end _)
          (λ f. Keeps-bind (read_range-Keeps ss rounds _ end) (λ rest. Keeps-pure _)))
        (Keeps-pure _)

  read_ranges-Keeps :
      (ss : List Source) (ranges : List Range) → Keeps On (read_ranges os fs ss ranges)
  unfolding read_ranges
  read_ranges-Keeps ss [] = Keeps-pure _
  read_ranges-Keeps ss (range ∷ ranges) =
      Keeps-bind (read_range-Keeps ss _ range.start range.end)
        (λ here. Keeps-bind (read_ranges-Keeps ss ranges) (λ rest. Keeps-pure _))

  pub read_liveranges-Keeps :
      (e : Extent) (ls : List Located) → Keeps On (read_liveranges os fs e ls)
  unfolding read_liveranges
  read_liveranges-Keeps e ls = read_ranges-Keeps _ e.live_ranges

  pub read_before-Keeps : (l : Located) → Keeps On (read_before os fs l)
  unfolding read_before
  read_before-Keeps l =
      Keeps-bind (open_located-Keeps q fs l)
        (λ file. Keeps-bind (call-Keeps q fs l.path _ (q.metadata file)) (λ meta. Keeps-pure _))

module _ {os : Os} {I : os.World → Type 0} {IsTemp IsDest : os.File → Type 0}
    (q : Harmless os I IsTemp IsDest) (fs : Filesystem os) where
  pub stage-Yields :
      (path : FilePath) (bytes : Bytes)
      → Yields (OnWorld {os = os} I) IsTemp (stage os fs path bytes)
  unfolding stage
  stage-Yields path bytes = Yields-bind (Yields-map_err _ (temp_file-Yields q fs)) (λ f temp.
      Keeps-bind (call-Keeps q.reads fs path _ (q.write_all_at f temp bytes _))
        (λ done. Yields-pure f temp))
