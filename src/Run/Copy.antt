-- ===== src/Run/Copy.antt =====
-- `read_liveranges`, `fill`, `stage` and `HolderBefore` of src/run.rs: the live stretches of an extent,
-- read into memory, and written out to a temporary file of their own.
pub mod Data
pub mod Stretches
pub mod Filling
pub mod Gaps
pub mod Sources
pub mod Sectors
pub mod Keeps
use btrealloc.Prelude.{
  ℕ, zero, suc, ◌-◌, ◌*◌, ◌/◌, min, Bool, ◌||◌, Option, none, some, List, [], ◌∷◌, ◌++◌, ltb, leb,
  if◌then◌else◌, take, add64, sub64, sort_by,
}
use btrealloc.Io.{stuck, pure, raise, map_err, ◌>>=◌, ◌>>◌}
use btrealloc.Abi.{Bytes}
use btrealloc.Extent.{ExtentRef, Range, Extent, ref_end}
use btrealloc.Kernel.Os.{Os, FilePath, Filesystem, on_world}
use btrealloc.Kernel.Files.{temp_file}
use btrealloc.Run.Locate.{charged, Run, Located, open_located}

-- `LiveRange`: bytes `start..end` of the extent.
pub record LiveRange : Type 0 where
  pub bytes : Bytes
  pub start : ℕ
  pub end : ℕ

abbrev pub Source : Type 0
Source = ExtentRef × Located

abbrev pub sources_of : Located → List ExtentRef → List Source
sources_of l [] = []
sources_of l (r ∷ rs) = (r, l) ∷ sources_of l rs

-- `.flat_map(|holder| holder.holder.refs.iter().map(move |r| (*r, holder)))`
abbrev pub all_sources : List Located → List Source
all_sources [] = []
all_sources (l ∷ ls) = sources_of l l.holder.refs ++ all_sources ls

unfoldable pub source_le : Source → Source → Bool
source_le (a, _) (b, _) = leb a.extent_offset b.extent_offset

-- How far the buffer of a stretch is filled, and the bytes up to there. The zeros behind them, which
-- the program cuts off again, are left out.
pub record Filled : Type 0 where
  pub position : ℕ
  pub bytes : Bytes

-- The `min` over the references that start past a gap, or the end of the range.
unfoldable pub min_past : ℕ → List Source → Option ℕ
min_past read [] = none
min_past read ((r, _) ∷ rest) =
    if ltb read r.extent_offset
    then some
        (elim (min_past read rest) [ none ↦ r.extent_offset | some n ↦ min r.extent_offset n ])
    else min_past read rest

abbrev pub unwrap_or : Option ℕ → ℕ → ℕ
unwrap_or none d = d
unwrap_or (some n) d = n

-- `HolderBefore`
pub record HolderBefore : Type 0 where
  pub filesize : ℕ
  pub modified : ℕ

module _ (os : Os) (fs : Filesystem os) where
  -- Where the part that a reference can give ends.
  unfoldable pub part_end : ExtentRef → ℕ → ℕ → ℕ → ℕ
  part_end r size end at =
      min (min end (ref_end r)) (add64 at (size - add64 r.file_offset (sub64 at r.extent_offset)))

  -- The reading of the part up to `to` out of a file, if it is not empty.
  unfoldable pub read_part : Source → os.File → ℕ → Filled → Run os Filled
  read_part (r, l) file to f = if leb to f.position then pure f else do
    part ← map_err (charged l.path) (
        on_world (
          os.read_exact_at file (add64 r.file_offset (sub64 f.position r.extent_offset))
            (to - f.position)))
    pure (record { position = to; bytes = f.bytes ++ part })

  -- The part of a stretch that one reference gives: `fill` from the opening of its file on.
  unfoldable pub fill_from : Source → ℕ → Filled → Run os Filled
  fill_from (r, l) end f = do
    file ← open_located os fs l
    meta ← map_err (charged l.path) (on_world (os.metadata file))
    read_part (r, l) file (part_end r meta.len end f.position) f

  unfoldable pub fill_loop : List Source → ℕ → Filled → Run os Filled
  fill_loop [] end f = pure f
  fill_loop ((r, l) ∷ rest) end f =
      if leb end f.position
      then pure f
      else if ltb f.position r.extent_offset || leb (ref_end r) f.position
      then fill_loop rest end f
      else fill_from (r, l) end f >>= fill_loop rest end

  -- `fill`
  unfoldable pub fill : List Source → ℕ → ℕ → Run os Filled
  fill refs start end = fill_loop refs end (record { position = start; bytes = [] })

  -- `read / fs.sectorsize * fs.sectorsize`
  abbrev pub whole_sectors : ℕ → ℕ
  whole_sectors n = n / fs.sectorsize * fs.sectorsize

  unfoldable pub copies_of : ℕ → Filled → List LiveRange
  copies_of start f =
      if ltb start (whole_sectors f.position)
      then record {
        bytes = take (whole_sectors f.position - start) f.bytes;
        start = start;
        end = whole_sectors f.position;
      }
        ∷ []
      else []

  -- The `while` of `read_liveranges`; its fuel is the length of what is left of the range.
  unfoldable pub read_range : List Source → ℕ → ℕ → ℕ → Run os (List LiveRange)
  read_range refs zero start end = if ltb start end then raise (charged [] stuck) else pure []
  read_range refs (suc rounds) start end =
      if ltb start end
      then (do
        f ← fill refs start end
        rest ← read_range refs rounds (unwrap_or (min_past f.position refs) end) end
        pure (copies_of start f ++ rest))
      else pure []

  unfoldable pub read_ranges : List Source → List Range → Run os (List LiveRange)
  read_ranges refs [] = pure []
  read_ranges refs (range ∷ ranges) = do
    here ← read_range refs (range.end - range.start) range.start range.end
    rest ← read_ranges refs ranges
    pure (here ++ rest)

  -- `read_liveranges`
  unfoldable pub read_liveranges : Extent → List Located → Run os (List LiveRange)
  read_liveranges extent located =
      read_ranges (sort_by source_le (all_sources located)) extent.live_ranges

  -- `HolderBefore::read`
  unfoldable pub read_before : Located → Run os HolderBefore
  read_before l = do
    file ← open_located os fs l
    meta ← map_err (charged l.path) (on_world (os.metadata file))
    pure (record { filesize = meta.len; modified = meta.modified })

  -- `stage`
  unfoldable pub stage : FilePath → Bytes → Run os os.File
  stage path bytes = do
    temp ← map_err (charged path) (temp_file os fs)
    map_err (charged path) (on_world (os.write_all_at temp bytes fs.sectorsize))
    pure temp
