-- ===== src/Run/Redirect.antt =====
-- `redirect_chunks`, `redirect_tail` and `finish_holder` of src/run.rs: pointing a file at the copy.
pub mod Chunks
pub mod Moved
pub mod Files
pub mod Keeps
use Prim.Native.String.{String}
use btrealloc.Prelude.{
  ℕ, zero, suc, ◌+◌, ◌-◌, ◌*◌, ◌/◌, ◌%◌, min, max, Bool, true, false, ◌&&◌, not, none, some, List,
  [], ◌∷◌, ltb, leb, ◌==◌, any, if◌then◌else◌, add64, sub64,
}
use btrealloc.Io.{
  Action, IoError, invalid_data, custom, other_error, stuck, pure, raise, map_err, ◌>>=◌, ◌>>◌,
}
use btrealloc.Extent.{ExtentRef, ref_end}
use btrealloc.Kernel.Os.{Os, FilePath, Filesystem, on_world}
use btrealloc.Kernel.Files.{dedupe}
use btrealloc.Run.Locate.{Failure, charged, Run, Located, open_located}
use btrealloc.Run.Copy.{LiveRange, HolderBefore, stage}

module _ (os : Os) (fs : Filesystem os) where
  -- The place in its file where byte `at` of the extent stands, for a reference.
  abbrev pub cursor_of : ExtentRef → ℕ → ℕ
  cursor_of r at = add64 r.file_offset (sub64 at r.extent_offset)

  -- The `while` of `redirect_chunks` for one reference, from byte `at` of the extent to byte `to`. A
  -- round moves on by one byte at least, so a round for each byte is enough.
  unfoldable pub redirect_loop :
      FilePath → os.File → os.File → ℕ → ExtentRef → ℕ → ℕ → ℕ → ℕ → Run os (Unit {0})
  redirect_loop path temp file start r stop to zero at =
      if ltb at to && ltb (cursor_of r at) stop then raise (charged path stuck) else pure tt
  redirect_loop path temp file start r stop to (suc rounds) at =
      if ltb at to && ltb (cursor_of r at) stop
      then (do
        deduped ← map_err (charged path) (
            dedupe os temp (sub64 (add64 fs.sectorsize at) start)
              (min (to - at) (stop - cursor_of r at)) file (cursor_of r at))
        if deduped == 0
            then raise (charged path (other_error "dedupe made no progress"))
            else redirect_loop path temp file start r stop to rounds (add64 at deduped))
      else pure tt

  -- One reference of `redirect_chunks`, in a file of `size` bytes.
  unfoldable pub redirect_ref :
      FilePath → os.File → os.File → LiveRange → ℕ → ExtentRef → Run os (Unit {0})
  redirect_ref path temp file range size r =
      let stop = min (add64 r.file_offset r.num_bytes) size in
      let at = max r.extent_offset range.start in
      let to = min (ref_end r) range.end in
      if leb stop r.file_offset
      then pure tt
      else redirect_loop path temp file range.start r stop to (to - at) at

  unfoldable pub redirect_refs :
      FilePath → os.File → os.File → LiveRange → ℕ → List ExtentRef → Run os (Unit {0})
  redirect_refs path temp file range size [] = pure tt
  redirect_refs path temp file range size (r ∷ rs) =
      redirect_ref path temp file range size r >> redirect_refs path temp file range size rs

  -- `redirect_chunks`
  unfoldable pub redirect_chunks : Located → os.File → LiveRange → ℕ → Run os (Unit {0})
  redirect_chunks l temp range size = do
    file ← open_located os fs l
    redirect_refs l.path temp file range size l.holder.refs

  -- `redirect_tail`
  unfoldable pub redirect_tail : FilePath → os.File → ℕ → ℕ → Run os (Unit {0})
  redirect_tail path file from size = do
    tail ← map_err (charged path) (on_world (os.read_exact_at file from (size - from)))
    temp ← stage os fs path tail
    map_err (charged path) (dedupe os temp fs.sectorsize (size - from) file from)
    pure tt

  -- Where the last sector of a file starts, for a size that is no whole number of sectors.
  abbrev pub tail_start : ℕ → ℕ
  tail_start size = size / fs.sectorsize * fs.sectorsize

  unfoldable pub holds_tail : ℕ → List ExtentRef → Bool
  holds_tail size refs =
      any
        (λ r.
          leb r.file_offset (tail_start size)
          && ltb (tail_start size) (add64 r.file_offset r.num_bytes))
        refs

  -- Whether `finish_holder` has a last sector to move.
  unfoldable pub needs_tail : ℕ → List ExtentRef → Bool
  unfolding holds_tail
  needs_tail size refs = not (size % fs.sectorsize == 0) && holds_tail size refs

  -- `Failure::modified`
  abbrev pub modified_failure : FilePath → String → Failure
  modified_failure path what = charged path (custom invalid_data what)

  -- The checks at the end of `finish_holder`.
  unfoldable pub check_unmodified : FilePath → os.File → HolderBefore → Run os (Unit {0})
  check_unmodified path file before = do
    after ← map_err (charged path) (on_world (os.metadata file))
    if not (before.filesize == after.len)
        then raise (modified_failure path "size changed during rewrite")
        else if not (before.modified == after.modified)
        then raise (modified_failure path "modified time changed during rewrite")
        else pure tt

  -- `finish_holder`
  unfoldable pub finish_holder : Located → HolderBefore → Run os (Unit {0})
  finish_holder l before = do
    file ← open_located os fs l
    if needs_tail before.filesize l.holder.refs
        then redirect_tail l.path file (tail_start before.filesize) before.filesize
        else pure tt
    check_unmodified l.path file before
