-- ===== src/Run/Process.antt =====
-- `realloc_extent`, `Runner::process` and `Report` of src/run.rs. What is printed is left out.
pub mod Keeps
pub mod Writes
pub mod Finished
pub mod Rewritten
pub mod Whole
pub mod Outcomes
use btrealloc.Prelude.{
  ℕ, Bool, none, some, Option, List, [], ◌∷◌, ◌++◌, min, max, if◌then◌else◌, add64, sub64,
}
use btrealloc.Io.{
  Result, ok, err, IoError, invalid_data, custom, other_error, kind, pure, raise, map_err, attempt,
  ◌>>=◌, ◌>>◌,
}
use btrealloc.Abi.{Abi}
use btrealloc.Extent.{
  ExtentRef, Extent, LeftAlone, failed, live_uncompressed_bytes, disk_free_bytes,
}
use btrealloc.Kernel.Os.{Os, FilePath, Filesystem, Io}
use btrealloc.Kernel.Files.{fatal}
use btrealloc.Kernel.Refs.{inode_holds_extent}
use btrealloc.Run.Locate.{Failure, charged, Run, Located, locate_holders}
use btrealloc.Run.Copy.{LiveRange, HolderBefore, read_liveranges, read_before, stage}
use btrealloc.Run.Redirect.{redirect_chunks, finish_holder}

-- `.min().unwrap_or(0)` of the references' file offsets.
unfoldable pub first_offset : List ExtentRef → ℕ
first_offset [] = 0
first_offset (r ∷ []) = r.file_offset
first_offset (r ∷ s ∷ rs) = min r.file_offset (first_offset (s ∷ rs))

abbrev pub last_byte : ExtentRef → ℕ
last_byte r = sub64 (add64 r.file_offset r.num_bytes) 1

-- `.max().unwrap_or(0)` of the last bytes that the references hold.
unfoldable pub last_offset : List ExtentRef → ℕ
last_offset [] = 0
last_offset (r ∷ []) = last_byte r
last_offset (r ∷ s ∷ rs) = max (last_byte r) (last_offset (s ∷ rs))

module _ (os : Os) (fuel : ℕ) (fs : Filesystem os) where
  unfoldable pub read_befores : List Located → Run os (List (Located × HolderBefore))
  read_befores [] = pure []
  read_befores (l ∷ ls) = do
    before ← read_before os fs l
    rest ← read_befores ls
    pure ((l, before) ∷ rest)

  -- Every holder is pointed at one staged stretch.
  unfoldable pub redirect_all :
      os.File → LiveRange → List (Located × HolderBefore) → Run os (Unit {0})
  redirect_all temp range [] = pure tt
  redirect_all temp range ((l, before) ∷ rest) =
      redirect_chunks os fs l temp range before.filesize >> redirect_all temp range rest

  -- The loop over the live ranges; `path` is that of the first holder.
  unfoldable pub move_ranges :
      FilePath → List LiveRange → List (Located × HolderBefore) → Run os (Unit {0})
  move_ranges path [] befores = pure tt
  move_ranges path (range ∷ ranges) befores = do
    temp ← stage os fs path range.bytes
    redirect_all temp range befores
    move_ranges path ranges befores

  unfoldable pub finish_all : List (Located × HolderBefore) → Run os (Unit {0})
  finish_all [] = pure tt
  finish_all ((l, before) ∷ rest) = finish_holder os fs l before >> finish_all rest

  -- The check at the end of `realloc_extent`: no holder holds the extent any more.
  unfoldable pub check_released : ℕ → List Located → Run os (Unit {0})
  check_released disk_address [] = pure tt
  check_released disk_address (l ∷ ls) = do
    held ← map_err (charged l.path) (
        inode_holds_extent os fuel fs l.holder.root l.holder.inode (first_offset l.holder.refs)
          (last_offset l.holder.refs) disk_address)
    if held
        then raise (charged l.path (other_error "still holds the extent"))
        else check_released disk_address ls

  -- `holders[0].path`, used only where there is a live range, and so a holder.
  abbrev pub first_path : List Located → FilePath
  first_path [] = []
  first_path (l ∷ ls) = l.path

  unfoldable pub realloc_extent : Extent → List Located → Run os (Unit {0})
  realloc_extent extent located = do
    liveranges ← read_liveranges os fs extent located
    befores ← read_befores located
    move_ranges (first_path located) liveranges befores
    finish_all befores
    check_released extent.disk_address located

pub record Report : Type 0 where
  pub rewritten : List ℕ
  pub copied_bytes : ℕ
  pub freed_bytes : ℕ
  pub skipped : List (FilePath × IoError)
  pub modified : List (FilePath × IoError)

-- `Report::default`
abbrev pub empty_report : Report
empty_report = record {
  rewritten = [];
  copied_bytes = 0;
  freed_bytes = 0;
  skipped = [];
  modified = [];
}

-- Where a failure that concerns one extent is filed.
unfoldable pub file_failure : Report → Failure → Report
file_failure report f = elim (kind f.error) [
  | invalid_data ↦ record report { modified = report.modified ++ (f.path, f.error) ∷ [] }
  | _ ↦ record report { skipped = report.skipped ++ (f.path, f.error) ∷ [] }
]

-- What one extent came to: the reason why it was left alone, if it was, or the error that ends the
-- run; and the report after it.
abbrev pub Outcome : Type 0
Outcome = Result IoError (Option LeftAlone) × Report

-- `Report::failed`
unfoldable pub report_failed : Abi → Report → Failure → Outcome
report_failed abi report f = elim (fatal abi f.error) [
  | some hint ↦ (err (custom (kind f.error) "stopped at"), report)
  | none ↦ (ok (some failed), file_failure report f)
]

-- The account of a rewrite, or on a dry run of what one would do.
unfoldable pub report_rewritten : Report → Extent → Report
report_rewritten report extent = record report {
  copied_bytes = add64 report.copied_bytes (live_uncompressed_bytes extent);
  freed_bytes = add64 report.freed_bytes (disk_free_bytes extent);
  rewritten = report.rewritten ++ extent.disk_address ∷ [];
}

module _ (os : Os) (fuel : ℕ) (fs : Filesystem os) (apply : Bool) where
  -- The rewrite, if the run is to do any.
  unfoldable pub rewrite : Extent → List Located → Run os (Unit {0})
  rewrite extent located = if apply then realloc_extent os fuel fs extent located else pure tt

  unfoldable pub outcome_of : Report → Extent → Result Failure (Unit {0}) → Outcome
  outcome_of report extent (ok done) = (ok none, report_rewritten report extent)
  outcome_of report extent (err f) = report_failed os.abi report f

  -- `Runner::process`
  unfoldable pub process : Report → Extent → Io os Outcome
  process report extent = do
    found ← attempt (locate_holders os fuel fs extent)
    elim found [
      | err f ↦ pure (report_failed os.abi report f)
      | ok answer ↦ elim answer [
        | err reason ↦ pure (ok (some reason), report)
        | ok located ↦ do
          done ← attempt (rewrite extent located)
          pure (outcome_of report extent done)
      ]
    ]
