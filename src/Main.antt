-- ===== src/Main.antt =====
-- `main` of src/main.rs, from the options on that `parse_options` returns: the lines that it prints to
-- stdout itself, before and after those of `run`, and the status that it exits with.
pub mod Status
pub mod Logger
pub mod Prefix
pub mod Arguments
use Prim.Native.String.{String, ◌++◌}
use mathlib.Core.List.{◌++◌ as ◌+++◌}
use btrealloc.Prelude.{ℕ, Bool, not, Option, none, some, List, [], ◌∷◌, ◌==◌, if◌then◌else◌}
use btrealloc.Io.{Result, ok, err, IoError}
use btrealloc.Format.{Formats}
use btrealloc.Kernel.Os.{Os, FilePath, State}
use btrealloc.Scan.{ScanStats}
use btrealloc.Scan.Report.{report, report_left_alone}
use btrealloc.Run.Process.{Report}
use btrealloc.App.{run}

-- `Options`
pub record Options : Type 0 where
  pub path : FilePath
  pub apply : Bool

-- `ExitCode`, or the end by a panic.
pub data ExitStatus : Type 0 where
  success failure panic : ExitStatus

abbrev pub Ended : Type 0
Ended = ExitStatus × List String

-- What a report had printed before it panicked is left out.
unfoldable pub print_or_panic : List String → Option (List String) → List String → Ended
print_or_panic before none after = (panic, before)
print_or_panic before (some lines) after = (success, before +++ (lines +++ after))

module _ (fmt : Formats) where
  abbrev pub scanning : Options → String
  scanning options = "Scanning: " ++ fmt.display options.path

  -- What `main` does with the result of `run`.
  unfoldable pub conclude : Options → Result IoError (ScanStats × Report) → Ended
  unfolding print_or_panic
  conclude options (err e) = (failure, scanning options ∷ [])
  conclude options (ok (stats, done)) =
      if options.apply
      then print_or_panic (scanning options ∷ []) (report_left_alone fmt stats.left_alone_stats) []
      else print_or_panic (scanning options ∷ "" ∷ []) (report fmt stats done)
          ("" ∷ "Nothing written. Run with --apply to reallocate extents." ∷ [])

  -- `main`, for the user that `geteuid` returns.
  unfoldable pub main : (os : Os) → ℕ → ℕ → Options → State os → Ended × State os
  unfolding conclude
  main os fuel user options s =
      if not (user == 0)
      then ((failure, []), s)
      else let (result, s') = run os fuel options.path options.apply s in
        (conclude options result, s')
