-- ===== src/Main/Status.antt =====
-- The status that `main` of src/main.rs exits with.
use Prim.Native.String.{String}
use btrealloc.Prelude.{
  ℕ, ◌≡◌, refl, none, some, List, [], ◌∷◌, ◌++◌, ◌==◌, if◌then◌else◌, Bool-cases, inl, inr,
}
use btrealloc.Io.{Result, ok, err, IoError}
use btrealloc.Extent.{LeftAlone}
use btrealloc.Format.{Formats}
use btrealloc.Kernel.Os.{Os, State}
use btrealloc.Kernel.Keeps.{Post}
use btrealloc.Scan.{LeftAloneStats, ScanStats, is_empty, total, all_reasons}
use btrealloc.Scan.Reasons.{add_left_alone-Counts}
use btrealloc.Scan.Buckets.{Complete, IsAccount}
use btrealloc.Scan.Report.{label, columns, row, reason_rows, report_left_alone, report}
use btrealloc.Run.Process.{Report}
use btrealloc.App.{run}
use btrealloc.App.Buckets.{run-IsAccount}
use btrealloc.Main.{Options, ExitStatus, success, failure, print_or_panic, conclude, main}

-- What the result of a run comes to.
abbrev pub status_of : Result IoError (ScanStats × Report) → ExitStatus
status_of (ok done) = success
status_of (err e) = failure

module _ (fmt : Formats) where
  reason_rows-some :
      (s : LeftAloneStats)
      → Complete s
      → (reasons : List LeftAlone) → (rows : List String) × (reason_rows fmt s reasons ≡ some rows)
  unfolding reason_rows
  reason_rows-some s h [] = ([], refl)
  reason_rows-some s h (reason ∷ reasons) =
      let c = add_left_alone-Counts s reason none h in
      let (rows, e) = reason_rows-some s h reasons in
      elim (Bool-cases (c.bucket.count == 0)) [
        | inl z ↦ (rows, rw (reason_rows, c.before, e, z) refl)
        | inr z ↦
            (row fmt 32 (label fmt reason) c.bucket ∷ rows, rw (reason_rows, c.before, e, z) refl)
      ]

  report_left_alone-some :
      (s : LeftAloneStats)
      → Complete s
      → (lines : List String) × (report_left_alone fmt s ≡ some lines)
  unfolding report_left_alone
  report_left_alone-some s h =
      let (rows, e) = reason_rows-some s h all_reasons in
      elim (Bool-cases (is_empty s)) [
        | inl z ↦ ([], rw (report_left_alone, z) refl)
        | inr z ↦ (
          ""
              ∷ "Extents with unreachable space left alone:"
              ∷ columns fmt 32 "reason" "count" "allocated" "used" "unreachable"
              ∷ (rows ++ row fmt 32 "total" (total s) ∷ []),
          rw (report_left_alone, z, e) refl,
        )
      ]

  conclude-status :
      (options : Options) (r : Result IoError (ScanStats × Report))
      → Post (λ done. IsAccount done.0) r
      → (conclude fmt options r).0 ≡ status_of r
  unfolding conclude print_or_panic report
  conclude-status options (err e) h = refl
  conclude-status options (ok (stats, done)) h =
      let (lines, e) = report_left_alone-some stats.left_alone_stats h.complete in
      elim (Bool-cases options.apply) [ inl a ↦ rw (a, e) refl | inr a ↦ rw (a, report, e) refl ]

  -- Whatever the kernel answers: where the user is not root, `main` exits with failure; where it is, with
  -- failure if the run ends with an error, and with success if it does not. It never ends by a panic
  -- while it prints the reports, since the run's account has a bucket for each reason.
  pub main-status :
      (os : Os) (fuel user : ℕ) (options : Options) (s : State os)
      → (main fmt os fuel user options s).0.0
        ≡ (if user == 0 then status_of (run os fuel options.path options.apply s).0 else failure)
  unfolding main
  main-status os fuel user options s = elim (Bool-cases (user == 0)) [
    | inl root ↦ rw root (
        conclude-status options (run os fuel options.path options.apply s).0
          (run-IsAccount os fuel options.path options.apply s))
    | inr other ↦ rw other refl
  ]
