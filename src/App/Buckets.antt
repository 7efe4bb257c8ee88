-- ===== src/App/Buckets.antt =====
-- The loop of `run` keeps an account that adds up.
use btrealloc.Prelude.{ℕ, zero, suc, Bool, true, none, some, if◌then◌else◌}
use btrealloc.Io.{ok, err, stuck, pure, raise, ◌>>=◌, ◌>>◌}
use btrealloc.Extent.{Extent, LeftAlone, not_worth_rewriting}
use btrealloc.Kernel.Os.{Os, FilePath, State, Filesystem, Io}
use btrealloc.Kernel.Files.{sync}
use btrealloc.Kernel.Keeps.{
  Post, Yields, Keeps-anything, Yields-pure, Yields-raise, Yields-if, Yields-option, Yields-bind,
  Yields-bind_found, Keeps-bind,
}
use btrealloc.Scan.{ScanStats, Scanner, resolve_extent_again}
use btrealloc.Scan.Buckets.{
  IsAccount, HasBuckets, Anywhere, some-Yields, count_reason-HasBuckets, new_scanner-HasBuckets,
  resolve_extent_again-HasBuckets, scan_next-HasBuckets,
}
use btrealloc.Run.Process.{Report, Outcome, process}
use btrealloc.App.{
  Progress, open_filesystem, leave, after_process, act_on, step, run_loop, finish_run, run,
}

module _ (os : Os) (fuel : ℕ) where
  module _ (fs : Filesystem os) (apply : Bool) where
    leave-HasBuckets :
        (p : Progress) (reason : LeftAlone) (e : Extent)
        → HasBuckets p.scanner
        → Yields Anywhere (λ p. HasBuckets p.scanner) (leave os fuel fs apply p reason e)
    unfolding leave
    leave-HasBuckets p reason e h =
        Yields-bind (some-Yields HasBuckets _ (count_reason-HasBuckets p.scanner reason (some e) h))
          (λ sc h'. Yields-pure _ h')

    abbrev Steps : Bool × Progress → Type 0
    Steps r = HasBuckets r.1.scanner

    after_process-HasBuckets :
        (sc : Scanner) (e : Extent) (o : Outcome)
        → HasBuckets sc
        → Yields Anywhere Steps (after_process os fuel fs apply sc e o)
    unfolding after_process
    after_process-HasBuckets sc e (ok none, report) h = Yields-pure _ h
    after_process-HasBuckets sc e (ok (some reason), report) h =
        Yields-bind (leave-HasBuckets _ reason e h) (λ p h'. Yields-pure _ h')
    after_process-HasBuckets sc e (err error, report) h =
        Yields-bind (leave-HasBuckets _ _ e h) (λ p h'. Yields-pure _ h')

    act_on-HasBuckets :
        (p : Progress) (e : Extent)
        → HasBuckets p.scanner
        → Yields Anywhere Steps (act_on os fuel fs apply p e)
    unfolding act_on
    act_on-HasBuckets p e h = Yields-if _ (Yields-pure _ h) (
        Yields-option
          (λ o. elim o as (λ _. Io os (Bool × Progress)) [
            | some reason ↦ do p' ← leave os fuel fs apply p reason e; pure (true, p')
            | none ↦ do
              outcome ← process os fuel fs apply p.report e
              after_process os fuel fs apply p.scanner e outcome
          ])
          (Keeps-bind (Keeps-anything (process os fuel fs apply p.report e))
            (λ o. after_process-HasBuckets p.scanner e o h))
          (λ reason. Yields-bind (leave-HasBuckets p reason e h) (λ p' h'. Yields-pure _ h'))
          (not_worth_rewriting e))

    step-HasBuckets :
        (p : Progress) (e : Extent)
        → HasBuckets p.scanner
        → Yields Anywhere Steps (step os fuel fs apply p e)
    unfolding step
    step-HasBuckets p e h = Yields-if _ (Yields-pure _ h) (
        Yields-option
          (λ o. elim o as (λ _. Io os (Bool × Progress)) [
            | some reason ↦ do p' ← leave os fuel fs apply p reason e; pure (true, p')
            | none ↦ do
              (again, sc) ← resolve_extent_again os fuel fs p.scanner e
              elim again as (λ _. Io os (Bool × Progress)) [
                | none ↦ pure (true, record p { scanner = sc })
                | some e' ↦ act_on os fuel fs apply (record p { scanner = sc }) e'
              ]
          ])
          (Yields-bind_found _ (resolve_extent_again-HasBuckets fuel fs p.scanner e h)
            (λ sc h'. Yields-pure _ h') (λ e' sc h'. act_on-HasBuckets _ e' h'))
          (λ reason. Yields-bind (leave-HasBuckets p reason e h) (λ p' h'. Yields-pure _ h'))
          (not_worth_rewriting e))

    run_loop-HasBuckets :
        (rounds : ℕ) (p : Progress)
        → HasBuckets p.scanner
        → Yields Anywhere (λ p. HasBuckets p.scanner) (run_loop os fuel fs apply rounds p)
    unfolding run_loop
    run_loop-HasBuckets zero p h = Yields-raise stuck
    run_loop-HasBuckets (suc rounds) p h =
        Yields-bind_found _ (scan_next-HasBuckets fuel fs fuel p.scanner h)
          (λ sc h'. Yields-pure _ h')
          (λ e sc h'.
            Yields-bind (step-HasBuckets _ e h')
              (λ gone h''. Yields-if _ (run_loop-HasBuckets rounds gone.1 h'') (Yields-pure _ h'')))

    finish_run-IsAccount :
        (p : Progress)
        → HasBuckets p.scanner
        → Yields Anywhere (λ r. IsAccount r.0) (finish_run os fuel fs apply p)
    unfolding finish_run
    finish_run-IsAccount p h =
        Yields-option
          (λ o. elim o as (λ _. Io os (ScanStats × Report)) [
            | some e ↦ raise e
            | none ↦
                if apply
                then (sync os fs >> pure (p.scanner.stats, p.report))
                else pure (p.scanner.stats, p.report)
          ])
          (Yields-if apply (Keeps-bind (Keeps-anything (sync os fs)) (λ done. Yields-pure _ h))
            (Yields-pure _ h))
          (λ e. Yields-raise e) p.scanner.error

  run-Yields :
      (path : FilePath) (apply : Bool)
      → Yields Anywhere (λ r. IsAccount r.0) (run os fuel path apply)
  unfolding run
  run-Yields path apply = Keeps-bind (Keeps-anything (open_filesystem os path)) (λ fs.
      Yields-if _ (Yields-raise _) (
        Yields-bind (new_scanner-HasBuckets fuel fs) (λ sc h.
          Yields-bind (run_loop-HasBuckets fs apply fuel _ h)
            (λ p h'. finish_run-IsAccount fs apply p h'))))

  -- Whatever the kernel answers, `run` fails with an error, or the account that it returns adds up: each
  -- total of bytes is the sum over the 64 size classes, what is allocated is what is used and what is
  -- unreachable, the extents found are as many as the size classes count (all as 64-bit counters), and
  -- there is a bucket for each of the eight reasons to leave an extent alone.
  pub run-IsAccount :
      (path : FilePath) (apply : Bool) (s : State os)
      → Post (λ r. IsAccount r.0) (run os fuel path apply s).0
  run-IsAccount path apply s = ((run-Yields path apply).at s tt).1
