-- ===== src/App/Keeps.antt =====
-- The loop of `run` keeps whatever the reading calls keep, if the rewriting of one extent does.
use btrealloc.Prelude.{ℕ, zero, suc, Bool, true, none, some, List, [], if◌then◌else◌}
use btrealloc.Io.{ok, err, stuck, pure, raise, ◌>>=◌, ◌>>◌}
use btrealloc.Extent.{Extent, LeftAlone, not_worth_rewriting}
use btrealloc.Kernel.Os.{Os, FilePath, State, Filesystem, Io}
use btrealloc.Kernel.Keeps.{
  Keeps, OnWorld, Yields-raise, Keeps-pure, Yields-if, Yields-option, Keeps-bind, Keeps-bind_result,
  Keeps-bind_found, Keeps-attempt, Keeps-on_world, Yields-result, Keeps-of_Yields, keeps_rules,
}
use btrealloc.Kernel.Keeps.Calls.{Reads}
use btrealloc.Kernel.Keeps.Files.{open_beneath_directory-Keeps, own_root_id-Keeps, sync-Keeps}
use btrealloc.Kernel.Files.{sync}
use btrealloc.Scan.{Scanner, ScanStats, resolve_extent_again}
use btrealloc.Scan.Keeps.{
  or_panic-Keeps, new_scanner-Keeps, resolve_extent_again-Keeps, scan_next-Keeps,
}
use btrealloc.Run.Locate.{Located}
use btrealloc.Run.Locate.Keeps.{locate_holders-Yields}
use btrealloc.Run.Process.{Report, Outcome, rewrite, process}
use btrealloc.App.{
  Progress, open_private, open_filesystem, leave, after_process, act_on, step, run_loop, finish_run,
  run,
}

module _ {os : Os} {I : os.World → Type 0} (q : Reads os I) where
  abbrev On : State os → Type 0
  On = OnWorld {os = os} I

  open_private-Keeps : (f : os.File) → Keeps On (open_private os f)
  unfolding open_private
  open_private-Keeps f =
      Keeps-bind_result _ (Keeps-attempt (Keeps-on_world I (os.open_tree f) (q.open_tree f)))
        (λ e. Yields-raise _) (λ mount. open_beneath_directory-Keeps q mount [])

  open_filesystem-Keeps : (path : FilePath) → Keeps On (open_filesystem os path)
  unfolding open_filesystem
  open_filesystem-Keeps path =
      search
        (keeps_rules, q.open_path, q.fstatfs, q.metadata, own_root_id-Keeps q, open_private-Keeps)
        depth 24

  module _ (fuel : ℕ) (apply : Bool)
      (kr : (fs : Filesystem os) (e : Extent) (ls : List Located)
        → Keeps On (rewrite os fuel fs apply e ls)) where
    module _ (fs : Filesystem os) where
      process-Keeps : (report : Report) (e : Extent) → Keeps On (process os fuel fs apply report e)
      unfolding process
      process-Keeps report e =
          Keeps-bind_result _ (Keeps-attempt (Keeps-of_Yields (locate_holders-Yields q fs fuel e)))
            (λ f. Keeps-pure _)
            (Yields-result _ (λ reason. Keeps-pure _)
              (λ located. Keeps-bind (Keeps-attempt (kr fs e located)) (λ done. Keeps-pure _)))

      leave-Keeps :
          (p : Progress) (reason : LeftAlone) (e : Extent)
          → Keeps On (leave os fuel fs apply p reason e)
      unfolding leave
      leave-Keeps p reason e = Keeps-bind (or_panic-Keeps _) (λ sc. Keeps-pure _)

      after_process-Keeps :
          (sc : Scanner) (e : Extent) (o : Outcome)
          → Keeps On (after_process os fuel fs apply sc e o)
      unfolding after_process
      after_process-Keeps sc e (ok none, report) = Keeps-pure _
      after_process-Keeps sc e (ok (some reason), report) =
          Keeps-bind (leave-Keeps _ reason e) (λ p. Keeps-pure _)
      after_process-Keeps sc e (err error, report) =
          Keeps-bind (leave-Keeps _ _ e) (λ p. Keeps-pure _)

      act_on-Keeps : (p : Progress) (e : Extent) → Keeps On (act_on os fuel fs apply p e)
      unfolding act_on
      act_on-Keeps p e = Yields-if _ (Keeps-pure _) (
          Yields-option
            (λ o. elim o as (λ _. Io os (Bool × Progress)) [
              | some reason ↦ do p' ← leave os fuel fs apply p reason e; pure (true, p')
              | none ↦ do
                outcome ← process os fuel fs apply p.report e
                after_process os fuel fs apply p.scanner e outcome
            ])
            (Keeps-bind (process-Keeps p.report e) (after_process-Keeps p.scanner e))
            (λ reason. Keeps-bind (leave-Keeps p reason e) (λ p'. Keeps-pure _))
            (not_worth_rewriting e))

      step-Keeps : (p : Progress) (e : Extent) → Keeps On (step os fuel fs apply p e)
      unfolding step
      step-Keeps p e = Yields-if _ (Keeps-pure _) (
          Yields-option
            (λ o. elim o as (λ _. Io os (Bool × Progress)) [
              | some reason ↦ do p' ← leave os fuel fs apply p reason e; pure (true, p')
              | none ↦ do
                (again, sc) ← resolve_extent_again os fuel fs p.scanner e
                elim again as (λ _. Io os (Bool × Progress)) [
                  | none ↦ pure (true, record p { scanner = sc })
                  | some e' ↦ act_on os fuel fs apply (record p { scanner = sc }) e'
                ]
            ])
            (Keeps-bind_found _ (resolve_extent_again-Keeps q fuel fs p.scanner e)
              (λ sc. Keeps-pure _) (λ e' sc. act_on-Keeps _ e'))
            (λ reason. Keeps-bind (leave-Keeps p reason e) (λ p'. Keeps-pure _))
            (not_worth_rewriting e))

      run_loop-Keeps : (rounds : ℕ) (p : Progress) → Keeps On (run_loop os fuel fs apply rounds p)
      unfolding run_loop
      run_loop-Keeps zero p = Yields-raise stuck
      run_loop-Keeps (suc rounds) p =
          Keeps-bind_found _ (scan_next-Keeps q fuel fs fuel p.scanner) (λ sc. Keeps-pure _)
            (λ e sc.
              Keeps-bind (step-Keeps _ e)
                (λ gone. Yields-if _ (run_loop-Keeps rounds gone.1) (Keeps-pure _)))

      finish_run-Keeps : (p : Progress) → Keeps On (finish_run os fuel fs apply p)
      unfolding finish_run
      finish_run-Keeps p =
          Yields-option
            (λ o. elim o as (λ _. Io os (ScanStats × Report)) [
              | some e ↦ raise e
              | none ↦
                  if apply
                  then (sync os fs >> pure (p.scanner.stats, p.report))
                  else pure (p.scanner.stats, p.report)
            ])
            (Yields-if apply (Keeps-bind (sync-Keeps q fs) (λ done. Keeps-pure _)) (Keeps-pure _))
            (λ e. Yields-raise e) p.scanner.error

    pub run-Keeps : (path : FilePath) → Keeps On (run os fuel path apply)
    unfolding run
    run-Keeps path = Keeps-bind (open_filesystem-Keeps path) (λ fs. Yields-if _ (Yields-raise _) (
        Keeps-bind (new_scanner-Keeps q fuel fs)
          (λ sc. Keeps-bind (run_loop-Keeps fs fuel _) (λ p. finish_run-Keeps fs p))))
