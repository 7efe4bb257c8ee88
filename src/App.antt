-- ===== src/App.antt =====
-- `run` of src/lib.rs: the loop over the extents of a filesystem, and `Filesystem::open` before it.
pub mod Keeps
pub mod Opening
pub mod Buckets
pub mod Safety
use btrealloc.Prelude.{
  ℕ, zero, suc, ◌/◌, ◌%◌, Bool, true, false, ◌&&◌, not, none, some, [], ◌==◌, if◌then◌else◌,
}
use btrealloc.Io.{
  ok, err, IoError, custom, kind, other_error, stuck, pure, raise, attempt, ◌>>=◌, ◌>>◌,
}
use btrealloc.Extent.{Extent, LeftAlone, failed, disk_free_bytes, not_worth_rewriting}
use btrealloc.Kernel.Os.{Os, FilePath, directory, Filesystem, Io, on_world}
use btrealloc.Kernel.Files.{open_beneath, own_root_id, sync}
use btrealloc.Scan.{
  ScanStats, Scanner, or_panic, count_reason, new_scanner, resolve_extent_again, scan_next,
}
use btrealloc.Run.Process.{Report, empty_report, Outcome, process}

-- `is_power_of_two`, for a `u64`.
unfoldable pub power_loop : ℕ → ℕ → Bool
power_loop zero n = false
power_loop (suc bits) n =
    let rest = power_loop bits (n / 2) in
    if n == 1 then true else if n % 2 == 1 then false else rest

unfoldable pub is_power_of_two : ℕ → Bool
unfolding power_loop
is_power_of_two n = power_loop 64 n

-- The scanner and the report, as the loop goes on.
pub record Progress : Type 0 where
  pub scanner : Scanner
  pub report : Report

module _ (os : Os) where
  -- A private mount that could not be made: the error, with its kind.
  abbrev pub private_mount_error : IoError → IoError
  private_mount_error e = custom (kind e) "making a private mount to work through"

  unfoldable pub open_private : os.File → Io os os.File
  open_private file = do
    private ← attempt (on_world (os.open_tree file))
    elim private [
      | err e ↦ raise (private_mount_error e)
      | ok mount ↦ open_beneath os mount [] directory
    ]

  -- `Filesystem::open`
  unfoldable pub open_filesystem : FilePath → Io os (Filesystem os)
  open_filesystem path = do
    file ← on_world (os.open_path path)
    stat ← on_world (os.fstatfs file)
    if not (stat.fs_type == os.abi.super_magic)
        then raise (other_error "not on a btrfs filesystem")
        else if not (is_power_of_two stat.block_size)
        then raise (other_error "sector size is not a power of two")
        else do
          meta ← on_world (os.metadata file)
          if not meta.is_dir then raise (other_error "not a directory") else do
            root ← own_root_id os file
            if not (root == os.abi.fs_tree_objectid)
                then raise (other_error "not the top-level subvolume")
                else if not (meta.ino == os.abi.first_free_objectid)
                then raise (other_error "a directory inside the top-level subvolume")
                else do
                  top ← open_private file
                  pure (record {
                    file = top;
                    mount = path;
                    sectorsize = stat.block_size;
                    read_only = stat.is_read_only;
                  })

module _ (os : Os) (fuel : ℕ) (fs : Filesystem os) (apply : Bool) where
  -- `scanner.stats.left_alone.add(reason, Some(&extent))`
  unfoldable pub leave : Progress → LeftAlone → Extent → Io os Progress
  leave p reason extent = do
    sc ← or_panic (count_reason p.scanner reason (some extent))
    pure (record p { scanner = sc })

  -- What the loop does with the outcome of an extent, and whether it goes on.
  unfoldable pub after_process : Scanner → Extent → Outcome → Io os (Bool × Progress)
  after_process sc extent (ok none, report) = pure (true, record { scanner = sc; report = report })
  after_process sc extent (ok (some reason), report) = do
    p ← leave (record { scanner = sc; report = report }) reason extent
    pure (true, p)
  after_process sc extent (err e, report) = do
    p ← leave (record { scanner = sc; report = report }) failed extent
    pure (false, record p { scanner = record p.scanner { error = some e } })

  -- The body of the loop from the second look at an extent on.
  unfoldable pub act_on : Progress → Extent → Io os (Bool × Progress)
  act_on p extent =
      if disk_free_bytes extent == 0 then pure (true, p) else elim (not_worth_rewriting extent) [
        | some reason ↦ do p' ← leave p reason extent; pure (true, p')
        | none ↦ do
          outcome ← process os fuel fs apply p.report extent
          after_process p.scanner extent outcome
      ]

  -- The body of the loop: whether it goes on, and what has changed.
  unfoldable pub step : Progress → Extent → Io os (Bool × Progress)
  step p extent =
      if disk_free_bytes extent == 0 then pure (true, p) else elim (not_worth_rewriting extent) [
        | some reason ↦ do p' ← leave p reason extent; pure (true, p')
        | none ↦ do
          (again, sc) ← resolve_extent_again os fuel fs p.scanner extent
          elim again [
            | none ↦ pure (true, record p { scanner = sc })
            | some extent' ↦ act_on (record p { scanner = sc }) extent'
          ]
      ]

  -- `while let Some(extent) = scanner.next()`, with fuel for the extents.
  unfoldable pub run_loop : ℕ → Progress → Io os Progress
  run_loop zero p = raise stuck
  run_loop (suc rounds) p = do
    (found, sc) ← scan_next os fuel fs fuel p.scanner
    elim found [
      | none ↦ pure (record p { scanner = sc })
      | some extent ↦ do
        (goes_on, p') ← step (record p { scanner = sc }) extent
        if goes_on then run_loop rounds p' else pure p'
    ]

  -- The end of `run`: the error that ended the walk, or the account, committed by a sync.
  unfoldable pub finish_run : Progress → Io os (ScanStats × Report)
  finish_run p = elim p.scanner.error [
    | some e ↦ raise e
    | none ↦
        if apply
        then (sync os fs >> pure (p.scanner.stats, p.report))
        else pure (p.scanner.stats, p.report)
  ]

module _ (os : Os) (fuel : ℕ) where
  -- `run`
  unfoldable pub run : FilePath → Bool → Io os (ScanStats × Report)
  run path apply = do
    fs ← open_filesystem os path
    if apply && fs.read_only then raise (other_error "mounted read-only") else do
      sc ← new_scanner os fuel fs
      p ← run_loop os fuel fs apply fuel (record { scanner = sc; report = empty_report })
      finish_run os fuel fs apply p
