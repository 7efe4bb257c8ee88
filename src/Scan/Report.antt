-- ===== src/Scan/Report.antt =====
-- What src/scan.rs prints of a scan, a string for each line, and the names of the reasons of
-- src/extent.rs that it prints.
use Prim.Native.String.{String, ◌++◌}
use mathlib.Core.List.{◌++◌ as ◌+++◌}
use btrealloc.Prelude.{ℕ, ◌+◌, ◌^◌, Option, none, some, List, [], ◌∷◌, ◌==◌, if◌then◌else◌}
use btrealloc.Extent.{
  LeftAlone, too_little_to_free, too_much_to_copy, no_data_cow, past_end, changed, unresolved,
  failed, deleted, min_reclaim_bytes, max_copy_ratio,
}
use btrealloc.Format.{Formats, human}
use btrealloc.Scan.{Bucket, LeftAloneStats, ScanStats, all_reasons, is_empty, get, total}
use btrealloc.Run.Process.{Report}

module _ (fmt : Formats) where
  -- `LeftAlone::label`
  unfoldable pub label : LeftAlone → String
  label too_little_to_free = "frees under " ++ human fmt min_reclaim_bytes
  label too_much_to_copy = "copies over " ++ (fmt.show max_copy_ratio ++ "x what it frees")
  label no_data_cow = "held by a nodatacow file"
  label past_end = "held past a file's end"
  label changed = "changed during the scan"
  label unresolved = "holders could not be looked up"
  label failed = "failed to access or rewrite"
  label deleted = "file was deleted"

  -- `"{:>n}  {:>10}  {:>12}  {:>12}  {:>12}"`
  unfoldable pub columns : ℕ → String → String → String → String → String → String
  columns n a b c d e =
      fmt.pad n a
      ++ ("  "
          ++ (fmt.pad 10 b
              ++ ("  " ++ (fmt.pad 12 c ++ ("  " ++ (fmt.pad 12 d ++ ("  " ++ fmt.pad 12 e)))))))

  unfoldable pub row : ℕ → String → Bucket → String
  unfolding columns
  row n name b =
      columns n name (fmt.show b.count) (human fmt b.allocated_bytes) (human fmt b.used_bytes)
        (human fmt b.unreachable_bytes)

  -- The rows of the size classes from one on: those that hold an extent.
  unfoldable pub size_rows : ℕ → List Bucket → List String
  unfolding row
  size_rows log2 [] = []
  size_rows log2 (b ∷ bs) =
      let rest = size_rows (log2 + 1) bs in
      if b.count == 0 then rest else row 12 (human fmt (2 ^ log2)) b ∷ rest

  -- The rows of some reasons; `none` is the panic of an index out of range.
  unfoldable pub reason_rows : LeftAloneStats → List LeftAlone → Option (List String)
  unfolding row label
  reason_rows s [] = some []
  reason_rows s (reason ∷ reasons) = elim (get s reason) [
    | none ↦ none
    | some b ↦ elim (reason_rows s reasons) [
      | none ↦ none
      | some rows ↦ if b.count == 0 then some rows else some (row 32 (label reason) b ∷ rows)
    ]
  ]

  -- `report_left_alone`
  unfoldable pub report_left_alone : LeftAloneStats → Option (List String)
  unfolding reason_rows columns
  report_left_alone s = if is_empty s then some [] else elim (reason_rows s all_reasons) [
    | none ↦ none
    | some rows ↦ some (
        ""
        ∷ "Extents with unreachable space left alone:"
        ∷ columns 32 "reason" "count" "allocated" "used" "unreachable"
        ∷ (rows +++ row 32 "total" (total s) ∷ []))
  ]

  -- The lines of `report` before those of `report_left_alone`.
  unfoldable pub report_sizes : ScanStats → Report → List String
  unfolding size_rows columns
  report_sizes stats run =
      ("extents:            " ++ fmt.show stats.extents)
      ∷ ("allocated:          " ++ human fmt stats.totals.allocated_bytes)
      ∷ ("used:               " ++ human fmt stats.totals.used_bytes)
      ∷ ("unreachable:        " ++ human fmt stats.totals.unreachable_bytes)
      ∷ ("  reclaimable:      " ++ human fmt run.freed_bytes)
      ∷ ("  left alone:       " ++ human fmt (total stats.left_alone_stats).unreachable_bytes)
      ∷ ("  bytes to copy:    " ++ human fmt run.copied_bytes)
      ∷ ""
      ∷ "Extent size rounded down to a power of two:"
      ∷ columns 12 "size" "count" "allocated" "used" "unreachable"
      ∷ size_rows 0 stats.totals.buckets

  -- `ScanStats::report`
  unfoldable pub report : ScanStats → Report → Option (List String)
  unfolding report_left_alone report_sizes
  report stats run = elim (report_left_alone stats.left_alone_stats) [
    | none ↦ none
    | some lines ↦ some (report_sizes stats run +++ lines)
  ]
