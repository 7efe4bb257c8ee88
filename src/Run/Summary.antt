-- ===== src/Run/Summary.antt =====
-- What src/run.rs prints of its rewrites: `describe` and `Runner::finish`.
use Prim.Native.String.{String, ◌++◌}
use mathlib.Core.List.{◌++◌ as ◌+++◌}
use btrealloc.Prelude.{ℕ, Bool, Option, none, some, List, [], ◌∷◌, ◌==◌, if◌then◌else◌, length}
use btrealloc.Extent.{Extent, live_uncompressed_bytes, disk_free_bytes}
use btrealloc.Format.{Formats, human}
use btrealloc.Run.Locate.{Located}
use btrealloc.Run.Process.{Report}

module _ (fmt : Formats) where
  unfoldable pub shared_with : ℕ → String
  shared_with others =
      if others == 0
      then ""
      else if others == 1
      then " (shared with 1 other file)"
      else " (shared with " ++ (fmt.show others ++ " other files)")

  -- `describe`; `none` is a panic, for want of a holder.
  unfoldable pub describe : Extent → List Located → Bool → Option String
  unfolding shared_with
  describe extent [] applied = none
  describe extent (l ∷ ls) applied =
      let copied = human fmt (live_uncompressed_bytes extent) in
      let freed = human fmt (disk_free_bytes extent) in
      let others = shared_with (length ls) in
      let path = fmt.display l.path in
      some (
        if applied
        then path ++ (": copied " ++ (copied ++ (", freed " ++ (freed ++ others))))
        else path ++ (": would copy " ++ (copied ++ (" to free " ++ (freed ++ others)))))

  unfoldable pub skipped_lines : Report → List String
  skipped_lines report = elim report.skipped [
    | [] ↦ []
    | _ ∷ _ ↦ (fmt.show (length report.skipped) ++ " extents could not be rewritten") ∷ []
  ]

  unfoldable pub modified_lines : Report → List String
  modified_lines report = elim report.modified [
    | [] ↦ []
    | _ ∷ _ ↦
        (fmt.show (length report.modified)
          ++ " files were modified by something else while they were being rewritten")
        ∷ []
  ]

  -- `Runner::finish`, and with it the end of `run` before its result.
  unfoldable pub summary : Bool → Report → List String
  unfolding skipped_lines modified_lines
  summary apply report =
      if apply
      then ""
        ∷ ("copied "
            ++ (human fmt report.copied_bytes
                ++ (" to free "
                    ++ (human fmt report.freed_bytes
                        ++ (" from " ++ (fmt.show (length report.rewritten) ++ " extents"))))))
        ∷ (skipped_lines report +++ modified_lines report)
      else []
