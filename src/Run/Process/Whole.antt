-- ===== src/Run/Process/Whole.antt =====
-- `realloc_extent` of src/run.rs as a whole: what it read of an extent is all that its files hold of it
-- in whole sectors, and all of that was moved.
use btrealloc.Prelude.{ℕ, suc, ◌*◌, ◌≤◌, ◌<◌, ◌≡◌, List}
use mathlib.Core.List.{Memᴰ}
use mathlib.Core.List.Memᴰ as M
use btrealloc.Extent.{Extent}
use btrealloc.Kernel.Os.{Os, State, Filesystem}
use btrealloc.Run.Locate.{Located}
use btrealloc.Run.Copy.{Source, LiveRange}
use btrealloc.Prelude.{Link}
use btrealloc.Run.Copy.Filling.{given_to}
use btrealloc.Run.Redirect.Moved.{IsMoved}
use btrealloc.Run.Redirect.Files.{IsRedirected}
use btrealloc.Run.Process.{first_path}
use btrealloc.Run.Process.Finished.{Measured}
use btrealloc.Run.Process.Rewritten.{IsStaged, IsRewritten}

module _ (os : Os) (fuel : ℕ) (fs : Filesystem os) (size : Located → ℕ) where
  module _ (extent : Extent) (located : List Located) (s s' : State os)
      (w : IsRewritten os fuel fs extent located s s') where
    abbrev Staged : LiveRange → State os → State os → Type 0
    Staged = IsStaged os fuel fs (first_path os fuel fs located) w.befores

    -- That a byte of the extent was moved for a reference: one of the stretches that were read of the
    -- extent holds it, which was written to a temporary file, and while the files were pointed at that,
    -- the reference's holder was opened, and a dedupe from the one to the other has moved the byte.
    pub record WasMoved (src : Source) (x : ℕ) : Type 0 where
      pub range : LiveRange
      pub starts : range.start ≤ x
      pub ends : x < range.end
      pub staging : Link Staged range w.stretches w.ready w.moved
      pub measured : Measured
      pub is_holder : measured.0 ≡ src.1
      pub redirecting :
          Link
            (λ m t u. IsRedirected os fs staging.step.temp range m.0 m.1.filesize t u)
            measured
            w.befores
            staging.step.after
            staging.after
      pub is_moved :
          IsMoved os fs staging.step.temp redirecting.step.file range src.0 x
            redirecting.step.opened redirecting.after

    -- That every byte of every whole sector that a reference's file has data for was moved.
    abbrev pub SectorsMoved : Source → Type 0
    SectorsMoved src =
        (k x : ℕ)
        → src.0.extent_offset ≤ k * fs.sectorsize
        → suc k * fs.sectorsize ≤ given_to os fs size src
        → k * fs.sectorsize ≤ x
        → x < suc k * fs.sectorsize
        → WasMoved src x
