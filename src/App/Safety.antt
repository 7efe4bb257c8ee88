-- ===== src/App/Safety.antt =====
-- What `run` of src/lib.rs does to the filesystem.
use btrealloc.Prelude.{ℕ, Bool, false, List, [], ◌∷◌, inl, inr}
use btrealloc.Extent.{Extent}
use btrealloc.Kernel.Os.{Os, FilePath, State, Filesystem}
use btrealloc.Kernel.Keeps.{Keeps, OnWorld, Keeps-pure, Yields-if}
use btrealloc.Kernel.Keeps.Calls.{Reads, Harmless}
use btrealloc.Run.Locate.{Located}
use btrealloc.Run.Process.{rewrite}
use btrealloc.Run.Process.Keeps.{realloc_extent-Keeps}
use btrealloc.Run.Locate.Checked.{IsInode}
use btrealloc.Run.Process.Writes.{IsHeldBy, open-All}
use btrealloc.App.{run}
use btrealloc.App.Keeps.{run-Keeps}

-- The kernel said of an open file which inode of which subvolume it is.
abbrev pub IsChecked : (os : Os) → os.File → Type 0
IsChecked os file = (root : ℕ) × (inode : ℕ) × IsInode os root inode file

IsHeldBy-IsChecked :
    {os : Os} (ls : List Located) (file : os.File) → IsHeldBy os ls file → IsChecked os file
IsHeldBy-IsChecked [] file h = absurd h
IsHeldBy-IsChecked (l ∷ ls) file (inl h) = (l.holder.root, l.holder.inode, h)
IsHeldBy-IsChecked (l ∷ ls) file (inr h) = IsHeldBy-IsChecked ls file h

module _ {os : Os} (I : os.World → Type 0) where
  rewrite_nothing-Keeps :
      (fuel : ℕ) (fs : Filesystem os) (e : Extent) (ls : List Located)
      → Keeps (OnWorld {os = os} I) (rewrite os fuel fs false e ls)
  unfolding rewrite
  rewrite_nothing-Keeps fuel fs e ls = Keeps-pure _

  rewrite-Keeps :
      {IsTemp : os.File → Type 0}
      → Harmless os I IsTemp (IsChecked os)
      → (fuel : ℕ) (fs : Filesystem os) (apply : Bool) (e : Extent) (ls : List Located)
      → Keeps (OnWorld {os = os} I) (rewrite os fuel fs apply e ls)
  unfolding rewrite
  rewrite-Keeps q fuel fs apply e ls =
      Yields-if apply
        (realloc_extent-Keeps q fuel fs e ls
          (open-All q.reads fs (IsChecked os) ls (λ file h. IsHeldBy-IsChecked ls file h)))
        (Keeps-pure _)

-- A dry run, `run` without `apply`, keeps every predicate of the world that the reading calls keep:
-- the searches and look-ups, the openings of files and directories that are there, their metadata,
-- flags and bytes, and `syncfs`. So it neither writes, nor makes a file, nor dedupes, whether it
-- returns or fails.
pub dry_run_reads :
    (os : Os) (I : os.World → Type 0)
    → Reads os I
    → (fuel : ℕ) (path : FilePath) (s : State os) → I s.world
    → I (run os fuel path false s).1.world
dry_run_reads os I q fuel path s h =
    ((run-Keeps q fuel false (rewrite_nothing-Keeps I fuel) path).at s h).0

-- A run, with `apply` or without, keeps every predicate of the world that the reading calls keep, and
-- that is kept by opening a temporary file, by writing to one and changing its flags, and by those
-- dedupes that take their data from one and write to a file of which the kernel said which inode of
-- which subvolume it is. So the files that were there are changed by dedupe alone, and only those that
-- were so checked.
pub run_writes_temporary_files :
    (os : Os) (I : os.World → Type 0) (IsTemp : os.File → Type 0)
    → Harmless os I IsTemp (IsChecked os)
    → (fuel : ℕ) (path : FilePath) (apply : Bool) (s : State os) → I s.world
    → I (run os fuel path apply s).1.world
run_writes_temporary_files os I IsTemp q fuel path apply s h =
    ((run-Keeps q.reads fuel apply (λ fs. rewrite-Keeps I q fuel fs apply) path).at s h).0
