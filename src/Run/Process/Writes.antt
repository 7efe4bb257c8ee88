-- ===== src/Run/Process/Writes.antt =====
-- Which files `realloc_extent` of src/run.rs writes to.
use btrealloc.Prelude.{ℕ, List, [], ◌∷◌, All, ◌⊎◌, inl, inr}
use btrealloc.Extent.{Extent}
use btrealloc.Kernel.Os.{Os, State, Filesystem}
use btrealloc.Kernel.Keeps.{Yields, OnWorld, Yields-mono}
use btrealloc.Kernel.Keeps.Calls.{Reads, Harmless}
use btrealloc.Run.Locate.{Located, open_located}
use btrealloc.Run.Locate.Checked.{IsInode, open_located-Yields}
use btrealloc.Run.Process.{realloc_extent}
use btrealloc.Run.Process.Keeps.{realloc_extent-Keeps}

-- The kernel said of an open file that it is the inode of one of the holders.
abbrev pub IsHeldBy : (os : Os) → List Located → os.File → Type 0
IsHeldBy os [] file = ⊥
IsHeldBy os (l ∷ ls) file = IsInode os l.holder.root l.holder.inode file ⊎ IsHeldBy os ls file

module _ {os : Os} {I : os.World → Type 0} (q : Reads os I) (fs : Filesystem os)
    (IsDest : os.File → Type 0) where
  pub open-All :
      (ls : List Located)
      → ((file : os.File) → IsHeldBy os ls file → IsDest file)
      → All (λ l. Yields (OnWorld {os = os} I) IsDest (open_located os fs l)) ls
  open-All [] held = tt
  open-All (l ∷ ls) held = (
    Yields-mono (λ file h. held file (inl h)) (open_located-Yields q fs l),
    open-All ls (λ file h. held file (inr h)),
  )

-- Rewriting an extent keeps every predicate of the world that the reading calls keep, and that is kept
-- by opening a temporary file, by writing to one and changing its flags, and by those dedupes that take
-- their data from one and write to a file of which the kernel said that it is the inode of one of the
-- holders given, and of its subvolume. So it writes to no other file, whatever the paths of the holders
-- lead to when they are opened.
pub realloc_extent_writes_holders :
    (os : Os) (I : os.World → Type 0) (IsTemp : os.File → Type 0) (ls : List Located)
    → Harmless os I IsTemp (IsHeldBy os ls)
    → (fuel : ℕ) (fs : Filesystem os) (e : Extent) (s : State os) → I s.world
    → I (realloc_extent os fuel fs e ls s).1.world
realloc_extent_writes_holders os I IsTemp ls q fuel fs e s h =
    ((realloc_extent-Keeps q fuel fs e ls
        (open-All q.reads fs (IsHeldBy os ls) ls (λ file held. held))).at
      s h).0
