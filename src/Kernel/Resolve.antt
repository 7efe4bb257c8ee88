-- ===== src/Kernel/Resolve.antt =====
-- `resolve`, `resolve_again` and `may_be_shared` of src/kernel.rs: every reference to an extent.
pub mod Refs
pub mod Trusted
use btrealloc.Prelude.{ℕ, Bool, true, false, none, some, List, [], ◌∷◌, leb, if◌then◌else◌}
use btrealloc.Io.{ok, err, panicked, pure, raise, attempt, ◌>>=◌}
use btrealloc.Extent.{ExtentRef, Extent, from_refs}
use btrealloc.Kernel.Tally.{ExtentItem, Backrefs, files, opaque}
use btrealloc.Kernel.Os.{Os, Filesystem, Io}
use btrealloc.Kernel.Refs.{collect}
use btrealloc.Kernel.Backrefs.{logical_ino}
use btrealloc.Kernel.Subvolumes.{last_snapshot}

-- `Extent::from_refs`, as a step of an action.
unfoldable pub extent_of : (os : Os) → List ExtentRef → Io os Extent
extent_of os refs = elim (from_refs refs) [ none ↦ raise panicked | some extent ↦ pure extent ]

module _ (os : Os) (fuel : ℕ) (fs : Filesystem os) where
  unfoldable pub may_be_shared : List ExtentRef → Io os Bool
  may_be_shared [] = pure false
  may_be_shared (r ∷ refs) = do
    generation ← last_snapshot os fuel fs r.root
    if leb r.leaf_generation generation then pure true else may_be_shared refs

  -- The backreference walk, and the items that it leads to.
  unfoldable pub resolve_by_walk : ℕ → ℕ → Io os (List ExtentRef)
  resolve_by_walk disk_address disk_bytes = do
    data_refs ← logical_ino os fs fuel disk_address
    collect os fuel fs disk_address disk_bytes data_refs

  unfoldable pub resolve : ℕ → ExtentItem → Backrefs → Io os (List ExtentRef)
  resolve disk_address item opaque = resolve_by_walk disk_address item.disk_bytes
  resolve disk_address item (files data_refs) = do
    found ← attempt (collect os fuel fs disk_address item.disk_bytes data_refs)
    elim found [
      | err e ↦ resolve_by_walk disk_address item.disk_bytes
      | ok refs ↦ do
        shared ← may_be_shared refs
        if shared then resolve_by_walk disk_address item.disk_bytes else pure refs
    ]

  unfoldable pub resolve_again : Extent → Io os Extent
  resolve_again extent = do
    refs ← resolve_by_walk extent.disk_address extent.disk_bytes
    extent_of os refs
