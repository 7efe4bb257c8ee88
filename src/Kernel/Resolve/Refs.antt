-- ===== src/Kernel/Resolve/Refs.antt =====
-- Whatever the kernel answers, `resolve` of src/kernel.rs returns references to the extent it was asked
-- for, and at least one.
use btrealloc.Prelude.{ℕ, ◌≡◌, refl, List, [], ◌∷◌}
use btrealloc.Extent.{ExtentRef, Extent, new_extent, from_refs}
use btrealloc.Kernel.Tally.{ExtentItem, Backrefs, files, opaque}
use btrealloc.Kernel.Os.{Os, State, Filesystem}
use btrealloc.Kernel.Keeps.{
  Yields, Keeps, OnWorld, Yields-pure, Yields-if, Yields-bind_attempt, Keeps-pure, Keeps-bind,
}
use btrealloc.Kernel.Keeps.Calls.{Reads}
use btrealloc.Kernel.Keeps.Returning.{Returns, Returns-pure}
use btrealloc.Kernel.Keeps.Reading.{logical_ino-Keeps}
use btrealloc.Kernel.Keeps.Paths.{last_snapshot-Keeps}
use btrealloc.Kernel.Refs.Wanted.{AreRefsTo, collect-Yields}
use btrealloc.Kernel.Resolve.{extent_of, may_be_shared, resolve_by_walk, resolve}

-- An extent at an address, of a size on disk, with references to it and to nothing else.
abbrev pub IsExtentAt : ℕ → ℕ → Extent → Type 0
IsExtentAt address bytes e =
    (e.disk_address ≡ address) × (e.disk_bytes ≡ bytes) × AreRefsTo address bytes e.refs

pub extent_of-Returns :
    {os : Os} (I : os.World → Type 0) (address bytes : ℕ) (refs : List ExtentRef)
    → AreRefsTo address bytes refs
    → Returns (OnWorld {os = os} I) (IsExtentAt address bytes) (extent_of os refs)
unfolding extent_of from_refs new_extent
extent_of-Returns I address bytes [] h = absurd (h.some_ref refl)
extent_of-Returns I address bytes (r ∷ refs) h = Returns-pure _ (h.all.0.0, h.all.0.1, h)

module _ {os : Os} {I : os.World → Type 0} (q : Reads os I) (fuel : ℕ) (fs : Filesystem os) where
  abbrev On : State os → Type 0
  On = OnWorld {os = os} I

  may_be_shared-Keeps : (refs : List ExtentRef) → Keeps On (may_be_shared os fuel fs refs)
  unfolding may_be_shared
  may_be_shared-Keeps [] = Keeps-pure _
  may_be_shared-Keeps (r ∷ refs) =
      Keeps-bind (last_snapshot-Keeps q fuel fs r.root)
        (λ g. Yields-if _ (Keeps-pure _) (may_be_shared-Keeps refs))

  pub resolve_by_walk-Yields :
      (address bytes : ℕ)
      → Yields On (AreRefsTo address bytes) (resolve_by_walk os fuel fs address bytes)
  unfolding resolve_by_walk
  resolve_by_walk-Yields address bytes =
      Keeps-bind (logical_ino-Keeps q fs fuel address)
        (λ ds. collect-Yields q fuel fs address bytes ds)

  pub resolve-Yields :
      (address : ℕ) (item : ExtentItem) (b : Backrefs)
      → Yields On (AreRefsTo address item.disk_bytes) (resolve os fuel fs address item b)
  unfolding resolve
  resolve-Yields address item opaque = resolve_by_walk-Yields address item.disk_bytes
  resolve-Yields address item (files ds) =
      Yields-bind_attempt _ (collect-Yields q fuel fs address item.disk_bytes ds)
        (λ e. resolve_by_walk-Yields address item.disk_bytes)
        (λ refs h. Keeps-bind (may_be_shared-Keeps refs) (λ shared.
          Yields-if shared (resolve_by_walk-Yields address item.disk_bytes) (Yields-pure refs h)))
