-- ===== src/Kernel/Refs/Wanted.antt =====
-- Whatever the kernel answers, `collect` of src/kernel.rs returns references to the extent it was asked
-- for, and at least one.
use btrealloc.Prelude.{
  ℕ, ◌≡◌, ◌≢◌, Option, none, some, List, [], ◌∷◌, arith, All, All-append, Bool-cases, inl, inr,
}
use btrealloc.Extent.{ExtentRef}
use btrealloc.Kernel.Tally.{DataRef}
use btrealloc.Kernel.Os.{Os, State, Filesystem}
use btrealloc.Kernel.Keeps.{Yields, OnWorld, Yields-pure, Yields-raise, Yields-if, Yields-bind}
use btrealloc.Kernel.Keeps.Calls.{Reads}
use btrealloc.Kernel.Keeps.Reading.{tree_search_all-Yields}
use btrealloc.Kernel.Refs.{
  ref_of_item, or_skip, is_wanted, push_wanted, search_extent_refs, data_ref_extents, collect_loop,
  or_unreferenced, collect,
}

-- A reference to the extent at an address, of a size on disk.
abbrev pub RefersTo : ℕ → ℕ → ExtentRef → Type 0
RefersTo address bytes r = (r.disk_address ≡ address) × (r.disk_bytes ≡ bytes)

-- Some references, all to one extent.
pub record AreRefsTo (address bytes : ℕ) (refs : List ExtentRef) : Type 0 where
  pub some_ref : refs ≢ []
  pub all : All (RefersTo address bytes) refs

module _ (d : DataRef) (address bytes : ℕ) where
  push_wanted-All :
      (r : ExtentRef) (refs : List ExtentRef)
      → All (RefersTo address bytes) refs
      → All (RefersTo address bytes) (push_wanted d address bytes r refs)
  unfolding push_wanted is_wanted
  push_wanted-All r refs h = elim (Bool-cases (is_wanted d address bytes r)) [
    | inl e ↦
        let wanted : RefersTo address bytes r = ground arith in
        rw e (All-append (RefersTo address bytes) refs (r ∷ []) h (wanted, tt))
    | inr e ↦ rw e h
  ]

  or_skip-All :
      (o : Option ExtentRef) (refs : List ExtentRef)
      → All (RefersTo address bytes) refs
      → All (RefersTo address bytes) (or_skip (push_wanted d address bytes) o refs)
  or_skip-All none refs h = h
  or_skip-All (some r) refs h = push_wanted-All r refs h

module _ {os : Os} {I : os.World → Type 0} (q : Reads os I) (fuel : ℕ) (fs : Filesystem os)
    (address bytes : ℕ) where
  abbrev On : State os → Type 0
  On = OnWorld {os = os} I

  data_ref_extents-Yields :
      (d : DataRef) (refs : List ExtentRef)
      → All (RefersTo address bytes) refs
      → Yields On (All (RefersTo address bytes)) (data_ref_extents os fuel fs d address bytes refs)
  unfolding data_ref_extents search_extent_refs
  data_ref_extents-Yields d refs h =
      tree_search_all-Yields q fs _ (All (RefersTo address bytes))
        (λ header item refs h.
          or_skip-All d address bytes (ref_of_item os.abi d.root d.inode header item) refs h)
        fuel _ refs h

  collect_loop-Yields :
      (ds : List DataRef) (refs : List ExtentRef)
      → All (RefersTo address bytes) refs
      → Yields On (All (RefersTo address bytes)) (collect_loop os fuel fs address bytes ds refs)
  unfolding collect_loop
  collect_loop-Yields [] refs h = Yields-pure refs h
  collect_loop-Yields (d ∷ ds) refs h =
      Yields-bind (data_ref_extents-Yields d refs h)
        (λ refs' h'. Yields-if _ (Yields-raise _) (collect_loop-Yields ds refs' h'))

  or_unreferenced-Yields :
      (refs : List ExtentRef)
      → All (RefersTo address bytes) refs
      → Yields On (AreRefsTo address bytes) (or_unreferenced os fuel fs refs)
  unfolding or_unreferenced
  or_unreferenced-Yields [] h = Yields-raise _
  or_unreferenced-Yields (r ∷ refs) h = Yields-pure _ (record { some_ref = λ e. cc; all = h })

  pub collect-Yields :
      (ds : List DataRef)
      → Yields On (AreRefsTo address bytes) (collect os fuel fs address bytes ds)
  unfolding collect
  collect-Yields ds =
      Yields-bind (collect_loop-Yields ds [] tt) (λ refs h. or_unreferenced-Yields refs h)
