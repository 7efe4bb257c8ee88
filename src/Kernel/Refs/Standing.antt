-- ===== src/Kernel/Refs/Standing.antt =====
-- Which file extents of a subvolume's tree a reference of the extent tree stands for, as btrfs lays them
-- out: what `search_extent_refs` and `data_ref_extents` of src/kernel.rs are to find.
use btrealloc.Prelude.{
  ℕ, ◌≡◌, refl, max, Bool, Option, none, some, List, [], ◌∷◌, arith, ltb, leb, ◌==◌, ◌&&◌, ◌||◌,
  if◌then◌else◌, add64, sub64, Bool-cases, inl, inr,
}
use btrealloc.Abi.{Abi, Header, RawFileExtent}
use btrealloc.Extent.{ExtentRef}
use btrealloc.Kernel.Search.{search_all_of, set_range}
use btrealloc.Kernel.Search.Items.{Item}
use btrealloc.Kernel.Search.Resume.{select, in_range}
use btrealloc.Kernel.Tally.{DataRef, RefOffsets, base, between}
use btrealloc.Kernel.Os.{Os, Filesystem}
use btrealloc.Kernel.Refs.{ref_of_item, to_extent_ref, offset_window, belongs, is_wanted, inode_key}

abbrev pub cons_some : {A : Type 0} → Option A → List A → List A
cons_some none xs = xs
cons_some (some x) xs = x ∷ xs

unfoldable pub only : (ExtentRef → Bool) → List ExtentRef → List ExtentRef
only p [] = []
only p (r ∷ rs) = if p r then r ∷ only p rs else only p rs

pub only-ext :
    (p q : ExtentRef → Bool)
    → ((r : ExtentRef) → p r ≡ q r)
    → (rs : List ExtentRef) → only p rs ≡ only q rs
unfolding only
only-ext p q e [] = refl
only-ext p q e (r ∷ rs) = rw (e r, only-ext p q e rs) refl

module _ (abi : Abi) (root inode : ℕ) where
  -- The extent that the body of a file's item at an offset points into: none, if the data is inline,
  -- or it is a hole.
  abbrev pub pointed : Header → Option RawFileExtent → Option ExtentRef
  pointed h none = none
  pointed h (some fe) =
      if fe.extent_type == abi.file_extent_inline || fe.disk_bytenr == 0
      then none
      else some (record {
        root = root;
        inode = inode;
        disk_address = fe.disk_bytenr;
        disk_bytes = fe.disk_num_bytes;
        uncompressed_bytes = fe.ram_bytes;
        file_offset = h.offset;
        extent_offset = fe.offset;
        num_bytes = fe.num_bytes;
        leaf_generation = h.transid;
      })

  -- Whether an item is a file extent of the file between two offsets, both included.
  abbrev pub is_extent_at : ℕ → ℕ → Item → Bool
  is_extent_at first last i =
      i.header.objectid == inode
      && i.header.key_type == abi.extent_data_key
      && leb first i.header.offset
      && leb i.header.offset last

  -- The extents that the items of a file between two offsets point into.
  unfoldable pub extents_between : ℕ → ℕ → List Item → List ExtentRef
  extents_between first last [] = []
  extents_between first last (i ∷ is) =
      if is_extent_at first last i
      then cons_some (pointed i.header (abi.file_extent.read i.body))
          (extents_between first last is)
      else extents_between first last is

  -- The references that some items are.
  unfoldable pub refs_in : List Item → List ExtentRef
  refs_in [] = []
  refs_in (i ∷ is) = cons_some (ref_of_item abi root inode i.header i.body) (refs_in is)

  ref_of_item-pointed :
      (i : Item)
      → ref_of_item abi root inode i.header i.body ≡ pointed i.header (abi.file_extent.read i.body)
  unfolding ref_of_item to_extent_ref
  ref_of_item-pointed i =
      elim (abi.file_extent.read i.body) as (λ o. read_as o ≡ pointed i.header o) [
        | none ↦ refl
        | some fe ↦ elim (Bool-cases (fe.extent_type == abi.file_extent_inline)) [
          | inl e ↦ rw e refl
          | inr e ↦ elim (Bool-cases (fe.disk_bytenr == 0)) [
            | inl z ↦ rw (e, z) refl
            | inr z ↦ rw (e, z) refl
          ]
        ]
      ]
    where
      read_as : Option RawFileExtent → Option ExtentRef
      read_as o = elim o [
        | none ↦ none
        | some fe ↦
            if fe.extent_type == abi.file_extent_inline
            then none
            else if fe.disk_bytenr == 0
            then none
            else some (to_extent_ref root inode i.header fe)
      ]

module _ (os : Os) (fuel : ℕ) (fs : Filesystem os) (root inode first last : ℕ) where
  in_range-inode_key :
      (i : Item)
      → in_range (inode_key os fuel fs root inode first last) i
        ≡ is_extent_at os.abi root inode first last i
  unfolding inode_key set_range search_all_of
  in_range-inode_key i = ground arith

  -- What the search for a file's items finds is what there is of them.
  pub refs_in-select :
      (tree : List Item)
      → refs_in os.abi root inode (select (inode_key os fuel fs root inode first last) tree)
        ≡ extents_between os.abi root inode first last tree
  unfolding refs_in extents_between
  refs_in-select [] = refl
  refs_in-select (i ∷ is) = elim (Bool-cases (is_extent_at os.abi root inode first last i)) [
    | inl e ↦
        rw (in_range-inode_key i, e)
          (rw (ref_of_item-pointed os.abi root inode i, refs_in-select is) refl)
    | inr e ↦ rw (in_range-inode_key i, e) (refs_in-select is)
  ]

-- The last place in its file where an item of a reference can stand: with a base, the place of the last
-- byte of the extent, whose data is no longer than the extent or than 128 KiB.
abbrev pub last_place : ℕ → RefOffsets → ℕ
last_place disk_bytes (base b) = add64 b (sub64 (max disk_bytes 131072) 1)
last_place disk_bytes (between first last) = last

-- The first: the base, or the start of the file, where the base has wrapped below that.
abbrev pub first_place : ℕ → RefOffsets → ℕ
first_place disk_bytes (base b) = if ltb (last_place disk_bytes (base b)) b then 0 else b
first_place disk_bytes (between first last) = first

-- Whether an extent reference is one of the reference's: into the extent, from the base if there is one.
abbrev pub is_meant : RefOffsets → ℕ → ℕ → ExtentRef → Bool
is_meant (base b) disk_address disk_bytes r =
    r.disk_address == disk_address
    && r.disk_bytes == disk_bytes
    && sub64 r.file_offset r.extent_offset == b
is_meant (between first last) disk_address disk_bytes r =
    r.disk_address == disk_address && r.disk_bytes == disk_bytes

pub offset_window-eq :
    (n : ℕ) (p : RefOffsets)
    → (first_place n p ≡ (offset_window n p).0) × (last_place n p ≡ (offset_window n p).1)
unfolding offset_window
offset_window-eq n (base b) = (ground arith, refl)
offset_window-eq n (between first last) = (refl, refl)

belongs-eq :
    (a n : ℕ) (r : ExtentRef) (p : RefOffsets)
    → (r.disk_address == a && r.disk_bytes == n && belongs p r) ≡ is_meant p a n r
unfolding belongs
belongs-eq a n r (base b) = refl
belongs-eq a n r (between first last) = ground arith

pub is_wanted-eq :
    (d : DataRef) (a n : ℕ) (r : ExtentRef) → is_wanted d a n r ≡ is_meant d.position a n r
unfolding is_wanted
is_wanted-eq d a n r = belongs-eq a n r d.position
