-- ===== src/Kernel/Refs.antt =====
-- The file extent items that a reference of the extent tree stands for: `search_extent_refs`,
-- `data_ref_extents`, `collect` and `inode_holds_extent` of src/kernel.rs.
pub mod Window
pub mod Standing
pub mod Collect
pub mod Wanted
use btrealloc.Prelude.{
  ℕ, zero, suc, ◌+◌, ◌-◌, max, Bool, true, false, ◌&&◌, ◌||◌, not, Option, none, some, List, [],
  ◌∷◌, ◌++◌, ltb, leb, ◌==◌, if◌then◌else◌, length, add64, sub64,
}
use btrealloc.Io.{Result, ok, err, IoError, changed, pure, raise, ◌>>=◌}
use btrealloc.Abi.{Abi, Header, Bytes, RawFileExtent}
use btrealloc.Extent.{ExtentRef}
use btrealloc.Kernel.Search.{Key, SearchKey, search_all_of, set_range, search_all}
use btrealloc.Kernel.Tally.{DataRef, RefOffsets, base, between}
use btrealloc.Kernel.Os.{Os, Filesystem, Io, on_world}

-- The most that btrfs compresses into one extent.
abbrev pub max_compressed_bytes : ℕ
max_compressed_bytes = 131072

-- The reference that a file extent item of an inode is.
unfoldable pub to_extent_ref : ℕ → ℕ → Header → RawFileExtent → ExtentRef
to_extent_ref root inode header fe = record {
  root = root;
  inode = inode;
  disk_address = fe.disk_bytenr;
  disk_bytes = fe.disk_num_bytes;
  uncompressed_bytes = fe.ram_bytes;
  file_offset = header.offset;
  extent_offset = fe.offset;
  num_bytes = fe.num_bytes;
  leaf_generation = header.transid;
}

-- What `search_extent_refs` hands over for one item: nothing for an item that is too short, an
-- inline extent or a hole.
unfoldable pub ref_of_item : Abi → ℕ → ℕ → Header → Bytes → Option ExtentRef
ref_of_item abi root inode header bytes = elim (abi.file_extent.read bytes) [
  | none ↦ none
  | some fe ↦
      if fe.extent_type == abi.file_extent_inline
      then none
      else if fe.disk_bytenr == 0
      then none
      else some (to_extent_ref root inode header fe)
]

abbrev pub or_skip : {S : Type 0} → (ExtentRef → S → S) → Option ExtentRef → S → S
or_skip each none s = s
or_skip each (some r) s = each r s

-- Where the items of a reference can be in their file. An item sits at the base plus its own offset
-- into the extent; the base wraps for one placed earlier in its file than it sits in the extent.
unfoldable pub offset_window : ℕ → RefOffsets → ℕ × ℕ
offset_window disk_bytes (base b) =
    let last = add64 b (sub64 (max disk_bytes max_compressed_bytes) 1) in
    (if leb b last then b else 0, last)
offset_window disk_bytes (between first last) = (first, last)

unfoldable pub belongs : RefOffsets → ExtentRef → Bool
belongs (base b) r = sub64 r.file_offset r.extent_offset == b
belongs (between first last) r = true

-- The references that `data_ref_extents` keeps.
unfoldable pub is_wanted : DataRef → ℕ → ℕ → ExtentRef → Bool
is_wanted data_ref disk_address disk_bytes r =
    r.disk_address == disk_address && r.disk_bytes == disk_bytes && belongs data_ref.position r

unfoldable pub push_wanted : DataRef → ℕ → ℕ → ExtentRef → List ExtentRef → List ExtentRef
push_wanted data_ref disk_address disk_bytes r refs =
    if is_wanted data_ref disk_address disk_bytes r then refs ++ r ∷ [] else refs

module _ (os : Os) (fuel : ℕ) (fs : Filesystem os) where
  -- The search that an inode's file extent items are read by, between two file offsets.
  unfoldable pub inode_key : ℕ → ℕ → ℕ → ℕ → SearchKey
  inode_key root inode start last =
      set_range (search_all_of root)
        (record { objectid = inode; key_type = os.abi.extent_data_key; offset = start })
        (record { objectid = inode; key_type = os.abi.extent_data_key; offset = last })

  unfoldable pub search_extent_refs :
      {S : Type 0} → SearchKey → ℕ → ℕ → (ExtentRef → S → S) → S → Io os S
  search_extent_refs sk root inode each s =
      search_all os.abi (λ sk. on_world (os.tree_search fs.file sk))
        (λ header item s. ok (or_skip each (ref_of_item os.abi root inode header item) s)) fuel sk s

  unfoldable pub data_ref_extents : DataRef → ℕ → ℕ → List ExtentRef → Io os (List ExtentRef)
  data_ref_extents data_ref disk_address disk_bytes refs =
      let (start, last) = offset_window disk_bytes data_ref.position in
      search_extent_refs (inode_key data_ref.root data_ref.inode start last) data_ref.root
        data_ref.inode (push_wanted data_ref disk_address disk_bytes) refs

  -- The loop of `collect`.
  unfoldable pub collect_loop : ℕ → ℕ → List DataRef → List ExtentRef → Io os (List ExtentRef)
  collect_loop disk_address disk_bytes [] refs = pure refs
  collect_loop disk_address disk_bytes (data_ref ∷ rest) refs = do
    refs' ← data_ref_extents data_ref disk_address disk_bytes refs
    if not (length refs' - length refs == data_ref.count)
        then raise (changed "changed while it was being read")
        else collect_loop disk_address disk_bytes rest refs'

  unfoldable pub or_unreferenced : List ExtentRef → Io os (List ExtentRef)
  or_unreferenced [] = raise (changed "no longer referenced")
  or_unreferenced (r ∷ refs) = pure (r ∷ refs)

  unfoldable pub collect : ℕ → ℕ → List DataRef → Io os (List ExtentRef)
  collect disk_address disk_bytes data_refs = do
    refs ← collect_loop disk_address disk_bytes data_refs []
    or_unreferenced refs

  unfoldable pub inode_holds_extent : ℕ → ℕ → ℕ → ℕ → ℕ → Io os Bool
  inode_holds_extent root inode from to disk_address =
      search_extent_refs (inode_key root inode from to) root inode
        (λ r found. found || r.disk_address == disk_address) false
