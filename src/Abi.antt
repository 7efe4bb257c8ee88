-- ===== src/Abi.antt =====
-- What the program takes from the kernel's interface through the crate `linux-raw-sys`: constants,
-- and the structures that it reads out of buffers. None of it is in the repository, so it is a
-- parameter; `IsAbi` states what the program relies on.
use btrealloc.Prelude.{ℕ, ◌<◌, ◌≢◌, ◌≡◌, Option, none, some, List, ◌++◌, length}

-- `btrfs_ioctl_search_header`
pub record Header : Type 0 where
  pub transid : ℕ
  pub objectid : ℕ
  pub offset : ℕ
  pub key_type : ℕ
  pub len : ℕ

-- `btrfs_extent_item`
pub record RawExtentItem : Type 0 where
  pub refs : ℕ
  pub generation : ℕ
  pub flags : ℕ

-- `btrfs_extent_data_ref`
pub record RawDataRef : Type 0 where
  pub root : ℕ
  pub objectid : ℕ
  pub offset : ℕ
  pub count : ℕ

-- `btrfs_file_extent_item`
pub record RawFileExtent : Type 0 where
  pub extent_type : ℕ
  pub disk_bytenr : ℕ
  pub disk_num_bytes : ℕ
  pub ram_bytes : ℕ
  pub offset : ℕ
  pub num_bytes : ℕ

-- `btrfs_root_ref`
pub record RawRootRef : Type 0 where
  pub dirid : ℕ
  pub name_len : ℕ

abbrev pub Bytes : Type 0
Bytes = List ℕ

-- A structure of a fixed size: `read` is `read_struct` at the front of a buffer.
pub record Layout (T : Type 0) : Type 0 where
  pub size : ℕ
  pub read : Bytes → Option T
  pub write : T → Bytes

-- A buffer that is too short holds no structure; one that begins with a structure holds it.
pub record IsLayout {T : Type 0} (l : Layout T) : Type 0 where
  pub short : (bytes : Bytes) → length bytes < l.size → l.read bytes ≡ none
  pub length-write : (t : T) → length (l.write t) ≡ l.size
  pub read-write : (t : T) (rest : Bytes) → l.read (l.write t ++ rest) ≡ some t

pub record Abi : Type 0 where
  pub extent_item_key : ℕ
  pub extent_data_ref_key : ℕ
  pub extent_owner_ref_key : ℕ
  pub shared_data_ref_key : ℕ
  pub extent_data_key : ℕ
  pub root_item_key : ℕ
  pub root_backref_key : ℕ
  pub extent_flag_data : ℕ
  pub extent_tree_objectid : ℕ
  pub root_tree_objectid : ℕ
  pub fs_tree_objectid : ℕ
  pub first_free_objectid : ℕ
  pub file_extent_inline : ℕ
  pub enospc : ℕ
  pub edquot : ℕ
  pub erofs : ℕ
  pub eio : ℕ
  pub euclean : ℕ
  pub nocow_flag : ℕ
  pub dedupe_range_same : ℕ
  pub super_magic : ℕ
  pub fs_info_flag_generation : ℕ
  pub owner_ref_size : ℕ
  pub root_item_last_snapshot : ℕ
  pub header : Layout Header
  pub extent_item : Layout RawExtentItem
  pub data_ref : Layout RawDataRef
  pub file_extent : Layout RawFileExtent
  pub root_ref : Layout RawRootRef
  pub u64 : Layout ℕ

-- What the program relies on: the layouts are those of fixed-size structures, and the keys that it
-- tells apart differ, in the order that the kernel gives them.
pub record IsAbi (abi : Abi) : Type 0 where
  pub header_layout : IsLayout abi.header
  pub extent_item_layout : IsLayout abi.extent_item
  pub data_ref_layout : IsLayout abi.data_ref
  pub file_extent_layout : IsLayout abi.file_extent
  pub item_lt_data_ref : abi.extent_item_key < abi.extent_data_ref_key
  pub data_ref_lt_shared : abi.extent_data_ref_key < abi.shared_data_ref_key
  pub owner_ne_data_ref : abi.extent_owner_ref_key ≢ abi.extent_data_ref_key
