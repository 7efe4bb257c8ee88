-- ===== src/Tests/Linux.antt =====
-- An instance of the kernel's interface for the examples: the constants of Linux, and structures that
-- take one element of a buffer for each field.
use btrealloc.Prelude.{ℕ, ◌<◌, ◌≡◌, refl, Option, none, some, [], ◌∷◌, arith, length}
use btrealloc.Abi.{
  Abi, IsAbi, Bytes, Layout, IsLayout, Header, RawExtentItem, RawDataRef, RawFileExtent, RawRootRef,
}

unfoldable pub read_header : Bytes → Option Header
read_header [] = none
read_header (x0 ∷ []) = none
read_header (x0 ∷ x1 ∷ []) = none
read_header (x0 ∷ x1 ∷ x2 ∷ []) = none
read_header (x0 ∷ x1 ∷ x2 ∷ x3 ∷ []) = none
read_header (x0 ∷ x1 ∷ x2 ∷ x3 ∷ x4 ∷ rest) =
    some (record { transid = x0; objectid = x1; offset = x2; key_type = x3; len = x4 })

abbrev pub header_layout : Layout Header
header_layout = record {
  size = 5;
  read = read_header;
  write = λ t. t.transid ∷ t.objectid ∷ t.offset ∷ t.key_type ∷ t.len ∷ [];
}

read_header-short : (bytes : Bytes) → length bytes < 5 → read_header bytes ≡ none
unfolding read_header
read_header-short [] h = refl
read_header-short (x0 ∷ []) h = refl
read_header-short (x0 ∷ x1 ∷ []) h = refl
read_header-short (x0 ∷ x1 ∷ x2 ∷ []) h = refl
read_header-short (x0 ∷ x1 ∷ x2 ∷ x3 ∷ []) h = refl
read_header-short (x0 ∷ x1 ∷ x2 ∷ x3 ∷ x4 ∷ rest) h = absurd (omega arith)

pub header_layout-IsLayout : IsLayout header_layout
unfolding read_header
header_layout-IsLayout = record {
  short = read_header-short;
  length-write = λ t. refl;
  read-write = λ t rest. refl;
}

unfoldable pub read_extent_item : Bytes → Option RawExtentItem
read_extent_item [] = none
read_extent_item (x0 ∷ []) = none
read_extent_item (x0 ∷ x1 ∷ []) = none
read_extent_item (x0 ∷ x1 ∷ x2 ∷ rest) = some (record { refs = x0; generation = x1; flags = x2 })

abbrev pub extent_item_layout : Layout RawExtentItem
extent_item_layout = record {
  size = 3;
  read = read_extent_item;
  write = λ t. t.refs ∷ t.generation ∷ t.flags ∷ [];
}

read_extent_item-short : (bytes : Bytes) → length bytes < 3 → read_extent_item bytes ≡ none
unfolding read_extent_item
read_extent_item-short [] h = refl
read_extent_item-short (x0 ∷ []) h = refl
read_extent_item-short (x0 ∷ x1 ∷ []) h = refl
read_extent_item-short (x0 ∷ x1 ∷ x2 ∷ rest) h = absurd (omega arith)

pub extent_item_layout-IsLayout : IsLayout extent_item_layout
unfolding read_extent_item
extent_item_layout-IsLayout = record {
  short = read_extent_item-short;
  length-write = λ t. refl;
  read-write = λ t rest. refl;
}

unfoldable pub read_data_ref : Bytes → Option RawDataRef
read_data_ref [] = none
read_data_ref (x0 ∷ []) = none
read_data_ref (x0 ∷ x1 ∷ []) = none
read_data_ref (x0 ∷ x1 ∷ x2 ∷ []) = none
read_data_ref (x0 ∷ x1 ∷ x2 ∷ x3 ∷ rest) =
    some (record { root = x0; objectid = x1; offset = x2; count = x3 })

abbrev pub data_ref_layout : Layout RawDataRef
data_ref_layout = record {
  size = 4;
  read = read_data_ref;
  write = λ t. t.root ∷ t.objectid ∷ t.offset ∷ t.count ∷ [];
}

read_data_ref-short : (bytes : Bytes) → length bytes < 4 → read_data_ref bytes ≡ none
unfolding read_data_ref
read_data_ref-short [] h = refl
read_data_ref-short (x0 ∷ []) h = refl
read_data_ref-short (x0 ∷ x1 ∷ []) h = refl
read_data_ref-short (x0 ∷ x1 ∷ x2 ∷ []) h = refl
read_data_ref-short (x0 ∷ x1 ∷ x2 ∷ x3 ∷ rest) h = absurd (omega arith)

pub data_ref_layout-IsLayout : IsLayout data_ref_layout
unfolding read_data_ref
data_ref_layout-IsLayout = record {
  short = read_data_ref-short;
  length-write = λ t. refl;
  read-write = λ t rest. refl;
}

unfoldable pub read_file_extent : Bytes → Option RawFileExtent
read_file_extent [] = none
read_file_extent (x0 ∷ []) = none
read_file_extent (x0 ∷ x1 ∷ []) = none
read_file_extent (x0 ∷ x1 ∷ x2 ∷ []) = none
read_file_extent (x0 ∷ x1 ∷ x2 ∷ x3 ∷ []) = none
read_file_extent (x0 ∷ x1 ∷ x2 ∷ x3 ∷ x4 ∷ []) = none
read_file_extent (x0 ∷ x1 ∷ x2 ∷ x3 ∷ x4 ∷ x5 ∷ rest) = some (record {
  extent_type = x0;
  disk_bytenr = x1;
  disk_num_bytes = x2;
  ram_bytes = x3;
  offset = x4;
  num_bytes = x5;
})

abbrev pub file_extent_layout : Layout RawFileExtent
file_extent_layout = record {
  size = 6;
  read = read_file_extent;
  write = λ t.
      t.extent_type ∷ t.disk_bytenr ∷ t.disk_num_bytes ∷ t.ram_bytes ∷ t.offset ∷ t.num_bytes ∷ [];
}

read_file_extent-short : (bytes : Bytes) → length bytes < 6 → read_file_extent bytes ≡ none
unfolding read_file_extent
read_file_extent-short [] h = refl
read_file_extent-short (x0 ∷ []) h = refl
read_file_extent-short (x0 ∷ x1 ∷ []) h = refl
read_file_extent-short (x0 ∷ x1 ∷ x2 ∷ []) h = refl
read_file_extent-short (x0 ∷ x1 ∷ x2 ∷ x3 ∷ []) h = refl
read_file_extent-short (x0 ∷ x1 ∷ x2 ∷ x3 ∷ x4 ∷ []) h = refl
read_file_extent-short (x0 ∷ x1 ∷ x2 ∷ x3 ∷ x4 ∷ x5 ∷ rest) h = absurd (omega arith)

pub file_extent_layout-IsLayout : IsLayout file_extent_layout
unfolding read_file_extent
file_extent_layout-IsLayout = record {
  short = read_file_extent-short;
  length-write = λ t. refl;
  read-write = λ t rest. refl;
}

unfoldable pub read_root_ref : Bytes → Option RawRootRef
read_root_ref [] = none
read_root_ref (x0 ∷ []) = none
read_root_ref (x0 ∷ x1 ∷ rest) = some (record { dirid = x0; name_len = x1 })

abbrev pub root_ref_layout : Layout RawRootRef
root_ref_layout = record { size = 2; read = read_root_ref; write = λ t. t.dirid ∷ t.name_len ∷ [] }

read_root_ref-short : (bytes : Bytes) → length bytes < 2 → read_root_ref bytes ≡ none
unfolding read_root_ref
read_root_ref-short [] h = refl
read_root_ref-short (x0 ∷ []) h = refl
read_root_ref-short (x0 ∷ x1 ∷ rest) h = absurd (omega arith)

pub root_ref_layout-IsLayout : IsLayout root_ref_layout
unfolding read_root_ref
root_ref_layout-IsLayout = record {
  short = read_root_ref-short;
  length-write = λ t. refl;
  read-write = λ t rest. refl;
}

unfoldable pub read_u64 : Bytes → Option ℕ
read_u64 [] = none
read_u64 (x0 ∷ rest) = some x0

abbrev pub u64_layout : Layout ℕ
u64_layout = record { size = 1; read = read_u64; write = λ t. t ∷ [] }

read_u64-short : (bytes : Bytes) → length bytes < 1 → read_u64 bytes ≡ none
unfolding read_u64
read_u64-short [] h = refl
read_u64-short (x0 ∷ rest) h = absurd (omega arith)

pub u64_layout-IsLayout : IsLayout u64_layout
unfolding read_u64
u64_layout-IsLayout = record {
  short = read_u64-short;
  length-write = λ t. refl;
  read-write = λ t rest. refl;
}

abbrev pub linux : Abi
linux = record {
  extent_item_key = 168;
  extent_data_ref_key = 178;
  extent_owner_ref_key = 172;
  shared_data_ref_key = 184;
  extent_data_key = 108;
  root_item_key = 132;
  root_backref_key = 144;
  extent_flag_data = 1;
  extent_tree_objectid = 2;
  root_tree_objectid = 1;
  fs_tree_objectid = 5;
  first_free_objectid = 256;
  file_extent_inline = 0;
  enospc = 28;
  edquot = 122;
  erofs = 30;
  eio = 5;
  euclean = 117;
  nocow_flag = 8388608;
  dedupe_range_same = 0;
  super_magic = 2435016766;
  fs_info_flag_generation = 2;
  owner_ref_size = 1;
  root_item_last_snapshot = 1;
  header = header_layout;
  extent_item = extent_item_layout;
  data_ref = data_ref_layout;
  file_extent = file_extent_layout;
  root_ref = root_ref_layout;
  u64 = u64_layout;
}

pub linux-IsAbi : IsAbi linux
linux-IsAbi = record {
  header_layout = header_layout-IsLayout;
  extent_item_layout = extent_item_layout-IsLayout;
  data_ref_layout = data_ref_layout-IsLayout;
  file_extent_layout = file_extent_layout-IsLayout;
  item_lt_data_ref = omega arith;
  data_ref_lt_shared = omega arith;
  owner_ne_data_ref = λ e. absurd (omega arith);
}
