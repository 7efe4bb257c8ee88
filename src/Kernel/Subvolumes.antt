-- ===== src/Kernel/Subvolumes.antt =====
-- Finding subvolumes and files by path in src/kernel.rs: `last_snapshot`, `subvolume`,
-- `find_subvolume`, `root_backref` and `inode_path`.
pub mod Cached
use btrealloc.Prelude.{
  ℕ, zero, suc, ◌+◌, Option, none, some, [], leb, ◌==◌, if◌then◌else◌, length, take, drop, u64_max,
  lookup, insert,
}
use btrealloc.Io.{ok, stuck, other_error, pure, raise, gets, modify, ◌>>=◌, ◌>>◌}
use btrealloc.Abi.{Abi, Header, Bytes, RawRootRef}
use btrealloc.Kernel.Search.{search_all_of, set_range, search_all}
use btrealloc.Kernel.Os.{Os, FilePath, Subvolume, State, Filesystem, Io, on_world}
use btrealloc.Kernel.Files.{join, cstr_bytes, ino_lookup, open_subvolume}

-- Where a subvolume sits: the subvolume that holds it, the directory there, and its name in that.
pub record Backref : Type 0 where
  pub parent : ℕ
  pub dirid : ℕ
  pub name : FilePath

-- `item.get(size_of::<btrfs_root_ref>()..).and_then(|rest| rest.get(..r.name_len))`
unfoldable pub name_of : Abi → RawRootRef → Bytes → Option FilePath
name_of abi r item =
    if leb (abi.root_ref.size + r.name_len) (length item)
    then some (take r.name_len (drop abi.root_ref.size item))
    else none

unfoldable pub backref_of : Abi → Header → Bytes → Option Backref
backref_of abi header item = elim (abi.root_ref.read item) [
  | none ↦ none
  | some r ↦ elim (name_of abi r item) [
    | none ↦ none
    | some name ↦ some (record { parent = header.offset; dirid = r.dirid; name = name })
  ]
]

-- The first of the items that names the subvolume counts.
abbrev pub first_found : {A : Type 0} → Option A → Option A → Option A
first_found (some a) new = some a
first_found none new = new

module _ (os : Os) (fuel : ℕ) (fs : Filesystem os) where
  unfoldable pub root_backref : ℕ → Io os (Option Backref)
  root_backref root =
      search_all os.abi (λ sk. on_world (os.tree_search fs.file sk))
        (λ header item found. ok (first_found found (backref_of os.abi header item))) fuel
        (set_range (search_all_of os.abi.root_tree_objectid)
          (record { objectid = root; key_type = os.abi.root_backref_key; offset = 0 })
          (record { objectid = root; key_type = os.abi.root_backref_key; offset = u64_max }))
        none

  -- The generation read from a root item; the last of the items counts.
  unfoldable pub read_last_snapshot : ℕ → Io os (Option ℕ)
  read_last_snapshot root =
      search_all os.abi (λ sk. on_world (os.tree_search fs.file sk))
        (λ header item found. ok (os.abi.u64.read (drop os.abi.root_item_last_snapshot item))) fuel
        (set_range (search_all_of os.abi.root_tree_objectid)
          (record { objectid = root; key_type = os.abi.root_item_key; offset = 0 })
          (record { objectid = root; key_type = os.abi.root_item_key; offset = u64_max }))
        none

  unfoldable pub remember_snapshot : ℕ → ℕ → State os → State os
  remember_snapshot root generation s = record s {
    last_snapshots = insert root generation s.last_snapshots;
  }

  -- `last_snapshot`: from the cache, or read and kept.
  unfoldable pub last_snapshot : ℕ → Io os ℕ
  last_snapshot root = do
    known ← gets (λ s. lookup root s.last_snapshots)
    elim known [
      | some generation ↦ pure generation
      | none ↦ do
        found ← read_last_snapshot root
        elim found [
          | none ↦ raise (other_error "subvolume has no root item")
          | some generation ↦ do modify (remember_snapshot root generation); pure generation
        ]
    ]

  unfoldable pub remember_subvolume : ℕ → Option Subvolume → State os → State os
  remember_subvolume root found s = record s { subvolumes = insert root found s.subvolumes }

  -- A subvolume is at a path if what is opened there is its root directory.
  unfoldable pub subvolume_at : ℕ → FilePath → Io os (Option Subvolume)
  subvolume_at root path = do
    opened ← open_subvolume os fs.file path root
    elim opened [ none ↦ pure none | some file ↦ pure (some (record { path = path })) ]

  -- `find_subvolume`; `parent_of` is `subvolume`, for the parent.
  unfoldable pub find_subvolume : (ℕ → Io os (Option Subvolume)) → ℕ → Io os (Option Subvolume)
  find_subvolume parent_of root =
      if root == os.abi.fs_tree_objectid then subvolume_at root [] else do
        found ← root_backref root
        elim found [
          | none ↦ pure none
          | some backref ↦ do
            holding ← parent_of backref.parent
            elim holding [
              | none ↦ pure none
              | some parent ↦ do
                dir ← ino_lookup os fs.file backref.parent backref.dirid
                subvolume_at root (join (join parent.path dir) backref.name)
            ]
        ]

  -- `subvolume`: from the cache, or found and kept. The fuel is for the chain of parents.
  unfoldable pub subvolume : ℕ → ℕ → Io os (Option Subvolume)
  subvolume zero root = raise stuck
  subvolume (suc depth) root = do
    known ← gets (λ s. lookup root s.subvolumes)
    elim known [
      | some found ↦ pure found
      | none ↦ do
        found ← find_subvolume (subvolume depth) root
        modify (remember_subvolume root found)
        pure found
    ]

  -- The first path that the buffer of `BTRFS_IOC_INO_PATHS` holds: its offset is the first word.
  unfoldable pub first_path : Bytes → Io os FilePath
  first_path bytes = elim (os.abi.u64.read bytes) [
    | none ↦ raise (other_error "path offset runs past its buffer")
    | some offset ↦
        if leb offset (length bytes)
        then pure (cstr_bytes (drop offset bytes))
        else raise (other_error "path offset runs past its buffer")
  ]

  -- `inode_path`
  unfoldable pub inode_path : ℕ → ℕ → Io os (Option FilePath)
  inode_path root inode = do
    found ← subvolume fuel root
    elim found [
      | none ↦ pure none
      | some sub ↦ do
        opened ← open_subvolume os fs.file sub.path root
        elim opened [
          | none ↦ pure none
          | some subvolume_root ↦ do
            buf ← on_world (os.ino_paths subvolume_root inode)
            if buf.elem_cnt == 0
                then pure none
                else do name ← first_path buf.bytes; pure (some (join sub.path name))
        ]
    ]
