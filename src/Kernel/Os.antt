-- ===== src/Kernel/Os.antt =====
-- The calls of the system that src/kernel.rs and src/run.rs make, as a parameter: each may change
-- the world, and returns a value or an error.
use btrealloc.Prelude.{ℕ, Bool, Option, List}
use btrealloc.Io.{Action, IoError}
use btrealloc.Abi.{Abi, Bytes}
use btrealloc.Kernel.Search.{SearchKey, Found}

-- Paths are the bytes of an `OsStr`.
abbrev pub FilePath : Type 0
FilePath = Bytes

-- `statfs`
pub record StatFs : Type 0 where
  pub fs_type : ℕ
  pub block_size : ℕ
  pub is_read_only : Bool

-- What the program reads of `fs::Metadata`.
pub record Metadata : Type 0 where
  pub ino : ℕ
  pub len : ℕ
  pub modified : ℕ
  pub is_dir : Bool

-- `btrfs_ioctl_fs_info_args`, as it comes back.
pub record FsInfo : Type 0 where
  pub flags : ℕ
  pub generation : ℕ

-- `btrfs_ioctl_ino_lookup_args`, as it comes back.
pub record InoLookup : Type 0 where
  pub treeid : ℕ
  pub name : Bytes

-- `InoPathBuf`, as it comes back.
pub record InoPaths : Type 0 where
  pub elem_cnt : ℕ
  pub bytes : Bytes

-- How the program opens a file: `O_RDONLY | O_DIRECTORY`, `O_RDONLY | O_NOATIME`, `O_RDWR | O_TMPFILE`.
pub data OpenFlags : Type 0 where
  directory no_atime tmp_file : OpenFlags

-- The `i32` that a dedupe reports for its one destination.
pub data Status : Type 0 where
  negative : ℕ → Status
  natural : ℕ → Status

-- `file_dedupe_range_info`, as it comes back.
pub record DedupeInfo : Type 0 where
  pub status : Status
  pub bytes_deduped : ℕ

pub record Os : Type 1 where
  pub abi : Abi
  pub World : Type 0
  pub File : Type 0
  -- `BTRFS_IOC_TREE_SEARCH_V2`
  pub tree_search : File → SearchKey → Action World IoError Found
  -- `BTRFS_IOC_LOGICAL_INO_V2` for an address, with room for so many bytes: the words of its buffer.
  pub logical_ino : File → ℕ → ℕ → Action World IoError (List ℕ)
  -- `BTRFS_IOC_INO_LOOKUP`
  pub ino_lookup : File → ℕ → ℕ → Action World IoError InoLookup
  -- `BTRFS_IOC_INO_PATHS`
  pub ino_paths : File → ℕ → Action World IoError InoPaths
  -- `BTRFS_IOC_FS_INFO`, for the generation
  pub fs_info : File → Action World IoError FsInfo
  pub syncfs : File → Action World IoError (Unit {0})
  pub fstatfs : File → Action World IoError StatFs
  -- `File::open`
  pub open_path : FilePath → Action World IoError File
  pub open_tree : File → Action World IoError File
  -- `openat2` with `RESOLVE_BENEATH | RESOLVE_NO_SYMLINKS | RESOLVE_NO_XDEV`
  pub openat2 : File → FilePath → OpenFlags → Action World IoError File
  pub metadata : File → Action World IoError Metadata
  pub get_flags : File → Action World IoError ℕ
  pub set_flags : File → ℕ → Action World IoError (Unit {0})
  -- `read_exact_at`: the file, the offset and the number of bytes.
  pub read_exact_at : File → ℕ → ℕ → Action World IoError Bytes
  pub write_all_at : File → Bytes → ℕ → Action World IoError (Unit {0})
  -- `FIDEDUPERANGE`: the source and its offset, the length, the destination and its offset.
  pub dedupe_range : File → ℕ → ℕ → File → ℕ → Action World IoError DedupeInfo

pub record Subvolume : Type 0 where
  pub path : FilePath

-- What changes as the program runs: the world, and the two caches of `Filesystem`. The pool of
-- search buffers is left out: a buffer is written before it is read.
pub record State (os : Os) : Type 0 where
  pub world : os.World
  pub subvolumes : List (ℕ × Option Subvolume)
  pub last_snapshots : List (ℕ × ℕ)

-- What stays of `Filesystem` once it is open.
pub record Filesystem (os : Os) : Type 0 where
  pub file : os.File
  pub mount : FilePath
  pub sectorsize : ℕ
  pub read_only : Bool

abbrev pub Io : Os → Type 0 → Type 0
Io os A = Action (State os) IoError A

module _ {os : Os} {E A : Type 0} where
  -- A call of the system, in a program that has caches.
  abbrev pub on_world : Action os.World E A → Action (State os) E A
  on_world m s = let (r, w) = m s.world in (r, record s { world = w })
