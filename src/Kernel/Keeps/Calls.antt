-- ===== src/Kernel/Keeps/Calls.antt =====
-- Which calls of the system, the parameter of src/kernel.rs, keep a predicate of its world.
use btrealloc.Prelude.{ℕ}
use btrealloc.Abi.{Bytes}
use btrealloc.Kernel.Search.{SearchKey}
use btrealloc.Kernel.Os.{Os, FilePath, directory, no_atime, tmp_file}
use btrealloc.Kernel.Keeps.{Post}

-- The calls of the system that only read or commit, and the openings of what is there, keep `I`.
pub record Reads (os : Os) (I : os.World → Type 0) : Type 0 where
  pub tree_search :
      (f : os.File) (sk : SearchKey) (w : os.World) → I w → I (os.tree_search f sk w).1
  pub logical_ino :
      (f : os.File) (address size : ℕ) (w : os.World) → I w → I (os.logical_ino f address size w).1
  pub ino_lookup :
      (f : os.File) (tree objectid : ℕ) (w : os.World) → I w → I (os.ino_lookup f tree objectid w).1
  pub ino_paths : (f : os.File) (inode : ℕ) (w : os.World) → I w → I (os.ino_paths f inode w).1
  pub fs_info : (f : os.File) (w : os.World) → I w → I (os.fs_info f w).1
  pub syncfs : (f : os.File) (w : os.World) → I w → I (os.syncfs f w).1
  pub fstatfs : (f : os.File) (w : os.World) → I w → I (os.fstatfs f w).1
  pub open_path : (p : FilePath) (w : os.World) → I w → I (os.open_path p w).1
  pub open_tree : (f : os.File) (w : os.World) → I w → I (os.open_tree f w).1
  pub open_directory :
      (f : os.File) (p : FilePath) (w : os.World) → I w → I (os.openat2 f p directory w).1
  pub open_file :
      (f : os.File) (p : FilePath) (w : os.World) → I w → I (os.openat2 f p no_atime w).1
  pub metadata : (f : os.File) (w : os.World) → I w → I (os.metadata f w).1
  pub get_flags : (f : os.File) (w : os.World) → I w → I (os.get_flags f w).1
  pub read_exact_at :
      (f : os.File) (at n : ℕ) (w : os.World) → I w → I (os.read_exact_at f at n w).1

-- Where nothing is to be kept, every kernel will do.
pub any_answer : (os : Os) → Reads os (λ w. Unit {0})
any_answer os = record {
  tree_search = λ f sk w h. tt;
  logical_ino = λ f a n w h. tt;
  ino_lookup = λ f t o w h. tt;
  ino_paths = λ f i w h. tt;
  fs_info = λ f w h. tt;
  syncfs = λ f w h. tt;
  fstatfs = λ f w h. tt;
  open_path = λ p w h. tt;
  open_tree = λ f w h. tt;
  open_directory = λ f p w h. tt;
  open_file = λ f p w h. tt;
  metadata = λ f w h. tt;
  get_flags = λ f w h. tt;
  read_exact_at = λ f at n w h. tt;
}

-- The calls of the system that write keep `I` where they are given a file that the program made, which
-- no name leads to: `IsTemp`; and where a dedupe, which writes to the file that it is given second, is
-- given one that may be written to so: `IsDest`.
pub record Harmless (os : Os) (I : os.World → Type 0) (IsTemp IsDest : os.File → Type 0)
    : Type 0 where
  pub reads : Reads os I
  pub open_temp :
      (f : os.File) (p : FilePath) (w : os.World)
      → I w
      → I (os.openat2 f p tmp_file w).1 × Post IsTemp (os.openat2 f p tmp_file w).0
  pub set_flags :
      (f : os.File) → IsTemp f → (flags : ℕ) (w : os.World) → I w → I (os.set_flags f flags w).1
  pub write_all_at :
      (f : os.File)
      → IsTemp f
      → (bytes : Bytes) (at : ℕ) (w : os.World) → I w
      → I (os.write_all_at f bytes at w).1
  pub dedupe_range :
      (src : os.File)
      → IsTemp src
      → (src_offset len : ℕ) (dest : os.File) → IsDest dest
      → (dest_offset : ℕ) (w : os.World) → I w
      → I (os.dedupe_range src src_offset len dest dest_offset w).1
