-- ===== src/Kernel/Keeps/Paths.antt =====
-- Finding subvolumes and files by path keeps whatever the reading calls keep: the caches are no part
-- of the world.
use btrealloc.Prelude.{ℕ, zero, suc, refl, Option, none, some, if◌then◌else◌, leb, length, drop}
use btrealloc.Io.{IoError, stuck, other_error, pure, raise, modify}
use btrealloc.Abi.{Bytes}
use btrealloc.Kernel.Os.{Os, FilePath, Subvolume, State, Filesystem, Io}
use btrealloc.Kernel.Files.{cstr_bytes}
use btrealloc.Kernel.Subvolumes.{
  root_backref, read_last_snapshot, remember_snapshot, last_snapshot, remember_subvolume,
  subvolume_at, find_subvolume, subvolume, first_path, inode_path,
}
use btrealloc.Kernel.Keeps.{Keeps, OnWorld, Yields-raise, Keeps-gets, Keeps-modify, keeps_rules}
use btrealloc.Kernel.Keeps.Calls.{Reads}
use btrealloc.Kernel.Keeps.Files.{ino_lookup-Keeps, open_subvolume-Keeps}
use btrealloc.Kernel.Keeps.Reading.{tree_search_all-Keeps}

module _ {os : Os} {I : os.World → Type 0} (q : Reads os I) (fuel : ℕ) (fs : Filesystem os) where
  abbrev On : State os → Type 0
  On = OnWorld {os = os} I

  root_backref-Keeps : (root : ℕ) → Keeps On (root_backref os fuel fs root)
  unfolding root_backref
  root_backref-Keeps root = tree_search_all-Keeps q fs _ fuel _ none

  read_last_snapshot-Keeps : (root : ℕ) → Keeps On (read_last_snapshot os fuel fs root)
  unfolding read_last_snapshot
  read_last_snapshot-Keeps root = tree_search_all-Keeps q fs _ fuel _ none

  remember_snapshot-Keeps :
      (root generation : ℕ)
      → Keeps {E = IoError} On (modify (remember_snapshot os fuel fs root generation))
  remember_snapshot-Keeps root generation = Keeps-modify I _ (λ s. unfold remember_snapshot in refl)

  remember_subvolume-Keeps :
      (root : ℕ) (found : Option Subvolume)
      → Keeps {E = IoError} On (modify (remember_subvolume os fuel fs root found))
  remember_subvolume-Keeps root found = Keeps-modify I _ (λ s. unfold remember_subvolume in refl)

  pub last_snapshot-Keeps : (root : ℕ) → Keeps On (last_snapshot os fuel fs root)
  unfolding last_snapshot
  last_snapshot-Keeps root =
      search (keeps_rules, Keeps-gets, read_last_snapshot-Keeps, remember_snapshot-Keeps) depth 12

  subvolume_at-Keeps : (root : ℕ) (p : FilePath) → Keeps On (subvolume_at os fuel fs root p)
  unfolding subvolume_at
  subvolume_at-Keeps root p = search (keeps_rules, open_subvolume-Keeps q) depth 12

  find_subvolume-Keeps :
      (parent_of : ℕ → Io os (Option Subvolume)) (root : ℕ)
      → ((parent : ℕ) → Keeps On (parent_of parent))
      → Keeps On (find_subvolume os fuel fs parent_of root)
  unfolding find_subvolume
  find_subvolume-Keeps parent_of root kp =
      search (keeps_rules, kp, subvolume_at-Keeps, root_backref-Keeps, ino_lookup-Keeps q) depth 12

  subvolume-Keeps : (depth root : ℕ) → Keeps On (subvolume os fuel fs depth root)
  unfolding subvolume
  subvolume-Keeps zero root = Yields-raise stuck
  subvolume-Keeps (suc depth) root =
      search
        (
          keeps_rules,
          Keeps-gets,
          find_subvolume-Keeps _ _ (subvolume-Keeps depth),
          remember_subvolume-Keeps,
        )
        depth 12

  first_path-Keeps : (bytes : Bytes) → Keeps On (first_path os fuel fs bytes)
  unfolding first_path
  first_path-Keeps bytes =
      elim (os.abi.u64.read bytes)
        as (λ o. Keeps On (elim o as (λ _. Io os FilePath) [
          | none ↦ raise (other_error "path offset runs past its buffer")
          | some offset ↦
              if leb offset (length bytes)
              then pure (cstr_bytes (drop offset bytes))
              else raise (other_error "path offset runs past its buffer")
        ])) [ none ↦ Yields-raise _ | some offset ↦ search keeps_rules ]

  pub inode_path-Keeps : (root inode : ℕ) → Keeps On (inode_path os fuel fs root inode)
  unfolding inode_path
  inode_path-Keeps root inode =
      search (keeps_rules, subvolume-Keeps, open_subvolume-Keeps q, first_path-Keeps, q.ino_paths)
        depth 14
