-- ===== src/Kernel/Keeps/Files.antt =====
-- The openings of src/kernel.rs keep whatever the reading calls keep.
use btrealloc.Prelude.{ℕ, none}
use btrealloc.Kernel.Os.{Os, FilePath, directory, no_atime, Filesystem}
use btrealloc.Kernel.Files.{
  open_beneath, ino_lookup, own_root_id, open_subvolume, is_nocow, open_inode, sync, generation,
}
use btrealloc.Kernel.Keeps.{
  Keeps, OnWorld, Keeps-attempt, keeps_rules, Keeps-not_found, Keeps-bind_result,
}
use btrealloc.Kernel.Keeps.Calls.{Reads}

module _ {os : Os} {I : os.World → Type 0} (q : Reads os I) where
  pub open_beneath_directory-Keeps :
      (d : os.File) (p : FilePath) → Keeps (OnWorld {os = os} I) (open_beneath os d p directory)
  unfolding open_beneath
  open_beneath_directory-Keeps d p = search (keeps_rules, q.open_directory d)

  pub open_beneath_file-Keeps :
      (d : os.File) (p : FilePath) → Keeps (OnWorld {os = os} I) (open_beneath os d p no_atime)
  unfolding open_beneath
  open_beneath_file-Keeps d p = search (keeps_rules, q.open_file d)

  pub ino_lookup-Keeps : (f : os.File) (t o : ℕ) → Keeps (OnWorld {os = os} I) (ino_lookup os f t o)
  unfolding ino_lookup
  ino_lookup-Keeps f t o = search (keeps_rules, q.ino_lookup f t o)

  pub own_root_id-Keeps : (f : os.File) → Keeps (OnWorld {os = os} I) (own_root_id os f)
  unfolding own_root_id
  own_root_id-Keeps f = search (keeps_rules, q.ino_lookup f)

  pub open_subvolume-Keeps :
      (d : os.File) (p : FilePath) (root : ℕ)
      → Keeps (OnWorld {os = os} I) (open_subvolume os d p root)
  unfolding open_subvolume
  open_subvolume-Keeps d p root =
      Keeps-bind_result _ (Keeps-attempt (open_beneath_directory-Keeps d p))
        (λ e. Keeps-not_found e none)
        (λ file. search (keeps_rules, own_root_id-Keeps, q.metadata) depth 12)

  pub is_nocow-Keeps : (f : os.File) → Keeps (OnWorld {os = os} I) (is_nocow os f)
  unfolding is_nocow
  is_nocow-Keeps f = search (keeps_rules, q.get_flags f)

  module _ (fs : Filesystem os) where
    pub sync-Keeps : Keeps (OnWorld {os = os} I) (sync os fs)
    unfolding sync
    sync-Keeps = search (keeps_rules, q.syncfs)

    pub generation-Keeps : Keeps (OnWorld {os = os} I) (generation os fs)
    unfolding generation
    generation-Keeps = search (keeps_rules, q.fs_info)

    pub open_inode-Keeps :
        (p : FilePath) (root inode : ℕ)
        → Keeps (OnWorld {os = os} I) (open_inode os fs p root inode)
    unfolding open_inode
    open_inode-Keeps p root inode =
        search (keeps_rules, open_beneath_file-Keeps, own_root_id-Keeps, q.metadata) depth 12
