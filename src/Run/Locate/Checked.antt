-- ===== src/Run/Locate/Checked.antt =====
-- What `open_inode` of src/kernel.rs, and so `Located::open` of src/run.rs, asks of the file that it has
-- opened by a path.
use btrealloc.Prelude.{ℕ, ◌≡◌, refl, ◌∙◌, ◌==◌, ==→≡}
use btrealloc.Io.{Result, ok, err, Action, IoError}
use btrealloc.Kernel.Os.{Os, FilePath, Metadata, InoLookup, Filesystem, on_world}
use btrealloc.Kernel.Files.{own_root_id, open_inode}
use btrealloc.Kernel.Keeps.{
  Post, Yields, OnWorld, Yields-pure, Yields-bind, Yields-map_err, Yields-on_world, Yields-checked,
  Keeps-bind,
}
use btrealloc.Kernel.Keeps.Calls.{Reads}
use btrealloc.Kernel.Keeps.Files.{open_beneath_file-Keeps}
use btrealloc.Run.Locate.{Located, open_located}

-- What a call answered, at some moment.
abbrev pub Answered : {W A : Type 0} → Action W IoError A → A → Type 0
Answered {W} m a = (w : W) × ((m w).0 ≡ ok a)

Post-self : {E A : Type 0} (r : Result E A) → Post (λ a. r ≡ ok a) r
Post-self (ok a) = refl
Post-self (err e) = tt

-- The kernel said of an open file that it is the inode of the subvolume.
pub record IsInode (os : Os) (root inode : ℕ) (file : os.File) : Type 0 where
  pub meta : Metadata
  pub meta_answered : Answered (os.metadata file) meta
  pub same_inode : meta.ino ≡ inode
  pub own : InoLookup
  pub own_answered : Answered (os.ino_lookup file 0 os.abi.first_free_objectid) own
  pub same_root : own.treeid ≡ root

module _ {os : Os} {I : os.World → Type 0} where
  Answered-Yields :
      {A : Type 0} (m : Action os.World IoError A)
      → ((w : os.World) → I w → I (m w).1)
      → Yields (OnWorld {os = os} I) (Answered m) (on_world {os = os} m)
  Answered-Yields m k = Yields-on_world I (Answered m) m (λ w h. (k w h, answer w (m w).0 refl))
    where
      answer : (w : os.World) (r : Result IoError _) → (m w).0 ≡ r → Post (Answered m) r
      answer w (ok a) e = (w, e)
      answer w (err e) h = tt

  module _ (q : Reads os I) where
    own_root_id-Yields :
        (file : os.File)
        → Yields
            (OnWorld {os = os} I)
            (λ id.
              (own : InoLookup) × Answered (os.ino_lookup file 0 os.abi.first_free_objectid) own
              × (own.treeid ≡ id))
            (own_root_id os file)
    unfolding own_root_id
    own_root_id-Yields file =
        Yields-bind
          (Answered-Yields (os.ino_lookup file 0 os.abi.first_free_objectid)
            (q.ino_lookup file 0 _))
          (λ own a. Yields-pure _ (own, a, refl))

    open_inode-Yields :
        (fs : Filesystem os) (path : FilePath) (root inode : ℕ)
        → Yields (OnWorld {os = os} I) (IsInode os root inode) (open_inode os fs path root inode)
    unfolding open_inode
    open_inode-Yields fs path root inode =
        Keeps-bind (open_beneath_file-Keeps q fs.file path) (λ file.
          Yields-bind (Answered-Yields (os.metadata file) (q.metadata file)) (λ meta answered.
            Yields-checked (meta.ino == inode) _ (λ inode_same.
              Yields-bind (own_root_id-Yields file) (λ id (own, own_answered, e).
                Yields-checked (id == root) _ (λ root_same. Yields-pure file (record {
                  meta = meta;
                  meta_answered = answered;
                  same_inode = ==→≡ _ _ inode_same;
                  own = own;
                  own_answered = own_answered;
                  same_root = e ∙ ==→≡ id root root_same;
                }))))))

    pub open_located-Yields :
        (fs : Filesystem os) (l : Located)
        → Yields
            (OnWorld {os = os} I)
            (IsInode os l.holder.root l.holder.inode)
            (open_located os fs l)
    unfolding open_located
    open_located-Yields fs l =
        Yields-map_err _ (open_inode-Yields fs l.name l.holder.root l.holder.inode)
