-- ===== src/App/Opening.antt =====
-- What `Filesystem::open` of src/kernel.rs accepts.
use btrealloc.Prelude.{
  ℕ, zero, suc, ◌*◌, ◌/◌, ◌%◌, ◌^◌, ◌<◌, ◌≡◌, refl, ap, ◌∙◌, true, ◌==◌, arith, Bool-cases, inl,
  inr, ==→≡,
}
use btrealloc.Kernel.Os.{Os, FilePath, State, Filesystem, on_world}
use btrealloc.Kernel.Files.{own_root_id}
use btrealloc.Kernel.Keeps.{Post, Yields, Yields-pure, Yields-checked, Keeps-bind, Keeps-anything}
use btrealloc.App.{is_power_of_two, power_loop, open_private, open_filesystem}

double : (k : ℕ) → 2 * 2 ^ k ≡ 2 ^ suc k
double k = omega arith

power_loop_sound : (bits n : ℕ) → power_loop bits n ≡ true → (k : ℕ) × (k < bits) × (n ≡ 2 ^ k)
unfolding power_loop
power_loop_sound zero n h = absurd cc
power_loop_sound (suc bits) n h = elim (Bool-cases (n == 1)) [
  | inl one ↦ (0, omega arith, ==→≡ n 1 one)
  | inr more ↦ elim (Bool-cases (n % 2 == 1)) [
    | inl odd ↦ absurd (ground arith)
    | inr even ↦
        let rest : power_loop bits (n / 2) ≡ true = ground arith in
        let halved : n ≡ 2 * (n / 2) = ground arith in
        let (k, lt, e) = power_loop_sound bits (n / 2) rest in
        (suc k, omega arith, halved ∙ ap (λ m. 2 * m) e ∙ double k)
  ]
]

is_power_of_two_sound : (n : ℕ) → is_power_of_two n ≡ true → (k : ℕ) × (k < 64) × (n ≡ 2 ^ k)
unfolding is_power_of_two
is_power_of_two_sound n = power_loop_sound 64 n

-- A filesystem whose sector size is a power of two of 64 bits, mounted at a path.
pub record IsFilesystem (os : Os) (path : FilePath) (fs : Filesystem os) : Type 0 where
  pub power : (k : ℕ) × (k < 64) × (fs.sectorsize ≡ 2 ^ k)
  pub mount : fs.mount ≡ path

module _ (os : Os) (path : FilePath) where
  abbrev Anywhere : State os → Type 0
  Anywhere s = Unit

  open_filesystem-Yields : Yields Anywhere (IsFilesystem os path) (open_filesystem os path)
  unfolding open_filesystem
  open_filesystem-Yields = Keeps-bind (Keeps-anything (on_world (os.open_path path))) (λ file.
      Keeps-bind (Keeps-anything (on_world (os.fstatfs file))) (λ stat.
        Yields-checked (stat.fs_type == os.abi.super_magic) _ (λ _.
          Yields-checked (is_power_of_two stat.block_size) _ (λ power.
            Keeps-bind (Keeps-anything (on_world (os.metadata file))) (λ meta.
              Yields-checked meta.is_dir _ (λ _.
                Keeps-bind (Keeps-anything (own_root_id os file)) (λ root.
                  Yields-checked (root == os.abi.fs_tree_objectid) _ (λ _.
                    Yields-checked (meta.ino == os.abi.first_free_objectid) _ (λ _.
                      Keeps-bind (Keeps-anything (open_private os file)) (λ top.
                        Yields-pure _
                          (record { power = is_power_of_two_sound _ power; mount = refl })))))))))))

-- What `Filesystem::open` returns, whatever the kernel answers, has the path that it was opened by as
-- its mount point, and a sector size that is one of the 64 powers of two.
pub open_filesystem-IsFilesystem :
    (os : Os) (path : FilePath) (s : State os)
    → Post (IsFilesystem os path) (open_filesystem os path s).0
open_filesystem-IsFilesystem os path s = ((open_filesystem-Yields os path).at s tt).1
