-- ===== src/Run/Locate.antt =====
-- `Located`, `Failure`, `locate_holders` and `unnamed` of src/run.rs: a path to every file that holds
-- an extent, or why one of them means that it cannot be rewritten.
pub mod Keeps
pub mod Checked
use btrealloc.Prelude.{
  ℕ, zero, suc, ◌+◌, ◌-◌, ◌/◌, ◌%◌, Bool, none, some, List, [], ◌∷◌, ◌++◌, ltb, ◌==◌, any,
  if◌then◌else◌, add64,
}
use btrealloc.Io.{
  Result, ok, err, Action, IoError, not_found, other_error, kind, pure, raise, attempt, map_err,
  ◌>>=◌,
}
use btrealloc.Extent.{ExtentRef, Extent, Holder, LeftAlone, no_data_cow, past_end, deleted, holders}
use btrealloc.Kernel.Os.{Os, FilePath, State, Filesystem, on_world}
use btrealloc.Kernel.Files.{open_inode, is_nocow, display_path}
use btrealloc.Kernel.Subvolumes.{inode_path}

-- A rewrite that did not happen, and the file that it is charged to.
pub record Failure : Type 0 where
  pub path : FilePath
  pub error : IoError

abbrev pub charged : FilePath → IoError → Failure
charged path error = record { path = path; error = error }

-- An action whose failures are charged to files.
abbrev pub Run : Os → Type 0 → Type 0
Run os A = Action (State os) Failure A

pub record Located : Type 0 where
  pub name : FilePath
  pub path : FilePath
  pub holder : Holder

-- The decimal digits of a `u64`.
unfoldable pub decimal_loop : ℕ → ℕ → List ℕ → List ℕ
decimal_loop zero n out = out
decimal_loop (suc fuel) n out =
    let rest = decimal_loop fuel (n / 10) ((b'0' + n % 10) ∷ out) in
    if n / 10 == 0 then (b'0' + n % 10) ∷ out else rest

abbrev pub inode_text : List ℕ
inode_text = b'<' ∷ b'i' ∷ b'n' ∷ b'o' ∷ b'd' ∷ b'e' ∷ b' ' ∷ []

abbrev pub subvolume_text : List ℕ
subvolume_text =
    b' ' ∷ b'o' ∷ b'f' ∷ b' ' ∷ b's' ∷ b'u' ∷ b'b' ∷ b'v' ∷ b'o' ∷ b'l' ∷ b'u' ∷ b'm' ∷ b'e' ∷ b' '
    ∷ []

-- `unnamed`: what a holder with no path is called instead.
unfoldable pub unnamed : Holder → FilePath
unfolding decimal_loop
unnamed h =
    inode_text
    ++ (decimal_loop 20 h.inode [] ++ (subvolume_text ++ (decimal_loop 20 h.root [] ++ b'>' ∷ [])))

-- `next_multiple_of`
unfoldable pub next_multiple_of : ℕ → ℕ → ℕ
unfolding add64
next_multiple_of n m = if n % m == 0 then n else add64 n (m - n % m)

-- Whether some reference reaches past a file's last sector.
unfoldable pub reaches_past : ℕ → List ExtentRef → Bool
reaches_past end refs = any (λ r. ltb end (add64 r.file_offset r.num_bytes)) refs

-- `Located::open`
unfoldable pub open_located : (os : Os) → Filesystem os → Located → Run os os.File
open_located os fs l =
    map_err (charged l.path) (open_inode os fs l.name l.holder.root l.holder.inode)

module _ (os : Os) (fuel : ℕ) (fs : Filesystem os) where
  -- The checks of `locate_holders` on a file that a path was found to.
  unfoldable pub check_located : Located → Run os (Result LeftAlone Located)
  check_located l = do
    file ← open_located os fs l
    nocow ← map_err (charged l.path) (is_nocow os file)
    if nocow then pure (err no_data_cow) else do
      meta ← map_err (charged l.path) (on_world (os.metadata file))
      if reaches_past (next_multiple_of meta.len fs.sectorsize) l.holder.refs
          then pure (err past_end)
          else pure (ok l)

  -- What `locate_holders` does with the answer to where a holder is.
  unfoldable pub locate_failed : Holder → IoError → Run os (Result LeftAlone Located)
  locate_failed holder error = elim (kind error) [
    | not_found ↦ pure (err deleted)
    | _ ↦ raise (charged (unnamed holder) error)
  ]

  unfoldable pub locate_one : Holder → Run os (Result LeftAlone Located)
  locate_one holder = do
    answer ← attempt (inode_path os fuel fs holder.root holder.inode)
    elim answer [
      | err error ↦ locate_failed holder error
      | ok found ↦ elim found [
        | none ↦ raise (charged (unnamed holder) (other_error "no path leads to it"))
        | some name ↦
            check_located (record { name = name; path = display_path os fs name; holder = holder })
      ]
    ]

  unfoldable pub locate_loop : List Holder → Run os (Result LeftAlone (List Located))
  locate_loop [] = pure (ok [])
  locate_loop (h ∷ hs) = do
    one ← locate_one h
    elim one [
      | err reason ↦ pure (err reason)
      | ok l ↦ do
        rest ← locate_loop hs
        elim rest [ err reason ↦ pure (err reason) | ok ls ↦ pure (ok (l ∷ ls)) ]
    ]

  -- `locate_holders`
  unfoldable pub locate_holders : Extent → Run os (Result LeftAlone (List Located))
  locate_holders extent = locate_loop (holders extent)
