-- ===== src/Kernel/Files.antt =====
-- Opening, flags and dedupe in src/kernel.rs: what stands around the calls of the system.
use Prim.Native.Nat.{bit_and}
use Prim.Native.String.{String}
use btrealloc.Prelude.{
  ℕ, ◌-◌, Bool, false, ◌||◌, not, Option, none, some, [], ◌∷◌, ◌++◌, ◌==◌, if◌then◌else◌, any,
}
use btrealloc.Io.{
  ok, err, IoError, os as os_error, not_found, other_error, kind, raw_os_error, pure, raise,
  attempt, ◌>>=◌, ◌>>◌,
}
use btrealloc.Abi.{Abi, Bytes}
use btrealloc.Kernel.Os.{
  Os, FilePath, OpenFlags, directory, no_atime, tmp_file, Status, negative, natural, Filesystem, Io,
  on_world,
}

abbrev pub slash : ℕ
slash = 47

unfoldable pub ends_in_slash : FilePath → Bool
ends_in_slash [] = false
ends_in_slash (c ∷ []) = c == slash
ends_in_slash (c ∷ d ∷ p) = ends_in_slash (d ∷ p)

-- `Path::join`: an absolute path replaces, and a slash is put between where one is missing.
unfoldable pub join : FilePath → FilePath → FilePath
join [] q = q
join (d ∷ p) [] = if ends_in_slash (d ∷ p) then d ∷ p else (d ∷ p) ++ slash ∷ []
join (d ∷ p) (c ∷ q) =
    if c == slash
    then c ∷ q
    else if ends_in_slash (d ∷ p)
    then (d ∷ p) ++ c ∷ q
    else (d ∷ p) ++ (slash ∷ c ∷ q)

-- `cstr_bytes`: up to the first NUL, or all of it.
unfoldable pub cstr_bytes : Bytes → Bytes
cstr_bytes [] = []
cstr_bytes (b ∷ bytes) = if b == 0 then [] else b ∷ cstr_bytes bytes

-- `fatal`: what to do about an error after which no rewrite can succeed.
unfoldable pub fatal_errno : Abi → ℕ → Option String
fatal_errno abi errno =
    if errno == abi.enospc
    then some "the filesystem is out of space for the copies"
    else if errno == abi.edquot
    then some "a quota leaves no room for the copies"
    else if errno == abi.erofs
    then some "the filesystem went read-only, see the kernel log"
    else if errno == abi.eio || errno == abi.euclean
    then some "the filesystem is failing, see the kernel log and run a scrub"
    else none

unfoldable pub fatal : Abi → IoError → Option String
unfolding fatal_errno raw_os_error
fatal abi error = elim (raw_os_error error) [ none ↦ none | some errno ↦ fatal_errno abi errno ]

-- An empty path stands for the directory itself.
unfoldable pub or_self : FilePath → FilePath
or_self [] = b'.' ∷ []
or_self (c ∷ p) = c ∷ p

module _ (os : Os) where
  -- `open_beneath`. A path with a NUL is refused.
  unfoldable pub open_beneath : os.File → FilePath → OpenFlags → Io os os.File
  open_beneath dir path flags =
      if any (λ b. b == 0) (or_self path)
      then raise (other_error "path holds a NUL byte")
      else on_world (os.openat2 dir (or_self path) flags)

  -- `ino_lookup`
  unfoldable pub ino_lookup : os.File → ℕ → ℕ → Io os FilePath
  unfolding cstr_bytes
  ino_lookup file treeid objectid = do
    args ← on_world (os.ino_lookup file treeid objectid)
    pure (cstr_bytes args.name)

  unfoldable pub own_root_id : os.File → Io os ℕ
  own_root_id file = do
    args ← on_world (os.ino_lookup file 0 os.abi.first_free_objectid)
    pure args.treeid

  -- `open_subvolume`
  unfoldable pub open_subvolume : os.File → FilePath → ℕ → Io os (Option os.File)
  open_subvolume top path root = do
    opened ← attempt (open_beneath top path directory)
    elim opened [
      | err e ↦ elim (kind e) [ not_found ↦ pure none | _ ↦ raise e ]
      | ok file ↦ do
        id ← own_root_id file
        if not (id == root) then pure none else do
          meta ← on_world (os.metadata file)
          if not (meta.ino == os.abi.first_free_objectid) then pure none else pure (some file)
    ]

  unfoldable pub is_nocow : os.File → Io os Bool
  is_nocow file = do
    flags ← on_world (os.get_flags file)
    pure (not (bit_and flags os.abi.nocow_flag == 0))

  -- `flags & !FS_NOCOW_FL`
  abbrev pub clear_nocow : ℕ → ℕ
  clear_nocow flags = flags - bit_and flags os.abi.nocow_flag

  -- What `dedupe` makes of the answer about its one destination.
  unfoldable pub deduped_bytes : ℕ → Status → Io os ℕ
  deduped_bytes bytes (negative n) = raise (os_error n)
  deduped_bytes bytes (natural n) =
      if n == os.abi.dedupe_range_same
      then pure bytes
      else raise (other_error "dedupe reported status")

  -- `dedupe`
  unfoldable pub dedupe : os.File → ℕ → ℕ → os.File → ℕ → Io os ℕ
  dedupe src src_offset len dest dest_offset = do
    info ← on_world (os.dedupe_range src src_offset len dest dest_offset)
    deduped_bytes info.bytes_deduped info.status

  module _ (fs : Filesystem os) where
    unfoldable pub display_path : FilePath → FilePath
    display_path path = join fs.mount path

    -- `open_inode`
    unfoldable pub open_inode : FilePath → ℕ → ℕ → Io os os.File
    open_inode path root inode = do
      file ← open_beneath fs.file path no_atime
      meta ← on_world (os.metadata file)
      if not (meta.ino == inode)
          then raise (other_error "no longer the file the extent tree names")
          else do
            id ← own_root_id file
            if not (id == root)
                then raise (other_error "no longer the file the extent tree names")
                else pure file

    -- `temp_file`
    unfoldable pub temp_file : Io os os.File
    temp_file = do
      file ← open_beneath fs.file [] tmp_file
      flags ← on_world (os.get_flags file)
      if bit_and flags os.abi.nocow_flag == 0 then pure file else do
        on_world (os.set_flags file (clear_nocow flags))
        still ← is_nocow file
        if still
            then raise (other_error "the temporary file keeps nodatacow from its directory")
            else pure file

    -- `Filesystem::sync`
    unfoldable pub sync : Io os (Unit {0})
    sync = on_world (os.syncfs fs.file)

    -- `Filesystem::generation`
    unfoldable pub generation : Io os ℕ
    generation = do
      info ← on_world (os.fs_info fs.file)
      if bit_and info.flags os.abi.fs_info_flag_generation == 0
          then raise (other_error "this kernel is too old to report the filesystem's generation")
          else pure info.generation
