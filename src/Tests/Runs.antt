-- ===== src/Tests/Runs.antt =====
-- Runs over a filesystem with one file of two stretches of one extent: its kernel shares what it is asked
-- to, and keeps count of the writes.
use btrealloc.Prelude.{
  ℕ, ◌+◌, ◌≡◌, refl, ap, ◌∙◌, inl, inr, true, false, List, [], ◌∷◌, length, ◌==◌, if◌then◌else◌,
  replicate, leb, ◌/◌,
}
use btrealloc.Io.{Result, ok, IoError, Action}
use btrealloc.Kernel.Search.Items.{Item, encode}
use btrealloc.Kernel.Search.Resume.{select}
use btrealloc.Kernel.Os.{
  Os, OpenFlags, directory, no_atime, tmp_file, natural, Metadata, State, Filesystem,
}
use btrealloc.Kernel.Keeps.{Post}
use btrealloc.Kernel.Keeps.Calls.{Reads, Harmless}
use btrealloc.App.{run}
use btrealloc.Extent.{Extent, ExtentRef}
use btrealloc.Format.{Formats, human}
use btrealloc.Format.Units.{IsInUnit, human-IsInUnit}
use btrealloc.Main.{main}
use btrealloc.Main.Status.{main-status, status_of}
use btrealloc.Run.Locate.{Located}
use btrealloc.Run.Process.{realloc_extent, Outcome, empty_report, process}
use btrealloc.Run.Process.Outcomes.{Accounts, process-Accounts}
use btrealloc.App.{open_filesystem}
use btrealloc.Scan.Buckets.{IsAccount}
use btrealloc.App.Buckets.{run-IsAccount}
use btrealloc.App.Opening.{IsFilesystem, open_filesystem-IsFilesystem}
use btrealloc.Run.Process.Writes.{IsHeldBy, realloc_extent_writes_holders}
use btrealloc.App.Safety.{IsChecked, dry_run_reads, run_writes_temporary_files}
use btrealloc.Tests.Linux.{linux}

-- How often a file with a name, and one without, was written to, and how often files were made to share.
pub record Disk : Type 0 where
  pub named : ℕ
  pub made : ℕ
  pub shared : ℕ

abbrev stretch : ℕ → Item
stretch offset = record {
  header = record { transid = 7; objectid = 257; offset = offset; key_type = 108; len = 6 };
  body = 1 ∷ 1024 ∷ 262144 ∷ 262144 ∷ offset ∷ 4 ∷ [];
}

abbrev extents : List Item
extents =
    record {
      header = record { transid = 7; objectid = 1024; offset = 262144; key_type = 168; len = 8 };
      body = 2 ∷ 7 ∷ 1 ∷ 178 ∷ 5 ∷ 257 ∷ 0 ∷ 2 ∷ [];
    }
    ∷ []

abbrev roots : List Item
roots =
    record {
      header = record { transid = 7; objectid = 5; offset = 0; key_type = 132; len = 2 };
      body = 0 ∷ 3 ∷ [];
    }
    ∷ []

-- The file holds the extent until it shares the copy.
abbrev tree_at : Disk → ℕ → List Item
tree_at d id =
    if id == 1
    then roots
    else if id == 2
    then extents
    else if d.shared == 0
    then stretch 0 ∷ stretch 4 ∷ []
    else []

-- The top-level directory, the file and a file without a name.
abbrev opened : OpenFlags → ℕ
opened directory = 256
opened no_atime = 257
opened tmp_file = 0

abbrev answered : {A : Type 0} → A → Action Disk IoError A
answered a d = (ok a, d)

abbrev written : ℕ → Disk → Disk
written f d = if f == 0 then record d { made = d.made + 1 } else record d { named = d.named + 1 }

abbrev kernel_with : (ℕ → Disk → Disk) → Os
kernel_with sharing = record {
  abi = linux;
  World = Disk;
  File = ℕ;
  tree_search = λ _ sk d. (
    ok (record {
      nr_items = length (select sk (tree_at d sk.tree_id));
      buf = encode linux (select sk (tree_at d sk.tree_id));
    }),
    d,
  );
  logical_ino = λ _ _ _. answered (0 ∷ 6 ∷ 257 ∷ 0 ∷ 5 ∷ 257 ∷ 4 ∷ 5 ∷ []);
  ino_lookup = λ _ _ _. answered (record { treeid = 5; name = [] });
  ino_paths = λ _ _. answered (record { elem_cnt = 1; bytes = 1 ∷ 97 ∷ 0 ∷ [] });
  fs_info = λ _. answered (record { flags = 2; generation = 7 });
  syncfs = λ _. answered tt;
  fstatfs = λ _. answered (record { fs_type = 2435016766; block_size = 4; is_read_only = false });
  open_path = λ _. answered 256;
  open_tree = λ f. answered f;
  openat2 = λ _ _ flags. answered (opened flags);
  metadata = λ f. answered (record { ino = f; len = 8; modified = 1; is_dir = f == 256 });
  get_flags = λ _. answered 0;
  set_flags = λ f _ d. (ok tt, written f d);
  read_exact_at = λ _ _ n. answered (replicate n 1);
  write_all_at = λ f _ _ d. (ok tt, written f d);
  dedupe_range =
      λ _ _ len dest _ d. (ok (record { status = natural 0; bytes_deduped = len }), sharing dest d);
}

abbrev busy : Os
busy = kernel_with (λ f d. record d { shared = d.shared + 1 })

abbrev untouched : State busy
untouched = record {
  world = record { named = 0; made = 0; shared = 0 };
  subvolumes = [];
  last_snapshots = [];
}

abbrev IsUntouched : Disk → Type 0
IsUntouched d = d ≡ record { named = 0; made = 0; shared = 0 }

abbrev NoNamed : Disk → Type 0
NoNamed d = d.named ≡ 0

kernel_with-Reads : (sharing : ℕ → Disk → Disk) (I : Disk → Type 0) → Reads (kernel_with sharing) I
kernel_with-Reads sharing I = record {
  tree_search = λ f sk w h. h;
  logical_ino = λ f a n w h. h;
  ino_lookup = λ f t o w h. h;
  ino_paths = λ f i w h. h;
  fs_info = λ f w h. h;
  syncfs = λ f w h. h;
  fstatfs = λ f w h. h;
  open_path = λ p w h. h;
  open_tree = λ f w h. h;
  open_directory = λ f p w h. h;
  open_file = λ f p w h. h;
  metadata = λ f w h. h;
  get_flags = λ f w h. h;
  read_exact_at = λ f at n w h. h;
}

written-NoNamed : (f : ℕ) → f ≡ 0 → (d : Disk) → NoNamed d → NoNamed (written f d)
written-NoNamed f e d h = rw e h

busy-Harmless : (IsDest : ℕ → Type 0) → Harmless busy NoNamed (λ f. f ≡ 0) IsDest
busy-Harmless IsDest = record {
  reads = kernel_with-Reads (λ f d. record d { shared = d.shared + 1 }) NoNamed;
  open_temp = λ f p w h. (h, refl);
  set_flags = λ f temp flags w h. written-NoNamed f temp w h;
  write_all_at = λ f temp bytes at w h. written-NoNamed f temp w h;
  dedupe_range = λ src temp so len dest d at w h. h;
}

-- A kernel that counts every dedupe into another file than the one as a write to that.
abbrev shared_into : ℕ → Disk → Disk
shared_into f d =
    if f == 257 then record d { shared = d.shared + 1 } else record d { named = d.named + 1 }

abbrev pub strict : Os
strict = kernel_with shared_into

abbrev pub strict_fs : Filesystem strict
strict_fs = record { file = 256; mount = b'/' ∷ []; sectorsize = 4; read_only = false }

abbrev pub strict_state : State strict
strict_state = record { world = untouched.world; subvolumes = []; last_snapshots = [] }

abbrev pub one_ref : ExtentRef
one_ref = record {
  root = 5;
  inode = 257;
  disk_address = 1024;
  disk_bytes = 262144;
  uncompressed_bytes = 262144;
  file_offset = 0;
  extent_offset = 0;
  num_bytes = 4;
  leaf_generation = 7;
}

abbrev pub held : List Located
held =
    record { name = []; path = []; holder = record { root = 5; inode = 257; refs = one_ref ∷ [] } }
    ∷ []

held-same : (f : ℕ) → IsHeldBy strict held f → f ≡ 257
held-same f (inl i) =
    let said : Metadata = record { ino = f; len = 8; modified = 1; is_dir = f == 256 } in
    let answer : Result IoError Metadata = ok said in
    let answered_so : answer ≡ ok i.meta = i.meta_answered.1 in
    let same : said ≡ i.meta = cc in ap (λ m. m.ino) same ∙ i.same_inode
held-same f (inr h) = absurd h

shared_into-NoNamed : (f : ℕ) → f ≡ 257 → (d : Disk) → NoNamed d → NoNamed (shared_into f d)
shared_into-NoNamed f e d h = rw e h

strict-Harmless : Harmless strict NoNamed (λ f. f ≡ 0) (IsHeldBy strict held)
strict-Harmless = record {
  reads = kernel_with-Reads shared_into NoNamed;
  open_temp = λ f p w h. (h, refl);
  set_flags = λ f temp flags w h. written-NoNamed f temp w h;
  write_all_at = λ f temp bytes at w h. written-NoNamed f temp w h;
  dedupe_range = λ src temp so len dest d at w h. shared_into-NoNamed dest (held-same dest d) w h;
}

abbrev extent_at : Extent
extent_at = record {
  disk_address = 1024;
  disk_bytes = 262144;
  uncompressed_bytes = 262144;
  refs = one_ref ∷ [];
  live_ranges = record { start = 0; end = 4 } ∷ [];
}

dry_run_reads_example : IsUntouched (run busy 12 (b'/' ∷ []) false untouched).1.world
dry_run_reads_example =
    dry_run_reads busy IsUntouched
      (kernel_with-Reads (λ f d. record d { shared = d.shared + 1 }) IsUntouched) 12 (b'/' ∷ [])
      untouched refl

run_writes_temporary_files_example : NoNamed (run busy 12 (b'/' ∷ []) true untouched).1.world
run_writes_temporary_files_example =
    run_writes_temporary_files busy NoNamed (λ f. f ≡ 0) (busy-Harmless (IsChecked busy)) 12
      (b'/' ∷ []) true untouched refl

realloc_extent_writes_holders_example :
    NoNamed (realloc_extent strict 12 strict_fs extent_at held strict_state).1.world
realloc_extent_writes_holders_example =
    realloc_extent_writes_holders strict NoNamed (λ f. f ≡ 0) held strict-Harmless 12 strict_fs
      extent_at strict_state refl

open_filesystem-IsFilesystem_example :
    Post (IsFilesystem busy (b'/' ∷ [])) (open_filesystem busy (b'/' ∷ []) untouched).0
open_filesystem-IsFilesystem_example = open_filesystem-IsFilesystem busy (b'/' ∷ []) untouched

process-Accounts_example :
    (o : Outcome) × (s' : State strict) × (process strict 12 strict_fs true empty_report extent_at
        strict_state
      ≡ (ok o, s'))
    × Accounts strict 12 strict_fs true empty_report extent_at strict_state o s'
process-Accounts_example =
    process-Accounts strict 12 strict_fs true empty_report extent_at strict_state

-- Formatting that forgets the number.
abbrev plain : Formats
plain = record {
  show = λ n. "n";
  display = λ p. "/";
  pad = λ n s. s;
  Float = ℕ;
  of_u64 = λ n. n;
  ge = λ a b. leb b a;
  div = λ a b. a / b;
  fixed = λ digits n. "x";
}

main-status_example :
    (main plain busy 12 0 (record { path = b'/' ∷ []; apply = true }) untouched).0.0
    ≡ status_of (run busy 12 (b'/' ∷ []) true untouched).0
main-status_example =
    main-status plain busy 12 0 (record { path = b'/' ∷ []; apply = true }) untouched

human-IsInUnit_example :
    IsInUnit plain 5000 ("B" ∷ "KiB" ∷ "MiB" ∷ "GiB" ∷ "TiB" ∷ "PiB" ∷ []) (human plain 5000)
human-IsInUnit_example = human-IsInUnit plain 5000

run-IsAccount_example : Post (λ r. IsAccount r.0) (run busy 12 (b'/' ∷ []) true untouched).0
run-IsAccount_example = run-IsAccount busy 12 (b'/' ∷ []) true untouched
