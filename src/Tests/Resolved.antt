-- ===== src/Tests/Resolved.antt =====
-- A walk over the toy kernel's extents, and the references and the cache behind it.
use btrealloc.Prelude.{
  ℕ, some, lookup, ◌<◌, ◌≡◌, refl, true, List, [], ◌∷◌, arith, length, add64, sub64,
}
use btrealloc.Io.{ok}
use btrealloc.Extent.{ExtentRef}
use btrealloc.Kernel.Tally.{DataRef, base, files, opaque, is_extent_key, finish, add_item}
use btrealloc.Kernel.Os.{State}
use btrealloc.Kernel.Keeps.Calls.{Reads}
use btrealloc.Kernel.Refs.Standing.{only, extents_between}
use btrealloc.Kernel.Refs.Collect.{counts_hold, all_refs_of, refs_of}
use btrealloc.Kernel.Subvolumes.{last_snapshot}
use btrealloc.Kernel.Subvolumes.Cached.{
  IsCoherent, snapshot_of, or_no_root_item, last_snapshot-exact,
}
use btrealloc.Kernel.Resolve.{resolve}
use btrealloc.Kernel.Resolve.Trusted.{IsTrusted, resolve-IsTrusted}
use btrealloc.Kernel.Walk.{Unresolved, Resolved, resolve_batch, batch_of, push_item, to_unresolved}
use btrealloc.Kernel.Search.Resume.{keep}
use btrealloc.Kernel.Walk.Extents.{is_extent_item, AreExtents}
use btrealloc.Kernel.Walk.Batch.{extents_from}
use btrealloc.Kernel.Walk.Resolving.{AllResolve, resolve_batch-AllResolve}
use btrealloc.Kernel.Walk.Whole.{drain, drain-whole}
use btrealloc.Tests.Linux.{linux, linux-IsAbi, read_extent_item, read_data_ref, read_file_extent}
use btrealloc.Tests.Toy.{
  extent_tree, root_tree, toy, toy_fs, toy_state, tree_of-length, tree_of-short, toy-Frozen,
}

toy-Reads : (I : Unit {0} → Type 0) → Reads toy I
toy-Reads I = record {
  tree_search = λ f sk w h. h;
  logical_ino = λ f a n w h. h;
  ino_lookup = λ f t o w h. h;
  ino_paths = λ f i w h. h;
  fs_info = λ f w h. h;
  syncfs = λ f w h. h;
  fstatfs = λ f w h. h;
  open_path = λ p w h. h;
  open_tree = λ f w h. h;
  open_directory = λ f p w h. h;
  open_file = λ f p w h. h;
  metadata = λ f w h. h;
  get_flags = λ f w h. h;
  read_exact_at = λ f at n w h. h;
}

toy_extents : length (extents_from linux extent_tree 7 0) < 3
unfolding batch_of is_extent_key push_item to_unresolved finish add_item read_extent_item
    read_data_ref
toy_extents = omega arith

drain-whole_example :
    (us : List Unresolved) × (rs : List Resolved) × (s' : State toy) × (drain toy 6 toy_fs 3
        (record { next = some 0; generation = 7; batch = [] })
        toy_state
      ≡ (ok rs, s'))
    × (s'.world ≡ tt)
    × AreExtents linux 7 (keep (is_extent_item linux) extent_tree) us
    × AllResolve us rs
drain-whole_example =
    drain-whole toy toy_fs linux-IsAbi toy_state toy-Frozen (toy-Reads (λ w. w ≡ tt)) 6
      (λ id. omega (arith, tree_of-length id)) 7 3 toy_extents

abbrev two_extents : List Unresolved
two_extents =
    record {
      disk_address = 1048576;
      item = record { disk_bytes = 262144; refs = 2; generation = 7 };
      backrefs = opaque;
    }
    ∷ record {
      disk_address = 4096;
      item = record { disk_bytes = 4096; refs = 1; generation = 7 };
      backrefs = files [];
    }
    ∷ []

resolve_batch-AllResolve_example :
    (rs : List Resolved) × (s' : State toy) × (resolve_batch toy 6 toy_fs two_extents toy_state
      ≡ (ok rs, s'))
    × AllResolve two_extents rs
resolve_batch-AllResolve_example = resolve_batch-AllResolve toy 6 toy_fs two_extents toy_state

toy-IsCoherent : IsCoherent toy root_tree toy_state
unfolding lookup
toy-IsCoherent root generation h = absurd cc

last_snapshot-exact_example :
    (s' : State toy) × (last_snapshot toy 5 toy_fs 5 toy_state
      ≡ (or_no_root_item (snapshot_of linux root_tree 5), s'))
    × (s'.world ≡ tt)
    × IsCoherent toy root_tree s'
last_snapshot-exact_example =
    last_snapshot-exact toy toy_fs linux-IsAbi toy_state toy-Frozen 5 tree_of-short 5 toy-IsCoherent

abbrev named_refs : List DataRef
named_refs = record { root = 5; inode = 257; position = base 0; count = 2 } ∷ []

abbrev file_ref : ℕ → ExtentRef
file_ref offset = record {
  root = 5;
  inode = 257;
  disk_address = 1048576;
  disk_bytes = 262144;
  uncompressed_bytes = 262144;
  file_offset = offset;
  extent_offset = offset;
  num_bytes = 8192;
  leaf_generation = 7;
}

named_refs-counts :
    counts_hold toy toy_fs linux-IsAbi toy_state toy-Frozen 5 tree_of-short 1048576 262144
      named_refs
    ≡ true
unfolding refs_of only extents_between add64 sub64 read_file_extent
named_refs-counts = refl

named_refs-found :
    all_refs_of toy toy_fs linux-IsAbi toy_state toy-Frozen 5 tree_of-short 1048576 262144
      named_refs
    ≡ file_ref 0 ∷ file_ref 8192 ∷ []
unfolding refs_of only extents_between add64 sub64 read_file_extent
named_refs-found = refl

resolve-IsTrusted_example :
    IsTrusted toy toy_fs linux-IsAbi toy_state toy-Frozen 5 tree_of-short 1048576
      (record { disk_bytes = 262144; refs = 2; generation = 7 })
      named_refs
      (resolve toy 5 toy_fs 1048576
        (record { disk_bytes = 262144; refs = 2; generation = 7 })
        (files named_refs)
        toy_state)
resolve-IsTrusted_example =
    resolve-IsTrusted toy toy_fs linux-IsAbi toy_state toy-Frozen 5 tree_of-short 1048576
      (record { disk_bytes = 262144; refs = 2; generation = 7 }) named_refs toy-IsCoherent
      (refl, tt)
