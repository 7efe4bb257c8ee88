-- ===== src/Tests/Trees.antt =====
-- The searches, the buffers and the references that the program reads from a toy kernel.
use mathlib.Core.Path.{subst}
use btrealloc.Prelude.{
  ℕ, ◌+◌, ◌≤◌, ◌≡◌, refl, Option, some, List, [], ◌∷◌, arith, if◌then◌else◌, sub64,
}
use btrealloc.Io.{Result, ok, err, IoError, changed}
use btrealloc.Abi.{Header, Bytes, RawDataRef, RawExtentItem}
use btrealloc.Kernel.Search.{SearchKey, search_all}
use btrealloc.Kernel.Search.Items.{fold_items}
use btrealloc.Kernel.Search.Whole.{Answers, search_all-whole}
use btrealloc.Kernel.Tally.{DataRef, base}
use btrealloc.Kernel.Search.{items, next_min}
use btrealloc.Kernel.Search.Items.{items-encode}
use btrealloc.Kernel.Search.Resume.{key_le, key_lt, key_of, next_min-exact}
use btrealloc.Kernel.Tally.{no_tally, add_data_ref, add_inline, finish, files}
use btrealloc.Kernel.Tally.Inline.{named, owner, encode_inline, add_inline-named}
use btrealloc.Kernel.Tally.Account.{add_entries, extent_entries, finish-account}
use btrealloc.Kernel.Refs.{offset_window, collect}
use btrealloc.Kernel.Refs.Window.{offset_window-holds}
use btrealloc.Kernel.Refs.Standing.{extents_between}
use btrealloc.Kernel.Refs.Collect.{counts_hold, all_refs_of, found_or_gone, collect-exact}
use btrealloc.Kernel.Refs.{inode_holds_extent}
use btrealloc.Kernel.Refs.Standing.{extents_between}
use btrealloc.Kernel.Refs.Collect.{any_at, inode_holds_extent-exact}
use btrealloc.Kernel.Walk.{Unresolved, extent_batch, clear_snapshots}
use btrealloc.Kernel.Walk.Once.{IsBatch, extent_batch-IsBatch}
use btrealloc.Tests.Linux.{linux, linux-IsAbi, header_layout-IsLayout}
use btrealloc.Tests.Toy.{
  file_item, file_tree, extent_tree, tree_of, file_tree-IsTree, file_tree-IsSmall, answer_from,
  answer_from-Answers, toy, toy_fs, toy_state, tree_of-short, toy-Frozen,
}

abbrev count_items : Header → Bytes → ℕ → Result IoError ℕ
count_items header body n = ok (n + 1)

abbrev whole_file : SearchKey
whole_file = record {
  tree_id = 5;
  min_key = record { objectid = 257; key_type = 108; offset = 0 };
  max_key = record { objectid = 257; key_type = 108; offset = 9000 };
}

search_all-whole_example :
    search_all linux (toy.tree_search tt) count_items 3 whole_file 0 tt ≡ (ok 2, tt)
unfolding fold_items
search_all-whole_example =
    search_all-whole linux header_layout-IsLayout (toy.tree_search tt) count_items file_tree
      file_tree-IsTree file_tree-IsSmall tt 5
      (λ sk i. (
        answer_from (tree_of sk.tree_id) sk,
        refl,
        subst (λ id. Answers linux (tree_of id) sk (answer_from (tree_of sk.tree_id) sk)) i
            (answer_from-Answers (tree_of sk.tree_id) sk),
      ))
      3 whole_file 0 refl (omega arith)

items-encode_example :
    items linux count_items (answer_from file_tree whole_file) 0
    ≡ ok (record { last = some (file_item 8192 8192).header; pos = 22; state = 2 })
unfolding fold_items
items-encode_example =
    items-encode linux header_layout-IsLayout count_items (answer_from file_tree whole_file) []
      file_tree 0 (refl, (refl, tt)) refl refl

abbrev last_key : Header
last_key = record {
  transid = 7;
  objectid = 257;
  offset = 18446744073709551615;
  key_type = 108;
  len = 0;
}

next : next_min last_key ≡ some (record { objectid = 257; key_type = 109; offset = 0 })
unfolding next_min
next = refl

next_min-exact_example :
    key_le
      (record { objectid = 257; key_type = 109; offset = 0 })
      (record { objectid = 257; key_type = 120; offset = 4 })
    ≡ key_lt (key_of last_key) (record { objectid = 257; key_type = 120; offset = 4 })
next_min-exact_example =
    next_min-exact last_key (record { objectid = 257; key_type = 120; offset = 4 })
      (record { objectid = 257; key_type = 109; offset = 0 })
      (omega arith, omega arith, omega arith) (omega arith, omega arith, omega arith) next

abbrev named_ref : RawDataRef
named_ref = record { root = 5; objectid = 257; offset = 0; count = 2 }

add_inline-named_example :
    add_inline linux no_tally (encode_inline linux (named named_ref ∷ owner (9 ∷ []) ∷ []))
    ≡ add_data_ref no_tally named_ref
add_inline-named_example =
    add_inline-named linux linux-IsAbi no_tally (named named_ref ∷ owner (9 ∷ []) ∷ [])
      (tt, (refl, tt))

abbrev raw_item : RawExtentItem
raw_item = record { refs = 3; generation = 7; flags = 1 }

finish-account_example :
    finish (
      add_entries linux no_tally (
        extent_entries linux 262144 raw_item
          (named named_ref ∷ [])
          ((4, record { root = 5; objectid = 258; offset = 0; count = 1 }) ∷ [])))
    ≡ some (
      record { disk_bytes = 262144; refs = 3; generation = 7 },
      files (
          record { root = 5; inode = 257; position = base 0; count = 2 }
          ∷ record { root = 5; inode = 258; position = base 0; count = 1 }
          ∷ []),
    )
finish-account_example =
    finish-account linux linux-IsAbi 262144 raw_item (named named_ref ∷ [])
      ((4, record { root = 5; objectid = 258; offset = 0; count = 1 }) ∷ [])
      (λ e. absurd (omega arith)) (tt, tt) (omega arith)

offset_window-holds_example :
    ((offset_window 262144 (base (sub64 0 8192))).0 ≤ 0)
    × (0 ≤ (offset_window 262144 (base (sub64 0 8192))).1)
offset_window-holds_example =
    offset_window-holds 262144 0 8192 (omega arith) (omega arith) (omega arith)

abbrev counted_refs : List DataRef
counted_refs = record { root = 5; inode = 257; position = base 0; count = 2 } ∷ []

collect-exact_example : collect toy 5 toy_fs 1048576 262144 counted_refs toy_state ≡ (
  if counts_hold toy toy_fs linux-IsAbi toy_state toy-Frozen 5 tree_of-short 1048576 262144
        counted_refs
      then found_or_gone toy toy_fs linux-IsAbi toy_state toy-Frozen 5 tree_of-short (
          all_refs_of toy toy_fs linux-IsAbi toy_state toy-Frozen 5 tree_of-short 1048576 262144
            counted_refs)
      else err (changed "changed while it was being read"),
  toy_state,
)
collect-exact_example =
    collect-exact toy toy_fs linux-IsAbi toy_state toy-Frozen 5 tree_of-short 1048576 262144
      counted_refs (refl, tt)

inode_holds_extent-exact_example :
    inode_holds_extent toy 5 toy_fs 5 257 0 9000 1048576 toy_state ≡ (
      ok (
          any_at toy toy_fs linux-IsAbi toy_state toy-Frozen 5 tree_of-short 1048576
            (extents_between linux 5 257 0 9000 file_tree)),
      toy_state,
    )
inode_holds_extent-exact_example =
    inode_holds_extent-exact toy toy_fs linux-IsAbi toy_state toy-Frozen 5 tree_of-short 5 257 0
      9000 1048576 refl

extent_batch-IsBatch_example :
    (batch : List Unresolved) × (next : Option ℕ) × (extent_batch toy 5 toy_fs 0 7 toy_state
      ≡ (ok (batch, next), clear_snapshots toy 5 toy_fs toy_state))
    × IsBatch toy 5 toy_fs extent_tree 7 0 batch next
extent_batch-IsBatch_example =
    extent_batch-IsBatch toy toy_fs linux-IsAbi toy_state toy-Frozen 5 tree_of-short 7 0
