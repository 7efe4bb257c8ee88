-- ===== src/Tests/Toy.antt =====
-- A kernel that answers searches from three trees, of extents, of roots and of a file, and does nothing
-- else.
use mathlib.Core.List.{append-nil}
use btrealloc.Prelude.{
  leb, ℕ, ◌+◌, ◌<◌, refl, sym, false, List, [], ◌∷◌, arith, All, length, if◌then◌else◌, ◌==◌,
  Bool-cases, inl, inr,
}
use btrealloc.Io.{ok, err, IoError, os as os_error, Action}
use btrealloc.Kernel.Search.{SearchKey, Found}
use btrealloc.Kernel.Search.Items.{Item, encode}
use btrealloc.Kernel.Search.Resume.{IsTree, select}
use btrealloc.Kernel.Search.Whole.{Answers, IsSmall}
use btrealloc.Kernel.Os.{Os, State, Filesystem}
use btrealloc.Kernel.Frozen.{Frozen}
use btrealloc.Tests.Linux.{linux}

abbrev pub file_item : ℕ → ℕ → Item
file_item offset at = record {
  header = record { transid = 7; objectid = 257; offset = offset; key_type = 108; len = 6 };
  body = 1 ∷ 1048576 ∷ 262144 ∷ 262144 ∷ at ∷ 8192 ∷ [];
}

-- A file of two stretches of one extent, and the extent's own item with the reference of that file.
abbrev pub file_tree : List Item
file_tree = file_item 0 0 ∷ file_item 8192 8192 ∷ []

abbrev pub extent_tree : List Item
extent_tree =
    record {
      header = record { transid = 7; objectid = 1048576; offset = 262144; key_type = 168; len = 8 };
      body = 2 ∷ 7 ∷ 1 ∷ 178 ∷ 5 ∷ 257 ∷ 0 ∷ 2 ∷ [];
    }
    ∷ []

-- The subvolume's root item, with the generation of its last snapshot.
abbrev pub root_tree : List Item
root_tree =
    record {
      header = record { transid = 7; objectid = 5; offset = 0; key_type = 132; len = 2 };
      body = 0 ∷ 3 ∷ [];
    }
    ∷ []

abbrev pub tree_of : ℕ → List Item
tree_of id = if id == 2 then extent_tree else if id == 1 then root_tree else file_tree

pub root_tree-IsTree : IsTree root_tree
root_tree-IsTree = record {
  ordered = (tt, tt);
  keys = ((omega arith, omega arith, omega arith), tt);
}

pub root_tree-IsSmall : All IsSmall root_tree
root_tree-IsSmall = ((refl, omega arith), tt)

pub file_tree-IsTree : IsTree file_tree
file_tree-IsTree = record {
  ordered = ((refl, tt), (tt, tt));
  keys = ((omega arith, omega arith, omega arith), ((omega arith, omega arith, omega arith), tt));
}

pub extent_tree-IsTree : IsTree extent_tree
extent_tree-IsTree = record {
  ordered = (tt, tt);
  keys = ((omega arith, omega arith, omega arith), tt);
}

pub file_tree-IsSmall : All IsSmall file_tree
file_tree-IsSmall = ((refl, omega arith), ((refl, omega arith), tt))

pub extent_tree-IsSmall : All IsSmall extent_tree
extent_tree-IsSmall = ((refl, omega arith), tt)

-- Every item of the range at once.
abbrev pub answer_from : List Item → SearchKey → Found
answer_from tree sk = record {
  nr_items = length (select sk tree);
  buf = encode linux (select sk tree);
}

pub answer_from-Answers :
    (tree : List Item) (sk : SearchKey) → Answers linux tree sk (answer_from tree sk)
answer_from-Answers tree sk = record {
  got = select sk tree;
  rest = [];
  pad = [];
  split = sym (append-nil (select sk tree));
  count = refl;
  laid = sym (append-nil (encode linux (select sk tree)));
  some_got = λ _. refl;
  full = λ i is e. cc;
}

abbrev pub refused : {A : Type 0} → Action (Unit {0}) IoError A
refused w = (err (os_error 1), w)

abbrev pub toy : Os
toy = record {
  abi = linux;
  World = Unit;
  File = Unit;
  tree_search = λ _ sk w. (ok (answer_from (tree_of sk.tree_id) sk), w);
  logical_ino = λ _ _ _. refused;
  ino_lookup = λ _ _ _. refused;
  ino_paths = λ _ _. refused;
  fs_info = λ _. refused;
  syncfs = λ _. refused;
  fstatfs = λ _. refused;
  open_path = λ _. refused;
  open_tree = λ _. refused;
  openat2 = λ _ _ _. refused;
  metadata = λ _. refused;
  get_flags = λ _. refused;
  set_flags = λ _ _. refused;
  read_exact_at = λ _ _ _. refused;
  write_all_at = λ _ _ _. refused;
  dedupe_range = λ _ _ _ _ _. refused;
}

abbrev pub toy_fs : Filesystem toy
toy_fs = record { file = tt; mount = []; sectorsize = 4096; read_only = false }

abbrev pub toy_state : State toy
toy_state = record { world = tt; subvolumes = []; last_snapshots = [] }

pub tree_of-IsTree : (id : ℕ) → IsTree (tree_of id)
tree_of-IsTree id = elim (Bool-cases (id == 2)) [
  | inl e ↦ rw e extent_tree-IsTree
  | inr e ↦ elim (Bool-cases (id == 1)) [
    | inl r ↦ rw (e, r) root_tree-IsTree
    | inr r ↦ rw (e, r) file_tree-IsTree
  ]
]

pub tree_of-IsSmall : (id : ℕ) → All IsSmall (tree_of id)
tree_of-IsSmall id = elim (Bool-cases (id == 2)) [
  | inl e ↦ rw e extent_tree-IsSmall
  | inr e ↦ elim (Bool-cases (id == 1)) [
    | inl r ↦ rw (e, r) root_tree-IsSmall
    | inr r ↦ rw (e, r) file_tree-IsSmall
  ]
]

pub tree_of-length : (id : ℕ) → length (tree_of id) + 1 < 5
tree_of-length id = elim (Bool-cases (id == 2)) [
  | inl e ↦ rw e (omega arith)
  | inr e ↦ elim (Bool-cases (id == 1)) [
    | inl r ↦ rw (e, r) (omega arith)
    | inr r ↦ rw (e, r) (omega arith)
  ]
]

pub tree_of-short : (id : ℕ) → length (tree_of id) < 5
tree_of-short id = omega (arith, tree_of-length id)

abbrev pub toy-Frozen : Frozen toy toy_fs tt
toy-Frozen = record {
  trees = tree_of;
  is_tree = tree_of-IsTree;
  small = tree_of-IsSmall;
  has = λ id. leb id 5;
  has_extents = refl;
  has_roots = refl;
  answer = λ sk there.
      (answer_from (tree_of sk.tree_id) sk, refl, answer_from-Answers (tree_of sk.tree_id) sk);
}
