-- ===== src/Kernel/Backrefs.antt =====
-- `logical_ino` of src/kernel.rs: the kernel's backreference walk, gathered into the shape that the
-- extent tree gives.
pub mod Grouping
pub mod Windows
pub mod Gather
pub mod Growth
use btrealloc.Prelude.{
  ℕ, zero, suc, ◌+◌, ◌/◌, ◌%◌, ◌^◌, Bool, true, false, ◌&&◌, ◌||◌, List, [], ◌∷◌, ltb, leb, ◌==◌,
  if◌then◌else◌, take, add64, sort_by,
}
use btrealloc.Io.{
  ok, err, IoError, changed, stuck, other_error, not_found, kind, pure, raise, attempt, ◌>>=◌,
}
use btrealloc.Kernel.Tally.{DataRef, between}
use btrealloc.Kernel.Os.{Os, Filesystem, Io, on_world}

abbrev pub logical_ino_start_size : ℕ
logical_ino_start_size = 4096

abbrev pub logical_ino_max_size : ℕ
logical_ino_max_size = 16777216

-- A file extent item, as the walk names it: `(root, inode, offset)`.
pub record Triple : Type 0 where
  pub root : ℕ
  pub inode : ℕ
  pub offset : ℕ

-- Triples order as tuples.
unfoldable pub triple_le : Triple → Triple → Bool
triple_le a b =
    ltb a.root b.root
    || (a.root == b.root && (ltb a.inode b.inode || (a.inode == b.inode && leb a.offset b.offset)))

-- `.chunks_exact(3)`, of `(inode, offset, root)` words; what is left over is dropped.
unfoldable pub to_triples : List ℕ → List Triple
to_triples (inode ∷ offset ∷ root ∷ rest) =
    record { root = root; inode = inode; offset = offset } ∷ to_triples rest
to_triples _ = []

-- A group of triples of one file: the first and the last of its offsets, and how many there are.
pub record Group : Type 0 where
  pub root : ℕ
  pub inode : ℕ
  pub first : ℕ
  pub last : ℕ
  pub count : ℕ

abbrev pub to_data_ref : Group → DataRef
to_data_ref g = record {
  root = g.root;
  inode = g.inode;
  position = between g.first g.last;
  count = g.count;
}

abbrev pub new_group : Triple → Group
new_group t = record {
  root = t.root;
  inode = t.inode;
  first = t.offset;
  last = t.offset;
  count = 1;
}

unfoldable pub same_group : Group → Triple → Bool
same_group g t = g.root == t.root && g.inode == t.inode

abbrev pub extend : Group → Triple → Group
extend g t = record g { last = t.offset; count = add64 g.count 1 }

-- The gathering loop from its second round on: `g` is what `data_refs.last_mut()` gives.
unfoldable pub group_from : Group → List Triple → List DataRef
group_from g [] = to_data_ref g ∷ []
group_from g (t ∷ ts) = elim (same_group g t) [
  | true ↦ group_from (extend g t) ts
  | false ↦ to_data_ref g ∷ group_from (new_group t) ts
]

unfoldable pub group_triples : List Triple → List DataRef
unfolding group_from same_group
group_triples [] = []
group_triples (t ∷ ts) = group_from (new_group t) ts

-- The first two words of the buffer, which always has room for them, and the others.
unfoldable pub first_words : List ℕ → ℕ × ℕ × List ℕ
first_words (a ∷ b ∷ rest) = (a, b, rest)
first_words _ = (0, 0, [])

-- What the words behind the first two hold, given the second, whose low half is `elem_cnt`.
unfoldable pub gather : ℕ → List ℕ → List DataRef
gather counts words =
    group_triples (sort_by triple_le (take (counts % 2 ^ 32 / 3) (to_triples words)))

module _ (os : Os) (fs : Filesystem os) where
  -- A look-up that failed: no extent at the address means that it was freed.
  unfoldable pub lookup_failed : {A : Type 0} → IoError → Io os A
  lookup_failed error = elim (kind error) [
    | not_found ↦ raise (changed "no longer referenced")
    | _ ↦ raise error
  ]

  -- The loop of `logical_ino`, with room for `size` bytes.
  unfoldable pub logical_ino_loop : ℕ → ℕ → ℕ → Io os (List DataRef)
  logical_ino_loop zero disk_address size = raise stuck
  logical_ino_loop (suc fuel) disk_address size = do
    found ← attempt (on_world (os.logical_ino fs.file disk_address size))
    elim found [
      | err error ↦ lookup_failed error
      | ok buf ↦
          let (room, counts, words) = first_words buf in
          let bytes_missing = room / 2 ^ 32 in
          let again = logical_ino_loop fuel disk_address (size + bytes_missing) in
          if ltb 0 bytes_missing
          then if ltb logical_ino_max_size (size + bytes_missing)
            then raise (other_error "extent has more backreferences than fit in one lookup")
            else again
          else pure (gather counts words)
    ]

  unfoldable pub logical_ino : ℕ → ℕ → Io os (List DataRef)
  unfolding logical_ino_loop
  logical_ino fuel disk_address = logical_ino_loop fuel disk_address logical_ino_start_size
