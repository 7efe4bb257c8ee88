-- ===== src/Kernel/Backrefs/Windows.antt =====
-- The windows of the references that `logical_ino` in src/kernel.rs returns: each holds the items of
-- its file.
use btrealloc.Prelude.{
  ℕ, ◌≤◌, ◌≡◌, refl, Bool, true, false, ◌&&◌, ◌||◌, List, [], ◌∷◌, arith, ltb, leb, ◌==◌, any,
  Bool-cases, inl, inr, All, All-mono, IsSorted, IsOrder,
}
use btrealloc.Kernel.Tally.{DataRef, RefOffsets, base, between}
use btrealloc.Kernel.Backrefs.{
  Triple, triple_le, Group, new_group, same_group, extend, group_from, group_triples,
}

pub triple_le-IsOrder : IsOrder triple_le
unfolding triple_le
triple_le-IsOrder = record { total = λ a b. ground arith; trans = λ a b c p q. ground arith }

abbrev pub in_window : RefOffsets → ℕ → Bool
in_window (base b) x = false
in_window (between first last) x = leb first x && leb x last

-- The reference is of the item's file, and its window holds the item.
abbrev pub holds_item : Triple → DataRef → Bool
holds_item t d = d.root == t.root && d.inode == t.inode && in_window d.position t.offset

abbrev pub file_lt : ℕ → ℕ → ℕ → ℕ → Bool
file_lt root inode root' inode' = ltb root root' || (root == root' && ltb inode inode')

-- No two references are of one file.
abbrev pub OneEach : List DataRef → Type 0
OneEach [] = Unit
OneEach (d ∷ ds) = All (λ e. file_lt d.root d.inode e.root e.inode ≡ true) ds × OneEach ds

-- The item does not stand before the group.
abbrev Ahead : Group → Triple → Type 0
Ahead g t =
    (file_lt g.root g.inode t.root t.inode
      || (g.root == t.root && g.inode == t.inode && leb g.last t.offset))
    ≡ true

Ahead-extend :
    (g : Group) (t : Triple) (ts : List Triple)
    → same_group g t ≡ true
    → All (λ s. triple_le t s ≡ true) ts
    → All (Ahead (extend g t)) ts
unfolding same_group triple_le
Ahead-extend g t ts e o = All-mono (λ s p. ground arith) ts o

Ahead-new :
    (t : Triple) (ts : List Triple)
    → All (λ s. triple_le t s ≡ true) ts
    → All (Ahead (new_group t)) ts
unfolding triple_le
Ahead-new t ts o = All-mono (λ s p. ground arith) ts o

-- What a group holds already stays in the window of its reference.
group_from-holds :
    (g : Group) (ts : List Triple) (t : Triple)
    → All (Ahead g) ts
    → IsSorted triple_le ts
    → g.root ≡ t.root
    → g.inode ≡ t.inode
    → g.first ≤ t.offset
    → t.offset ≤ g.last
    → any (holds_item t) (group_from g ts) ≡ true
unfolding group_from same_group
group_from-holds g [] t a s r i l u = ground arith
group_from-holds g (n ∷ ts) t a s r i l u = elim (Bool-cases (same_group g n)) [
  | inl e ↦
      let on : g.last ≤ n.offset = ground arith in
      rw (e, group_from)
        (group_from-holds (extend g n) ts t (Ahead-extend g n ts e s.0) s.1 r i l (omega arith))
  | inr e ↦ rw (e, group_from) (ground arith)
]

group_from-All :
    (g : Group) (ts : List Triple)
    → All (Ahead g) ts
    → IsSorted triple_le ts
    → g.first ≤ g.last
    → All (λ t. any (holds_item t) (group_from g ts) ≡ true) ts
unfolding group_from same_group
group_from-All g [] a s l = tt
group_from-All g (t ∷ ts) a s l = elim (Bool-cases (same_group g t)) [
  | inl e ↦
      let on : g.last ≤ t.offset = ground arith in
      let ahead = Ahead-extend g t ts e s.0 in
      let here =
        group_from-holds (extend g t) ts t ahead s.1 (ground arith) (ground arith) (omega arith)
          (omega arith) in
      (
        rw (e, group_from) here,
        All-mono (λ u p. rw (e, group_from) p) ts
            (group_from-All (extend g t) ts ahead s.1 (omega arith)),
      )
  | inr e ↦
      let ahead = Ahead-new t ts s.0 in
      let here =
        group_from-holds (new_group t) ts t ahead s.1 refl refl (omega arith) (omega arith) in
      (
        rw (e, group_from) (ground arith),
        All-mono (λ u p. rw (e, group_from) (ground arith)) ts
            (group_from-All (new_group t) ts ahead s.1 (omega arith)),
      )
]

-- Groups of later files are references to later files.
group_from-behind :
    (root inode : ℕ) (g : Group) (ts : List Triple)
    → file_lt root inode g.root g.inode ≡ true
    → All (Ahead g) ts
    → IsSorted triple_le ts
    → All (λ d. file_lt root inode d.root d.inode ≡ true) (group_from g ts)
unfolding group_from same_group
group_from-behind root inode g [] f a s = (f, tt)
group_from-behind root inode g (t ∷ ts) f a s = elim (Bool-cases (same_group g t)) [
  | inl e ↦
      rw (e, group_from)
        (group_from-behind root inode (extend g t) ts f (Ahead-extend g t ts e s.0) s.1)
  | inr e ↦
      rw (e, group_from)
        (f, group_from-behind root inode (new_group t) ts (ground arith) (Ahead-new t ts s.0) s.1)
]

group_from-OneEach :
    (g : Group) (ts : List Triple)
    → All (Ahead g) ts
    → IsSorted triple_le ts
    → OneEach (group_from g ts)
unfolding group_from same_group
group_from-OneEach g [] a s = (tt, tt)
group_from-OneEach g (t ∷ ts) a s = elim (Bool-cases (same_group g t)) [
  | inl e ↦ rw (e, group_from) (group_from-OneEach (extend g t) ts (Ahead-extend g t ts e s.0) s.1)
  | inr e ↦
      let ahead = Ahead-new t ts s.0 in
      rw (e, group_from)
        (
          group_from-behind g.root g.inode (new_group t) ts (ground arith) ahead s.1,
          group_from-OneEach (new_group t) ts ahead s.1,
        )
]

-- In order, the items of the walk give references of which no two are of one file, and each item is
-- in the window of the reference of its file.
pub group_triples-All :
    (ts : List Triple)
    → IsSorted triple_le ts
    → All (λ t. any (holds_item t) (group_triples ts) ≡ true) ts
unfolding group_triples
group_triples-All [] s = tt
group_triples-All (t ∷ ts) s =
    let ahead = Ahead-new t ts s.0 in
    (
      group_from-holds (new_group t) ts t ahead s.1 refl refl (omega arith) (omega arith),
      group_from-All (new_group t) ts ahead s.1 (omega arith),
    )

pub group_triples-OneEach : (ts : List Triple) → IsSorted triple_le ts → OneEach (group_triples ts)
unfolding group_triples
group_triples-OneEach [] s = tt
group_triples-OneEach (t ∷ ts) s = group_from-OneEach (new_group t) ts (Ahead-new t ts s.0) s.1
