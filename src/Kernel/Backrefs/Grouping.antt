-- ===== src/Kernel/Backrefs/Grouping.antt =====
-- The grouping at the end of `logical_ino` in src/kernel.rs: each file's items are counted.
use btrealloc.Prelude.{
  ℕ, suc, ◌+◌, ◌<◌, ◌≡◌, refl, ◌∙◌, ◌&&◌, List, [], ◌∷◌, arith, ◌==◌, if◌then◌else◌, Bool-cases,
  inl, inr, length, sort_by, insert_by, add64, add64-eq, u64_mod,
}
use btrealloc.Kernel.Tally.{DataRef}
use btrealloc.Kernel.Backrefs.{
  Triple, triple_le, Group, new_group, same_group, extend, group_from, group_triples,
}

module _ (root inode : ℕ) where
  -- How many of the walk's items are of one file.
  abbrev pub items_of : List Triple → ℕ
  items_of [] = 0
  items_of (t ∷ ts) = if t.root == root && t.inode == inode then suc (items_of ts) else items_of ts

  -- How many items the references of that file stand for.
  abbrev pub counted_for : List DataRef → ℕ
  counted_for [] = 0
  counted_for (d ∷ ds) =
      if d.root == root && d.inode == inode then d.count + counted_for ds else counted_for ds

  abbrev counted_in : Group → ℕ
  counted_in g = if g.root == root && g.inode == inode then g.count else 0

  group_from-counted :
      (g : Group) (ts : List Triple)
      → g.count + length ts < u64_mod
      → counted_for (group_from g ts) ≡ counted_in g + items_of ts
  unfolding group_from same_group
  group_from-counted g [] h = ground arith
  group_from-counted g (t ∷ ts) h = elim (Bool-cases (same_group g t)) [
    | inl e ↦
        let plain : add64 g.count 1 ≡ g.count + 1 = add64-eq g.count 1 (omega arith) in
        let rest = group_from-counted (extend g t) ts (omega arith) in
        rw (e, group_from) (rest ∙ ground arith)
    | inr e ↦
        let rest = group_from-counted (new_group t) ts (omega arith) in
        rw (e, group_from) (ground arith)
  ]

  insert_by-items_of :
      (t : Triple) (ts : List Triple) → items_of (insert_by triple_le t ts) ≡ items_of (t ∷ ts)
  unfolding insert_by
  insert_by-items_of t [] = refl
  insert_by-items_of t (s ∷ ts) = elim (Bool-cases (triple_le t s)) [
    | inl e ↦ rw e refl
    | inr e ↦ rw e (let rest = insert_by-items_of t ts in ground arith)
  ]

  sort_by-items_of : (ts : List Triple) → items_of (sort_by triple_le ts) ≡ items_of ts
  unfolding sort_by
  sort_by-items_of [] = refl
  sort_by-items_of (t ∷ ts) =
      insert_by-items_of t (sort_by triple_le ts) ∙ (let rest = sort_by-items_of ts in ground arith)

  pub group_triples-counted :
      (ts : List Triple) → length ts < u64_mod → counted_for (group_triples ts) ≡ items_of ts
  unfolding group_triples
  group_triples-counted [] h = refl
  group_triples-counted (t ∷ ts) h =
      let all = group_from-counted (new_group t) ts (omega arith) in all ∙ ground arith

  pub sorted-counted :
      (ts : List Triple)
      → length (sort_by triple_le ts) < u64_mod
      → counted_for (group_triples (sort_by triple_le ts)) ≡ items_of ts
  sorted-counted ts h = group_triples-counted (sort_by triple_le ts) h ∙ sort_by-items_of ts
