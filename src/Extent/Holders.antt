-- ===== src/Extent/Holders.antt =====
-- `holders` of src/extent.rs: the references of an extent, grouped by the file that holds them.
use mathlib.Core.List.{append_assoc, Perm}
use btrealloc.Prelude.{
  ℕ, ◌≤◌, ◌<◌, ◌≡◌, refl, ap, ◌∙◌, ◌⊎◌, inl, inr, ◌≢◌, true, false, List, [], ◌∷◌, ◌++◌, arith, All,
  All-mono, All-append, Bool-cases, IsSorted, IsOrder, sort_by, sort_by-perm, sort_by-IsSorted,
}
use btrealloc.Extent.{
  ExtentRef, Extent, Holder, holder_le, same_file, new_holder, group_from, group_refs, holders,
}

pub holder_le-IsOrder : IsOrder holder_le
unfolding holder_le
holder_le-IsOrder = record { total = λ a b. ground arith; trans = λ a b c p q. ground arith }

-- The references of all holders, one holder after the other.
abbrev pub all_refs : List Holder → List ExtentRef
all_refs [] = []
all_refs (h ∷ hs) = h.refs ++ all_refs hs

group_from-all_refs : (h : Holder) (rs : List ExtentRef) → all_refs (group_from h rs) ≡ h.refs ++ rs
unfolding group_from
group_from-all_refs h [] = refl
group_from-all_refs h (r ∷ rs) = elim (Bool-cases (same_file h r)) [
  | inl e ↦ rw (e, group_from) (group_from-all_refs _ rs ∙ append_assoc h.refs (r ∷ []) rs)
  | inr e ↦
      rw (e, group_from)
        (ap (◌++◌ h.refs) (unfold new_holder in group_from-all_refs (new_holder r) rs))
]

pub group_refs-all_refs : (rs : List ExtentRef) → all_refs (group_refs rs) ≡ rs
unfolding group_refs new_holder
group_refs-all_refs [] = refl
group_refs-all_refs (r ∷ rs) = group_from-all_refs (new_holder r) rs

-- One file before another: by subvolume, then by inode.
abbrev pub FileLt : ℕ → ℕ → ℕ → ℕ → Type 0
FileLt root inode root' inode' = (root < root') ⊎ ((root ≡ root') × (inode < inode'))

abbrev pub FileOf : Holder → ExtentRef → Type 0
FileOf h r = (r.root ≡ h.root) × (r.inode ≡ h.inode)

abbrev pub InFileOrder : List ExtentRef → Type 0
InFileOrder [] = Unit
InFileOrder (r ∷ rs) = All (λ s. r.file_offset ≤ s.file_offset) rs × InFileOrder rs

-- A holder has references, all of its own file, in file order.
pub record IsHolder (h : Holder) : Type 0 where
  pub some_ref : h.refs ≢ []
  pub own : All (FileOf h) h.refs
  pub in_order : InFileOrder h.refs

-- Every holder is sound, and its file comes before the files of the ones after it: no two
-- holders are of one file.
abbrev pub AreHolders : List Holder → Type 0
AreHolders [] = Unit
AreHolders (h ∷ hs) =
    IsHolder h × All (λ g. FileLt h.root h.inode g.root g.inode) hs × AreHolders hs

IsSorted-append_left :
    (xs ys : List ExtentRef) → IsSorted holder_le (xs ++ ys) → IsSorted holder_le xs
IsSorted-append_left [] ys s = tt
IsSorted-append_left (x ∷ xs) ys s = (All-append_left xs s.0, IsSorted-append_left xs ys s.1)
  where
    All-append_left :
        (l : List ExtentRef)
        → All (λ y. holder_le x y ≡ true) (l ++ ys)
        → All (λ y. holder_le x y ≡ true) l
    All-append_left [] a = tt
    All-append_left (z ∷ l) a = (a.0, All-append_left l a.1)

IsSorted-append_right :
    (xs ys : List ExtentRef) → IsSorted holder_le (xs ++ ys) → IsSorted holder_le ys
IsSorted-append_right [] ys s = s
IsSorted-append_right (x ∷ xs) ys s = IsSorted-append_right xs ys s.1

offset-le :
    (h : Holder) (a b : ExtentRef)
    → FileOf h a
    → FileOf h b
    → holder_le a b ≡ true
    → a.file_offset ≤ b.file_offset
unfolding holder_le
offset-le h a b p q e = ground arith

offsets-le :
    (h : Holder) (a : ExtentRef) (rs : List ExtentRef)
    → FileOf h a
    → All (FileOf h) rs
    → All (λ y. holder_le a y ≡ true) rs
    → All (λ s. a.file_offset ≤ s.file_offset) rs
offsets-le h a [] p q e = tt
offsets-le h a (r ∷ rs) p q e = (offset-le h a r p q.0 e.0, offsets-le h a rs p q.1 e.1)

InFileOrder-of_IsSorted :
    (h : Holder) (rs : List ExtentRef) → All (FileOf h) rs → IsSorted holder_le rs → InFileOrder rs
InFileOrder-of_IsSorted h [] a s = tt
InFileOrder-of_IsSorted h (r ∷ rs) a s =
    (offsets-le h r rs a.0 a.1 s.0, InFileOrder-of_IsSorted h rs a.1 s.1)

All-middle :
    (x r : ExtentRef) (xs rs : List ExtentRef)
    → All (λ y. holder_le x y ≡ true) (xs ++ r ∷ rs)
    → holder_le x r ≡ true
All-middle x r [] rs a = a.0
All-middle x r (y ∷ xs) rs a = All-middle x r xs rs a.1

-- A reference of another file than `h` that is sorted behind one of `h`.
FileLt-of_le :
    (h : Holder) (x r : ExtentRef)
    → FileOf h x
    → same_file h r ≡ false
    → holder_le x r ≡ true
    → FileLt h.root h.inode r.root r.inode
unfolding same_file holder_le
FileLt-of_le h x r p e l = ground arith

next-FileLt :
    (h : Holder) (l : List ExtentRef) (r : ExtentRef) (rs : List ExtentRef)
    → l ≢ []
    → All (FileOf h) l
    → IsSorted holder_le (l ++ r ∷ rs)
    → same_file h r ≡ false
    → FileLt h.root h.inode r.root r.inode
next-FileLt h [] r rs n o s e = absurd (n refl)
next-FileLt h (x ∷ xs) r rs n o s e = FileLt-of_le h x r o.0 e (All-middle x r xs rs s.0)

FileLt-trans :
    (h : Holder) (r s : ExtentRef)
    → FileLt h.root h.inode r.root r.inode
    → holder_le r s ≡ true
    → FileLt h.root h.inode s.root s.inode
unfolding holder_le
FileLt-trans h r s p e = ground arith

group_from-FileLt :
    (h g : Holder) (rs : List ExtentRef)
    → FileLt h.root h.inode g.root g.inode
    → All (λ r. FileLt h.root h.inode r.root r.inode) rs
    → All (λ k. FileLt h.root h.inode k.root k.inode) (group_from g rs)
unfolding group_from new_holder
group_from-FileLt h g [] p a = (p, tt)
group_from-FileLt h g (r ∷ rs) p a = elim (Bool-cases (same_file g r)) [
  | inl e ↦ rw (e, group_from) (group_from-FileLt h _ rs p a.1)
  | inr e ↦ rw (e, group_from) (p, group_from-FileLt h (new_holder r) rs a.0 a.1)
]

append-ne-nil : (l : List ExtentRef) (r : ExtentRef) → (l ++ r ∷ []) ≢ []
append-ne-nil [] r e = cc
append-ne-nil (x ∷ l) r e = cc

FileOf-of_same : (h : Holder) (r : ExtentRef) → same_file h r ≡ true → FileOf h r
unfolding same_file
FileOf-of_same h r e = ground arith

group_from-AreHolders :
    (h : Holder) (rs : List ExtentRef)
    → h.refs ≢ []
    → All (FileOf h) h.refs
    → IsSorted holder_le (h.refs ++ rs)
    → AreHolders (group_from h rs)
unfolding group_from new_holder
group_from-AreHolders h [] n o s = (
  record {
    some_ref = n;
    own = o;
    in_order = InFileOrder-of_IsSorted h h.refs o (IsSorted-append_left h.refs [] s);
  },
  tt,
  tt,
)
group_from-AreHolders h (r ∷ rs) n o s = elim (Bool-cases (same_file h r)) [
  | inl e ↦
      rw (e, group_from)
        (group_from-AreHolders (record { root = h.root; inode = h.inode; refs = h.refs ++ r ∷ [] })
          rs (append-ne-nil h.refs r)
          (All-append (FileOf h) h.refs (r ∷ []) o (FileOf-of_same h r e, tt)) (rw append_assoc s))
  | inr e ↦
      let lt = next-FileLt h h.refs r rs n o s e in
      let rest = IsSorted-append_right h.refs (r ∷ rs) s in
      rw (e, group_from)
        (
          record {
            some_ref = n;
            own = o;
            in_order = InFileOrder-of_IsSorted h h.refs o (IsSorted-append_left h.refs (r ∷ rs) s);
          },
          group_from-FileLt h (new_holder r) rs lt
              (All-mono (λ z. FileLt-trans h r z lt) rs rest.0),
          group_from-AreHolders (new_holder r) rs (λ p. cc) ((refl, refl), tt) rest,
        )
]

group_refs-AreHolders : (rs : List ExtentRef) → IsSorted holder_le rs → AreHolders (group_refs rs)
unfolding group_refs new_holder
group_refs-AreHolders [] s = tt
group_refs-AreHolders (r ∷ rs) s =
    group_from-AreHolders (new_holder r) rs (λ p. cc) ((refl, refl), tt) s

-- The holders of an extent hold its references, each once; every holder has at least one, all of
-- its own file and in file order; and no two holders are of one file.
pub holders-AreHolders : (e : Extent) → AreHolders (holders e) × Perm (all_refs (holders e)) e.refs
unfolding holders
holders-AreHolders e = (
  group_refs-AreHolders (sort_by holder_le e.refs)
      (sort_by-IsSorted holder_le holder_le-IsOrder e.refs),
  rw group_refs-all_refs (sort_by-perm holder_le e.refs),
)
