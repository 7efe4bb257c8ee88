-- ===== src/Kernel/Refs/Collect.antt =====
-- `collect` of src/kernel.rs, while nothing writes: it returns the file extent items that the
-- references of an extent stand for, or says that they no longer fit.
use btrealloc.Prelude.{
  ℕ, ◌-◌, ◌<◌, ◌≡◌, refl, sym, ap, ◌∙◌, Bool, true, false, Option, none, some, List, [], ◌∷◌, ◌++◌,
  arith, length, ◌==◌, ◌&&◌, ◌||◌, if◌then◌else◌, length-append, Bool-cases, inl, inr, All,
}
use mathlib.Core.List.{append_assoc, append-nil}
use btrealloc.Io.{Result, ok, err, IoError, changed}
use btrealloc.Abi.{Abi, IsAbi, Header, Bytes}
use btrealloc.Extent.{ExtentRef}
use btrealloc.Kernel.Search.{search_all_of, set_range}
use btrealloc.Kernel.Search.Items.{Item, fold_items}
use btrealloc.Kernel.Search.Resume.{select, in_range, length-keep}
use btrealloc.Kernel.Tally.{DataRef}
use btrealloc.Kernel.Os.{Os, State, Filesystem}
use btrealloc.Kernel.Frozen.{Frozen, search_all-frozen}
use btrealloc.Kernel.Refs.Standing.{
  cons_some, only, only-ext, extents_between, refs_in, refs_in-select, first_place, last_place,
  is_meant, offset_window-eq, is_wanted-eq,
}
use btrealloc.Kernel.Refs.{
  ref_of_item, or_skip, offset_window, is_wanted, push_wanted, inode_key, search_extent_refs,
  data_ref_extents, collect_loop, or_unreferenced, collect, inode_holds_extent,
}

module _ {S : Type 0} (each : ExtentRef → S → S) where
  -- Every reference in turn.
  abbrev pub fold_refs : List ExtentRef → S → S
  fold_refs [] s = s
  fold_refs (r ∷ rs) s = fold_refs rs (each r s)

  fold_refs-cons :
      (o : Option ExtentRef) (rs : List ExtentRef) (s : S)
      → fold_refs (cons_some o rs) s ≡ fold_refs rs (or_skip each o s)
  fold_refs-cons none rs s = refl
  fold_refs-cons (some r) rs s = refl

  -- What `search_extent_refs` does with an item.
  abbrev each_item : Abi → ℕ → ℕ → Header → Bytes → S → Result IoError S
  each_item abi root inode header item s =
      ok (or_skip each (ref_of_item abi root inode header item) s)

  fold_items-refs_in :
      (abi : Abi) (root inode : ℕ) (is : List Item) (s : S)
      → fold_items (each_item abi root inode) is s ≡ ok (fold_refs (refs_in abi root inode is) s)
  unfolding fold_items refs_in
  fold_items-refs_in abi root inode [] s = refl
  fold_items-refs_in abi root inode (i ∷ is) s =
      let o = ref_of_item abi root inode i.header i.body in
      fold_items-refs_in abi root inode is (or_skip each o s)
      ∙ ap ok (sym (fold_refs-cons o (refs_in abi root inode is) s))

fold_refs-push_wanted :
    (d : DataRef) (a n : ℕ) (rs refs : List ExtentRef)
    → fold_refs (push_wanted d a n) rs refs ≡ refs ++ only (is_wanted d a n) rs
unfolding push_wanted only
fold_refs-push_wanted d a n [] refs = sym (append-nil refs)
fold_refs-push_wanted d a n (r ∷ rs) refs = elim (Bool-cases (is_wanted d a n r)) [
  | inl e ↦ rw e (
      fold_refs-push_wanted d a n rs (refs ++ r ∷ [])
      ∙ append_assoc refs (r ∷ []) (only (is_wanted d a n) rs))
  | inr e ↦ rw e (fold_refs-push_wanted d a n rs refs)
]

module _ (os : Os) (fs : Filesystem os) (ok_abi : IsAbi os.abi) (s : State os)
    (z : Frozen os fs s.world) (fuel : ℕ) (enough : (id : ℕ) → length (z.trees id) < fuel) where
  -- The references that one entry of the extent tree stands for, of all the items of its subvolume.
  unfoldable pub refs_of : ℕ → ℕ → DataRef → List ExtentRef
  refs_of disk_address disk_bytes d = only (is_meant d.position disk_address disk_bytes) (
      extents_between os.abi d.root d.inode (first_place disk_bytes d.position)
        (last_place disk_bytes d.position) (z.trees d.root))

  abbrev pub all_refs_of : ℕ → ℕ → List DataRef → List ExtentRef
  all_refs_of a n [] = []
  all_refs_of a n (d ∷ ds) = refs_of a n d ++ all_refs_of a n ds

  -- Whether each entry stands for as many references as it states.
  abbrev pub counts_hold : ℕ → ℕ → List DataRef → Bool
  counts_hold a n [] = true
  counts_hold a n (d ∷ ds) = length (refs_of a n d) == d.count && counts_hold a n ds

  -- The subvolumes of all entries are there.
  abbrev pub AllThere : List DataRef → Type 0
  AllThere ds = All (λ d. z.has d.root ≡ true) ds

  search_extent_refs-frozen :
      {S : Type 0} (root inode from to : ℕ) (each : ExtentRef → S → S) (acc : S)
      → z.has root ≡ true
      → search_extent_refs os fuel fs
          (inode_key os fuel fs root inode from to)
          root
          inode
          each
          acc
          s
        ≡ (ok (fold_refs each (extents_between os.abi root inode from to (z.trees root)) acc), s)
  unfolding search_extent_refs inode_key set_range search_all_of
  search_extent_refs-frozen root inode from to each acc there =
      let sk = inode_key os fuel fs root inode from to in
      search_all-frozen os fs ok_abi s z
        (λ header item t. ok (or_skip each (ref_of_item os.abi root inode header item) t)) fuel sk
        acc there (omega (arith, length-keep (in_range sk) (z.trees root), enough root))
      ∙ ap (λ r. (r, s)) (fold_items-refs_in each os.abi root inode (select sk (z.trees root)) acc)
      ∙ ap (λ rs. (ok (fold_refs each rs acc), s))
          (refs_in-select os fuel fs root inode from to (z.trees root))

  data_ref_extents-frozen :
      (d : DataRef) (a n : ℕ) (refs : List ExtentRef)
      → z.has d.root ≡ true
      → data_ref_extents os fuel fs d a n refs s ≡ (ok (refs ++ refs_of a n d), s)
  unfolding data_ref_extents refs_of
  data_ref_extents-frozen d a n refs there =
      let w = offset_window n d.position in
      let (first, last) = offset_window-eq n d.position in
      let found = extents_between os.abi d.root d.inode w.0 w.1 (z.trees d.root) in
      search_extent_refs-frozen d.root d.inode w.0 w.1 (push_wanted d a n) refs there
      ∙ ap (λ r. (ok r, s))
          (fold_refs-push_wanted d a n found refs
            ∙ ap (λ rs. refs ++ rs)
                (only-ext (is_wanted d a n) (is_meant d.position a n) (is_wanted-eq d a n) found)
            ∙ rw (first, last) refl)

  collect_loop-frozen :
      (a n : ℕ) (ds : List DataRef) (refs : List ExtentRef)
      → AllThere ds
      → collect_loop os fuel fs a n ds refs s ≡ (
        if counts_hold a n ds
            then ok (refs ++ all_refs_of a n ds)
            else err (changed "changed while it was being read"),
        s,
      )
  unfolding collect_loop
  collect_loop-frozen a n [] refs there = ap (λ r. (ok r, s)) (sym (append-nil refs))
  collect_loop-frozen a n (d ∷ ds) refs there =
      let grown : length (refs ++ refs_of a n d) - length refs ≡ length (refs_of a n d) =
        omega (arith, length-append refs (refs_of a n d)) in
      rw (data_ref_extents-frozen d a n refs there.0, grown)
        (elim (Bool-cases (length (refs_of a n d) == d.count)) [
          | inl e ↦ rw e (
              collect_loop-frozen a n ds (refs ++ refs_of a n d) there.1
              ∙ rw (append_assoc refs (refs_of a n d) (all_refs_of a n ds)) refl)
          | inr e ↦ rw e refl
        ])

  -- What `collect` comes to: the references, unless the counts do not hold or there are none.
  abbrev pub found_or_gone : List ExtentRef → Result IoError (List ExtentRef)
  found_or_gone [] = err (changed "no longer referenced")
  found_or_gone (r ∷ refs) = ok (r ∷ refs)

  or_unreferenced-eq :
      (refs : List ExtentRef) → or_unreferenced os fuel fs refs s ≡ (found_or_gone refs, s)
  unfolding or_unreferenced
  or_unreferenced-eq [] = refl
  or_unreferenced-eq (r ∷ refs) = refl

  -- While nothing writes, with more fuel than a tree has items, and if the subvolumes of all entries are
  -- there, `collect` returns exactly the references that the entries stand for, entry by entry in the
  -- trees' order, if each entry stands for as many as it states and there is one at all; if not, it
  -- fails with `Changed`. It changes nothing. An entry stands for every file extent item of its inode,
  -- at an offset from the base to the last place of the extent, or between the two that it names, that
  -- is not inline, points into the extent, and does so from the entry's base, if it has one.
  pub collect-exact :
      (a n : ℕ) (ds : List DataRef)
      → AllThere ds
      → collect os fuel fs a n ds s ≡ (
        if counts_hold a n ds
            then found_or_gone (all_refs_of a n ds)
            else err (changed "changed while it was being read"),
        s,
      )
  unfolding collect
  collect-exact a n ds there =
      rw (collect_loop-frozen a n ds [] there) (elim (Bool-cases (counts_hold a n ds)) [
        | inl e ↦ rw e (or_unreferenced-eq (all_refs_of a n ds))
        | inr e ↦ rw e refl
      ])

  -- Whether a reference of a file holds the extent.
  abbrev pub any_at : ℕ → List ExtentRef → Bool
  any_at a [] = false
  any_at a (r ∷ rs) = r.disk_address == a || any_at a rs

  fold_refs-or :
      (a : ℕ) (rs : List ExtentRef) (found : Bool)
      → fold_refs (λ r found. found || r.disk_address == a) rs found ≡ (found || any_at a rs)
  fold_refs-or a [] found = ground arith
  fold_refs-or a (r ∷ rs) found = fold_refs-or a rs (found || r.disk_address == a) ∙ ground arith

  -- While nothing writes, and with more fuel than a tree has items, `inode_holds_extent` for a
  -- subvolume that is there says whether one of the inode's file extent items at an offset from the
  -- first to the last, both included, that is not inline and no hole, points into the extent, and
  -- changes nothing.
  pub inode_holds_extent-exact :
      (root inode first last a : ℕ)
      → z.has root ≡ true
      → inode_holds_extent os fuel fs root inode first last a s
        ≡ (ok (any_at a (extents_between os.abi root inode first last (z.trees root))), s)
  unfolding inode_holds_extent
  inode_holds_extent-exact root inode first last a there =
      search_extent_refs-frozen root inode first last (λ r found. found || r.disk_address == a)
        false there
      ∙ ap (λ b. (ok b, s)) (fold_refs-or a _ false)
