-- ===== src/Kernel/Walk/Range.antt =====
-- What the searches of `extent_batch` and of `tally` in src/kernel.rs find of a tree: the items of the
-- extents from an address on, or of one of them.
use btrealloc.Prelude.{
  ℕ, ◌+◌, ◌≤◌, ◌<◌, ◌≡◌, refl, sym, ap, ◌∙◌, Bool, false, ◌&&◌, List, [], ◌∷◌, arith, All, All-mono,
  Bool-cases, inl, inr, length,
}
use btrealloc.Io.{ok}
use btrealloc.Kernel.Search.{set_range, search_all_of}
use btrealloc.Kernel.Search.Items.{Item, fold_items}
use btrealloc.Kernel.Search.Resume.{keep, select, in_range, key_of, IsKey, keep-keep, length-keep}
use btrealloc.Kernel.Tally.{Tally, is_extent_key}
use btrealloc.Kernel.Os.{Os, Filesystem}
use btrealloc.Kernel.Walk.{Tallies, extent_key, one_extent_key, batch_item, tally_item}
use btrealloc.Kernel.Walk.Group.{address, push_all, add_items}
use btrealloc.Kernel.Walk.Batch.{at, behind, is_data, from_address}

module _ (os : Os) (fuel : ℕ) (fs : Filesystem os) where
  pub fold_items-batch_item :
      (is : List Item) (ts : Tallies)
      → fold_items (batch_item os fuel fs) is ts
        ≡ ok (push_all os.abi ts (keep (is_data os.abi) is))
  unfolding fold_items batch_item
  fold_items-batch_item [] ts = refl
  fold_items-batch_item (i ∷ is) ts = elim (Bool-cases (is_data os.abi i)) [
    | inl e ↦ rw e (fold_items-batch_item is _)
    | inr e ↦ rw e (fold_items-batch_item is ts)
  ]

  pub fold_items-tally_item :
      (is : List Item) (t : Tally)
      → fold_items (tally_item os fuel fs) is t ≡ ok (add_items os.abi t (keep (is_data os.abi) is))
  unfolding fold_items tally_item
  fold_items-tally_item [] t = refl
  fold_items-tally_item (i ∷ is) t = elim (Bool-cases (is_data os.abi i)) [
    | inl e ↦ rw e (fold_items-tally_item is _)
    | inr e ↦ rw e (fold_items-tally_item is t)
  ]

  module _ (tree : List Item) (keys : All (λ i. IsKey (key_of i.header)) tree) (from : ℕ) where
    -- What the search of a batch finds of extents is what there is from its address on.
    pub data_of_select :
        keep (is_data os.abi) (select (extent_key os fuel fs from) tree)
        ≡ keep (from_address os.abi from) tree
    unfolding extent_key set_range search_all_of is_extent_key
    data_of_select = sym (
        keep-keep (is_data os.abi) (from_address os.abi from)
          (in_range (extent_key os fuel fs from)) tree (All-mono (λ i k. ground arith) tree keys))

    module _ (o : ℕ) (le : from ≤ o) where
      pub data_of_one :
          keep (is_data os.abi) (select (one_extent_key os fuel fs o) tree)
          ≡ keep (at o) (keep (from_address os.abi from) tree)
      unfolding one_extent_key set_range search_all_of is_extent_key
      data_of_one =
          let both : Item → Bool = λ i. at o i && is_data os.abi i in
          sym (
            keep-keep (is_data os.abi) both (in_range (one_extent_key os fuel fs o)) tree
              (All-mono (λ i k. ground arith) tree keys))
          ∙ keep-keep (at o) both (from_address os.abi from) tree
              (All-mono (λ i k. ground arith) tree keys)

      pub data_behind :
          keep (from_address os.abi (o + 1)) tree
          ≡ keep (behind o) (keep (from_address os.abi from) tree)
      data_behind =
          keep-keep (behind o) (from_address os.abi (o + 1)) (from_address os.abi from) tree
            (All-mono (λ i k. ground arith) tree keys)

    -- Past the item that the search of a batch finds first, there are fewer items to find.
    pub length-select_past :
        (n : ℕ) (g : Item) (rest : List Item)
        → select (extent_key os fuel fs from) tree ≡ g ∷ rest
        → from < n
        → address g < n
        → length (select (extent_key os fuel fs n) tree)
          < length (select (extent_key os fuel fs from) tree)
    unfolding extent_key set_range search_all_of
    length-select_past n g rest e further below =
        let later = in_range (extent_key os fuel fs n) in
        let passed : later g ≡ false = ground arith in
        let same : select (extent_key os fuel fs n) tree ≡ keep later (g ∷ rest) =
          keep-keep later later (in_range (extent_key os fuel fs from)) tree
            (All-mono (λ i k. ground arith) tree keys)
          ∙ ap (keep later) e in
        let fewer : length (keep later (g ∷ rest)) ≤ length rest =
          rw passed (length-keep later rest) in
        omega (arith, fewer, ap length same, ap length e)
