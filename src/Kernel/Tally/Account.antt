-- ===== src/Kernel/Tally/Account.antt =====
-- `Tally` of src/kernel.rs, from its first item to `finish`: when the extent tree's account of an
-- extent is trusted to name every holder.
use Prim.Native.Nat.{bit_and}
use mathlib.Core.List.{append_assoc, append-nil}
use btrealloc.Prelude.{
  ℕ, ◌+◌, ◌<◌, ◌≡◌, ◌≢◌, refl, sym, ap, ◌∙◌, false, some, List, [], ◌∷◌, ◌++◌, map, arith, ◌==◌,
  ==_refl, if◌then◌else◌, All, sum_of, u64_mod, add64-eq,
}
use btrealloc.Abi.{Abi, IsAbi, Bytes, RawExtentItem, RawDataRef}
use btrealloc.Kernel.Tally.{
  ExtentItem, DataRef, base, files, opaque, Tally, no_tally, add_data_ref, add_or_opaque,
  add_extent_item, add_item, finish,
}
use btrealloc.Kernel.Tally.Inline.{
  drop-append, InlineRef, encode_inline, HasOwnerSize, named_refs, add_all, add_inline-named,
}

-- An item of the extent tree at one address: its type, its key's offset and its bytes.
pub record Entry : Type 0 where
  pub key_type : ℕ
  pub key_offset : ℕ
  pub bytes : Bytes

unfoldable pub add_entries : Abi → Tally → List Entry → Tally
add_entries abi t [] = t
add_entries abi t (e ∷ es) = add_entries abi (add_item abi t e.key_type e.key_offset e.bytes) es

abbrev pub to_data_ref : RawDataRef → DataRef
to_data_ref r = record {
  root = r.root;
  inode = r.objectid;
  position = base r.offset;
  count = r.count;
}

abbrev pub total_count : List RawDataRef → ℕ
total_count rs = sum_of (λ r. r.count) rs

add_all-eq :
    (t : Tally) (rs : List RawDataRef)
    → t.counted + total_count rs < u64_mod
    → add_all t rs ≡ record {
      item = t.item;
      counted = t.counted + total_count rs;
      data_refs = t.data_refs ++ map to_data_ref rs;
      is_opaque = t.is_opaque;
    }
unfolding add_data_ref
add_all-eq t [] h = ground (arith, append-nil t.data_refs)
add_all-eq t (r ∷ rs) h = ground (
  arith,
  add64-eq t.counted r.count,
  add_all-eq (add_data_ref t r) rs,
  append_assoc t.data_refs (to_data_ref r ∷ []) (map to_data_ref rs),
)

-- Items that stand behind the extent item: one data reference each, at any offset.
abbrev pub ref_entry : Abi → ℕ × RawDataRef → Entry
ref_entry abi (at, r) = record {
  key_type = abi.extent_data_ref_key;
  key_offset = at;
  bytes = abi.data_ref.write r;
}

-- What the extent tree holds about one data extent where every reference names its file: the
-- extent item, with references inside, and more references in items of their own.
abbrev pub extent_entries :
    Abi → ℕ → RawExtentItem → List InlineRef → List (ℕ × RawDataRef) → List Entry
extent_entries abi disk_bytes item inside behind =
    record {
      key_type = abi.extent_item_key;
      key_offset = disk_bytes;
      bytes = abi.extent_item.write item ++ encode_inline abi inside;
    }
    ∷ map (ref_entry abi) behind

abbrev pub all_named : List InlineRef → List (ℕ × RawDataRef) → List RawDataRef
all_named inside behind = named_refs inside ++ map (λ p. p.1) behind

module _ (abi : Abi) (ok_abi : IsAbi abi) where
  add_item-ref :
      (t : Tally) (at : ℕ) (r : RawDataRef)
      → add_item abi t abi.extent_data_ref_key at (abi.data_ref.write r) ≡ add_data_ref t r
  unfolding add_item add_or_opaque
  add_item-ref t at r =
      let other : (abi.extent_data_ref_key == abi.extent_item_key) ≡ false =
        ground (arith, ok_abi.item_lt_data_ref) in
      let read : abi.data_ref.read (abi.data_ref.write r) ≡ some r =
        rw append-nil at (ok_abi.data_ref_layout.read-write r []) in
      rw (other, ==_refl abi.extent_data_ref_key, read)

  add_entries-behind :
      (t : Tally) (behind : List (ℕ × RawDataRef))
      → add_entries abi t (map (ref_entry abi) behind) ≡ add_all t (map (λ p. p.1) behind)
  unfolding add_entries
  add_entries-behind t [] = refl
  add_entries-behind t ((at, r) ∷ behind) =
      ap (λ t'. add_entries abi t' (map (ref_entry abi) behind)) (add_item-ref t at r)
      ∙ add_entries-behind (add_data_ref t r) behind

  abbrev seen : ℕ → RawExtentItem → ExtentItem
  seen disk_bytes item = record {
    disk_bytes = disk_bytes;
    refs = item.refs;
    generation = item.generation;
  }

  add_item-extent :
      (disk_bytes : ℕ) (item : RawExtentItem) (inside : List InlineRef)
      → bit_and item.flags abi.extent_flag_data ≢ 0
      → All (HasOwnerSize abi) inside
      → add_item abi no_tally abi.extent_item_key disk_bytes
          (abi.extent_item.write item ++ encode_inline abi inside)
        ≡ add_all (record no_tally { item = some (seen disk_bytes item) }) (named_refs inside)
  unfolding add_item add_extent_item
  add_item-extent disk_bytes item inside flag sizes =
      let is_data : (bit_and item.flags abi.extent_flag_data == 0) ≡ false = ground arith in
      let rest =
        drop-append (abi.extent_item.write item) (encode_inline abi inside) abi.extent_item.size
          (sym (ok_abi.extent_item_layout.length-write item)) in
      rw
        (
          ==_refl abi.extent_item_key,
          ok_abi.extent_item_layout.read-write item (encode_inline abi inside),
          is_data,
          rest,
        )
        (add_inline-named abi ok_abi _ inside sizes)

  add_all-append :
      (t : Tally) (xs ys : List RawDataRef) → add_all t (xs ++ ys) ≡ add_all (add_all t xs) ys
  add_all-append t [] ys = refl
  add_all-append t (x ∷ xs) ys = add_all-append (add_data_ref t x) xs ys

  -- Where every reference to a data extent names its file, and the counts add up to a 64-bit
  -- number, `finish` gives the item as the tree has it, and every one of those references in the
  -- tree's order if their counts add up to the number of references that the item states; if they
  -- do not, the extent is opaque.
  pub finish-account :
      (disk_bytes : ℕ) (item : RawExtentItem) (inside : List InlineRef)
      (behind : List (ℕ × RawDataRef))
      → bit_and item.flags abi.extent_flag_data ≢ 0
      → All (HasOwnerSize abi) inside
      → total_count (all_named inside behind) < u64_mod
      → finish (add_entries abi no_tally (extent_entries abi disk_bytes item inside behind))
        ≡ some (
          record { disk_bytes = disk_bytes; refs = item.refs; generation = item.generation },
          if total_count (all_named inside behind) == item.refs
              then files (map to_data_ref (all_named inside behind))
              else opaque,
        )
  unfolding add_entries finish
  finish-account disk_bytes item inside behind flag sizes fits =
      let start : Tally = record no_tally { item = some (seen disk_bytes item) } in
      let whole = add_all-eq start (all_named inside behind) (omega arith) in
      let first = add_item-extent disk_bytes item inside flag sizes in
      let all =
        ap (λ t. add_entries abi t (map (ref_entry abi) behind)) first
        ∙ add_entries-behind (add_all start (named_refs inside)) behind
        ∙ sym (add_all-append start (named_refs inside) (map (λ p. p.1) behind))
        ∙ whole in
      ap finish all ∙ ground arith
