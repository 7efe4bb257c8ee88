-- ===== src/Kernel/Tally.antt =====
-- `Tally` of src/kernel.rs: what the extent tree says about one extent, read item by item.
pub mod Inline
pub mod Account
use Prim.Native.Nat.{bit_and}
use btrealloc.Prelude.{
  ℕ, zero, suc, Bool, true, false, ◌&&◌, ◌||◌, not, Option, none, some, List, [], ◌∷◌, ◌++◌, ltb,
  leb, ◌==◌, if◌then◌else◌, length, drop, add64,
}
use btrealloc.Abi.{Abi, Bytes, RawExtentItem, RawDataRef}

-- What an extent item says about its extent.
pub record ExtentItem : Type 0 where
  pub disk_bytes : ℕ
  pub refs : ℕ
  pub generation : ℕ

-- Where in its file the items of a `DataRef` sit.
pub data RefOffsets : Type 0 where
  base : ℕ → RefOffsets
  between : ℕ → ℕ → RefOffsets

pub record DataRef : Type 0 where
  pub root : ℕ
  pub inode : ℕ
  pub position : RefOffsets
  pub count : ℕ

pub data Backrefs : Type 0 where
  files : List DataRef → Backrefs
  opaque : Backrefs

pub record Tally : Type 0 where
  pub item : Option ExtentItem
  pub counted : ℕ
  pub data_refs : List DataRef
  pub is_opaque : Bool

-- `Tally::default`
abbrev pub no_tally : Tally
no_tally = record { item = none; counted = 0; data_refs = []; is_opaque = false }

unfoldable pub add_data_ref : Tally → RawDataRef → Tally
unfolding add64
add_data_ref t r = record t {
  counted = add64 t.counted r.count;
  data_refs =
      t.data_refs
      ++ record { root = r.root; inode = r.objectid; position = base r.offset; count = r.count }
        ∷ [];
}

abbrev pub make_opaque : Tally → Tally
make_opaque t = record t { is_opaque = true }

-- What is done with a reference's structure, or with its absence.
unfoldable pub add_or_opaque : Tally → Option RawDataRef → Tally
unfolding add_data_ref
add_or_opaque t (some r) = add_data_ref t r
add_or_opaque t none = make_opaque t

module _ (abi : Abi) where
  -- The length of what follows the kind of an inline reference, and the tally with it; `none` is
  -- the `break` at a reference that is not read here.
  unfoldable pub inline_ref : Tally → ℕ → Bytes → Option (Tally × ℕ)
  unfolding add_data_ref
  inline_ref t tag body =
      if tag == abi.extent_data_ref_key
      then elim (abi.data_ref.read body) [
        | some r ↦ some (add_data_ref t r, abi.data_ref.size)
        | none ↦ none
      ]
      else if tag == abi.extent_owner_ref_key
      then some (t, abi.owner_ref_size)
      else none

  -- The loop of `add_inline`: the tally, and the bytes that it stops at. Every round drops the kind
  -- byte at least, so a round for each byte is enough.
  unfoldable pub inline_loop : ℕ → Tally → Bytes → Tally × Bytes
  inline_loop zero t bytes = (t, bytes)
  inline_loop (suc fuel) t [] = (t, [])
  inline_loop (suc fuel) t (tag ∷ body) = elim (inline_ref t tag body) [
    | none ↦ (t, tag ∷ body)
    | some (t', len) ↦ elim (leb len (length body)) [
      | true ↦ inline_loop fuel t' (drop len body)
      | false ↦ (t', tag ∷ body)
    ]
  ]

  unfoldable pub opaque_unless_empty : Tally × Bytes → Tally
  opaque_unless_empty (t, []) = t
  opaque_unless_empty (t, b ∷ bytes) = make_opaque t

  unfoldable pub add_inline : Tally → Bytes → Tally
  unfolding inline_ref inline_loop opaque_unless_empty
  add_inline t bytes = opaque_unless_empty (inline_loop (length bytes) t bytes)

  -- An extent item, once it is read.
  unfoldable pub add_extent_item : Tally → ℕ → Bytes → Option RawExtentItem → Tally
  unfolding add_inline
  add_extent_item t key_offset bytes none = make_opaque t
  add_extent_item t key_offset bytes (some extent) =
      if bit_and extent.flags abi.extent_flag_data == 0
      then t
      else add_inline
          (record t {
            item = some (record {
              disk_bytes = key_offset;
              refs = extent.refs;
              generation = extent.generation;
            });
          })
          (drop abi.extent_item.size bytes)

  -- `Tally::add_item`
  unfoldable pub add_item : Tally → ℕ → ℕ → Bytes → Tally
  unfolding add_extent_item add_or_opaque
  add_item t key_type key_offset bytes =
      if key_type == abi.extent_item_key
      then add_extent_item t key_offset bytes (abi.extent_item.read bytes)
      else if key_type == abi.extent_data_ref_key
      then add_or_opaque t (abi.data_ref.read bytes)
      else make_opaque t

  -- `is_extent_key`
  unfoldable pub is_extent_key : ℕ → Bool
  is_extent_key key_type = leb abi.extent_item_key key_type && leb key_type abi.shared_data_ref_key

-- `Tally::finish`
unfoldable pub finish : Tally → Option (ExtentItem × Backrefs)
finish t = elim t.item [
  | none ↦ none
  | some item ↦
      some (item, if t.is_opaque || not (t.counted == item.refs) then opaque else files t.data_refs)
]
