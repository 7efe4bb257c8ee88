-- ===== src/Kernel/Search.antt =====
-- `SearchArgs` of src/kernel.rs: searching a range of keys of a tree, over as many calls as it
-- takes. The search itself, `BTRFS_IOC_TREE_SEARCH_V2`, is an argument.
pub mod Items
pub mod Resume
pub mod Whole
use btrealloc.Prelude.{
  ℕ, zero, suc, ◌+◌, ◌-◌, Bool, true, false, ◌&&◌, ◌||◌, Option, none, some, List, [], ◌∷◌, ltb,
  leb, ◌==◌, if◌then◌else◌, length, take, drop, u64_max,
}
use btrealloc.Io.{Result, ok, err, Action, pure, raise, lift, IoError, stuck, other_error, ◌>>=◌}
use btrealloc.Abi.{Abi, Header, Bytes}

abbrev pub buf_size : ℕ
buf_size = 262144

abbrev pub max_item_size : ℕ
max_item_size = 65536

abbrev pub u32_max : ℕ
u32_max = 4294967295

abbrev pub u8_max : ℕ
u8_max = 255

-- Keys order as `(objectid, type, offset)` tuples.
pub record Key : Type 0 where
  pub objectid : ℕ
  pub key_type : ℕ
  pub offset : ℕ

-- The part of `btrfs_ioctl_search_key` that the program sets: `max_transid` is always the largest
-- number, the other transaction bound 0, and `nr_items` is reset before every search.
pub record SearchKey : Type 0 where
  pub tree_id : ℕ
  pub min_key : Key
  pub max_key : Key

-- What a search leaves: the number of items, and the buffer that holds them.
pub record Found : Type 0 where
  pub nr_items : ℕ
  pub buf : Bytes

-- `SearchArgs::new`: all of a tree.
unfoldable pub search_all_of : ℕ → SearchKey
search_all_of tree_id = record {
  tree_id = tree_id;
  min_key = record { objectid = 0; key_type = 0; offset = 0 };
  max_key = record { objectid = u64_max; key_type = u32_max; offset = u64_max };
}

-- `SearchArgs::set_range`
unfoldable pub set_range : SearchKey → Key → Key → SearchKey
set_range sk lo hi = record sk { min_key = lo; max_key = hi }

-- What `items` returns, with what `each` captured.
pub record Read (S : Type 0) : Type 0 where
  pub last : Option Header
  pub pos : ℕ
  pub state : S

abbrev pub and_also : {E A B : Type 0} → Result E A → (A → Result E B) → Result E B
and_also (ok a) f = f a
and_also (err e) f = err e

-- `&buf[start..end]`
abbrev pub slice : ℕ → ℕ → Bytes → Bytes
slice start stop buf = take (stop - start) (drop start buf)

module _ (abi : Abi) {S : Type 0} (each : Header → Bytes → S → Result IoError S) where
  -- The loop of `items`, with `n` items to go.
  unfoldable pub items_loop : Bytes → ℕ → ℕ → Option Header → S → Result IoError (Read S)
  items_loop buf zero pos last s = ok (record { last = last; pos = pos; state = s })
  items_loop buf (suc n) pos last s = elim (abi.header.read (drop pos buf)) [
    | none ↦ err (other_error "search claimed more items than its buffer holds")
    | some header ↦
        let start = pos + abi.header.size in
        let stop = start + header.len in
        elim (ltb (length buf) stop) [
          | true ↦ err (other_error "search item runs past its buffer")
          | false ↦
              and_also (each header (slice start stop buf) s)
                (λ s'. items_loop buf n stop (some header) s')
        ]
  ]

  -- `SearchArgs::items`
  unfoldable pub items : Found → S → Result IoError (Read S)
  unfolding items_loop
  items found s = items_loop found.buf found.nr_items 0 none s

-- Whether the search reached the end of its range: there was room left for any item.
unfoldable pub complete : Abi → {S : Type 0} → Read S → Bool
complete abi r = leb (abi.header.size + max_item_size) (buf_size - r.pos)

-- Where a search carries on: just past the last key returned, or nowhere after the last of all keys.
unfoldable pub next_min : Header → Option Key
next_min last =
    if ltb last.offset u64_max
    then some
        (record { objectid = last.objectid; key_type = last.key_type; offset = last.offset + 1 })
    else if ltb last.key_type u8_max
    then some (record { objectid = last.objectid; key_type = last.key_type + 1; offset = 0 })
    else if ltb last.objectid u64_max
    then some (record { objectid = last.objectid + 1; key_type = 0; offset = 0 })
    else none

-- The end of a round of `search_all`: `again` is its next round, from a key on.
unfoldable pub resume :
    {W S : Type 0} → Bool → Option Key → (Key → S → Action W IoError S) → S → Action W IoError S
resume true key again s = pure s
resume false none again s = pure s
resume false (some key) again s = again key s

module _ (abi : Abi) {W S : Type 0} (search : SearchKey → Action W IoError Found)
    (each : Header → Bytes → S → Result IoError S) where
  -- `SearchArgs::search_all`, with fuel for its rounds.
  unfoldable pub search_all : ℕ → SearchKey → S → Action W IoError S
  unfolding items complete next_min resume
  search_all zero sk s = raise stuck
  search_all (suc fuel) sk s = do
    found ← search sk
    r ← lift (items abi each found s)
    elim r.last [
      | none ↦ pure r.state
      | some last ↦
          resume (complete abi r) (next_min last)
            (λ key. search_all fuel (record sk { min_key = key })) r.state
    ]
