-- ===== src/Kernel/Walk.antt =====
-- `extent_batch`, `tally`, `walk` and `ExtentWalk::next` of src/kernel.rs: every data extent of the
-- filesystem, a batch of the extent tree at a time.
pub mod Group
pub mod Batch
pub mod Range
pub mod Once
pub mod Resolving
pub mod Whole
pub mod Extents
use btrealloc.Prelude.{
  ℕ, zero, suc, ◌+◌, Bool, true, false, Option, none, some, List, [], ◌∷◌, ◌++◌, ltb, leb, ◌==◌,
  if◌then◌else◌, u64_max,
}
use btrealloc.Io.{
  Result, ok, err, Action, IoError, stuck, pure, raise, lift, modify, attempt, ◌>>=◌, ◌>>◌,
}
use btrealloc.Abi.{Abi, Header, Bytes}
use btrealloc.Extent.{Extent, ExtentRef}
use btrealloc.Kernel.Search.{
  Key, SearchKey, Read, search_all_of, set_range, items, complete, search_all,
}
use btrealloc.Kernel.Tally.{ExtentItem, Backrefs, Tally, no_tally, add_item, is_extent_key, finish}
use btrealloc.Kernel.Os.{Os, State, Filesystem, Io, on_world}
use btrealloc.Kernel.Files.{sync, generation as fs_generation}
use btrealloc.Kernel.Resolve.{extent_of, resolve}

-- An extent as a batch reads it.
pub record Unresolved : Type 0 where
  pub disk_address : ℕ
  pub item : ExtentItem
  pub backrefs : Backrefs

pub data Resolved : Type 0 where
  resolved : Extent → Resolved
  left_alone : ℕ → IoError → Resolved

abbrev pub Tallies : Type 0
Tallies = List (ℕ × Tally)

-- One item, added to the last tally if that is of its address, and to a new one else.
unfoldable pub push_item : Abi → Header → Bytes → Tallies → Tallies
push_item abi h item [] = (h.objectid, add_item abi no_tally h.key_type h.offset item) ∷ []
push_item abi h item ((address, t) ∷ []) =
    if address == h.objectid
    then (address, add_item abi t h.key_type h.offset item) ∷ []
    else (address, t) ∷ (h.objectid, add_item abi no_tally h.key_type h.offset item) ∷ []
push_item abi h item (x ∷ y ∷ ts) = x ∷ push_item abi h item (y ∷ ts)

-- `tallies.pop()`, if the last tally is of this address.
unfoldable pub pop_address : ℕ → Tallies → Tallies
pop_address at [] = []
pop_address at ((address, t) ∷ []) = if address == at then [] else (address, t) ∷ []
pop_address at (x ∷ y ∷ ts) = x ∷ pop_address at (y ∷ ts)

-- `.filter_map(…)`: the data extents that are not newer than `generation`.
unfoldable pub to_unresolved : ℕ → ℕ → Tally → Option Unresolved
to_unresolved generation address t = elim (finish t) [
  | none ↦ none
  | some (item, backrefs) ↦
      if leb item.generation generation
      then some (record { disk_address = address; item = item; backrefs = backrefs })
      else none
]

abbrev pub cons_some : {A : Type 0} → Option A → List A → List A
cons_some none xs = xs
cons_some (some x) xs = x ∷ xs

unfoldable pub batch_of : ℕ → Tallies → List Unresolved
batch_of generation [] = []
batch_of generation ((address, t) ∷ ts) =
    cons_some (to_unresolved generation address t) (batch_of generation ts)

unfoldable pub checked_add_one : ℕ → Option ℕ
checked_add_one n = if ltb n u64_max then some (n + 1) else none

module _ (os : Os) (fuel : ℕ) (fs : Filesystem os) where
  unfoldable pub extent_key : ℕ → SearchKey
  extent_key from =
      set_range (search_all_of os.abi.extent_tree_objectid)
        (record { objectid = from; key_type = os.abi.extent_item_key; offset = 0 })
        (record { objectid = u64_max; key_type = os.abi.shared_data_ref_key; offset = u64_max })

  unfoldable pub one_extent_key : ℕ → SearchKey
  one_extent_key address =
      set_range (search_all_of os.abi.extent_tree_objectid)
        (record { objectid = address; key_type = os.abi.extent_item_key; offset = 0 })
        (record { objectid = address; key_type = os.abi.shared_data_ref_key; offset = u64_max })

  -- `each` of `extent_batch` and of `tally`.
  unfoldable pub batch_item : Header → Bytes → Tallies → Result IoError Tallies
  batch_item h item ts =
      if is_extent_key os.abi h.key_type then ok (push_item os.abi h item ts) else ok ts

  unfoldable pub tally_item : Header → Bytes → Tally → Result IoError Tally
  tally_item h item t =
      if is_extent_key os.abi h.key_type
      then ok (add_item os.abi t h.key_type h.offset item)
      else ok t

  -- `tally`
  unfoldable pub tally : ℕ → Io os Tally
  tally address =
      search_all os.abi (λ sk. on_world (os.tree_search fs.file sk)) tally_item fuel
        (one_extent_key address) no_tally

  unfoldable pub clear_snapshots : State os → State os
  clear_snapshots s = record s { last_snapshots = [] }

  -- The tallies of a batch, and where the next one starts: the last extent that a search reached
  -- before its room ran out is read again on its own.
  unfoldable pub end_of_batch : Read Tallies → Io os (Tallies × Option ℕ)
  end_of_batch r = elim r.last [
    | none ↦ pure (r.state, none)
    | some last ↦ if complete os.abi r then pure (r.state, none) else do
      whole ← tally last.objectid
      pure (
        pop_address last.objectid r.state ++ (last.objectid, whole) ∷ [],
        checked_add_one last.objectid,
      )
  ]

  unfoldable pub extent_batch : ℕ → ℕ → Io os (List Unresolved × Option ℕ)
  extent_batch from generation = do
    modify clear_snapshots
    found ← on_world (os.tree_search fs.file (extent_key from))
    r ← lift (items os.abi batch_item found [])
    (tallies, next) ← end_of_batch r
    pure (batch_of generation tallies, next)

  -- What a batch makes of one extent.
  unfoldable pub resolve_one : Unresolved → Io os Resolved
  resolve_one u = do
    found ← attempt (resolve os fuel fs u.disk_address u.item u.backrefs)
    elim found [
      | err error ↦ pure (left_alone u.disk_address error)
      | ok refs ↦ do extent ← extent_of os refs; pure (resolved extent)
    ]

  -- The threads of a batch share nothing but the caches, which hold what any of them would read:
  -- the extents are resolved one after the other here, in the order that they are collected in.
  unfoldable pub resolve_batch : List Unresolved → Io os (List Resolved)
  resolve_batch [] = pure []
  resolve_batch (u ∷ us) = do r ← resolve_one u; rs ← resolve_batch us; pure (r ∷ rs)

-- `ExtentWalk`, less its handle on the filesystem.
pub record ExtentWalk : Type 0 where
  pub next : Option ℕ
  pub generation : ℕ
  pub batch : List Resolved

-- What `ExtentWalk::next` returns: the end, an extent, or the failure of a search.
pub data Item : Type 0 where
  finished : Item
  extent : Resolved → Item
  failure : IoError → Item

module _ (os : Os) (fuel : ℕ) (fs : Filesystem os) where
  -- `Filesystem::walk`
  unfoldable pub walk : Io os ExtentWalk
  walk = do
    sync os fs
    current ← fs_generation os fs
    pure (record { next = some 0; generation = current; batch = [] })

  -- `ExtentWalk::next`, with fuel for the batches that hold no extent.
  unfoldable pub next_extent : ℕ → ExtentWalk → Io os (Item × ExtentWalk)
  next_extent zero w = raise stuck
  next_extent (suc rounds) w = elim w.batch [
    | r ∷ rs ↦ pure (extent r, record w { batch = rs })
    | [] ↦ elim w.next [
      | none ↦ pure (finished, w)
      | some from ↦ do
        loaded ← attempt (extent_batch os fuel fs from w.generation)
        elim loaded [
          | err e ↦ pure (failure e, record w { next = none })
          | ok (batch, next) ↦ do
            resolved_batch ← resolve_batch os fuel fs batch
            next_extent rounds (record w { batch = resolved_batch; next = next })
        ]
    ]
  ]
