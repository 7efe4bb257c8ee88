-- ===== src/Kernel/Walk/Whole.antt =====
-- `ExtentWalk::next` of src/kernel.rs, called until it says that it is done, while nothing writes.
use mathlib.Core.Path.{subst}
use btrealloc.Prelude.{
  ℕ, zero, suc, ◌+◌, ◌<◌, ◌≡◌, refl, sym, ap, Option, none, some, List, [], ◌∷◌, ◌++◌, arith,
  length,
}
use btrealloc.Io.{ok, stuck, pure, raise, ◌>>=◌}
use btrealloc.Abi.{IsAbi}
use btrealloc.Kernel.Search.Items.{Item as TreeItem}
use btrealloc.Kernel.Search.Resume.{keep, select, in_range, length-keep}
use btrealloc.Kernel.Os.{Os, State, Filesystem, Io}
use btrealloc.Kernel.Frozen.{Frozen}
use btrealloc.Kernel.Keeps.{OnWorld}
use btrealloc.Kernel.Keeps.Calls.{Reads}
use btrealloc.Kernel.Keeps.Returning.{Returns, Returns-pure, Returns-bind, Returns-bind_ok}
use btrealloc.Kernel.Walk.{
  Unresolved, Resolved, ExtentWalk, Item, finished, extent, failure, extent_key, extent_batch,
  clear_snapshots, next_extent,
}
use btrealloc.Kernel.Walk.Batch.{extents_from, extents_after}
use btrealloc.Kernel.Walk.Extents.{is_extent_item, AreExtents, extents_from-AreExtents}
use btrealloc.Kernel.Walk.Once.{IsBatch, extent_batch-IsBatch}
use btrealloc.Kernel.Walk.Resolving.{Resolves, AllResolve, resolve_batch-Returns}

module _ (os : Os) (fuel : ℕ) (fs : Filesystem os) where
  -- What a caller has, with the item that it is handed and what it is handed after it.
  unfoldable pub drain_from : Io os (List Resolved) → Item → Io os (List Resolved)
  drain_from again finished = pure []
  drain_from again (extent r) = do rs ← again; pure (r ∷ rs)
  drain_from again (failure e) = raise e

  -- What a caller is handed that takes extents until the walk is done.
  unfoldable pub drain : ℕ → ExtentWalk → Io os (List Resolved)
  unfolding drain_from
  drain zero w = raise stuck
  drain (suc n) w = do (item, w') ← next_extent os fuel fs fuel w; drain_from (drain n w') item

module _ (os : Os) (fs : Filesystem os) (ok_abi : IsAbi os.abi) (world : os.World)
    (z : Frozen os fs world) (q : Reads os (λ w. w ≡ world)) (fuel : ℕ)
    (enough : (id : ℕ) → length (z.trees id) + 1 < fuel) where
  abbrev tree : List TreeItem
  tree = z.trees os.abi.extent_tree_objectid

  abbrev Still : State os → Type 0
  Still = OnWorld {os = os} (λ w. w ≡ world)

  -- What is behind the batch that a walk holds.
  abbrev behind_batch : ExtentWalk → List Unresolved
  behind_batch w = extents_after os.abi tree w.generation w.next

  -- What a call hands over of the extents that a walk has yet to hand over, and with what it leaves it.
  abbrev Handed : List Unresolved → Item → ExtentWalk → Type 0
  Handed us finished w = us ≡ []
  Handed us (extent r) w =
      (u : Unresolved) × (bs : List Unresolved) × (us ≡ u ∷ (bs ++ behind_batch w))
      × Resolves u r
      × AllResolve bs w.batch
  Handed us (failure e) w = ⊥

  -- The rounds that batches with no extent can take, at most.
  abbrev rounds_from : Option ℕ → ℕ
  rounds_from none = 0
  rounds_from (some from) = suc (length (select (extent_key os fuel fs from) tree))

  extent_batch-Returns :
      (generation from : ℕ)
      → Returns Still
          (λ p. IsBatch os fuel fs tree generation from p.0 p.1)
          (extent_batch os fuel fs from generation)
  extent_batch-Returns generation from = record { at = λ s h. subst (At s) (sym h) (here s) }
    where
      At : State os → os.World → Type 0
      At s w =
          (a : List Unresolved × Option ℕ) × (s' : State os) × (extent_batch os fuel fs from
              generation (record s { world = w })
            ≡ (ok a, s'))
          × Still s'
          × IsBatch os fuel fs tree generation from a.0 a.1

      here : (s : State os) → At s world
      here s =
          let (batch, next, e, b) =
            extent_batch-IsBatch os fs ok_abi (record s { world = world }) z fuel
              (λ id. omega (arith, enough id)) generation from in
          ((batch, next), _, e, (unfold clear_snapshots in refl), b)

  abbrev ready : Option ℕ → ℕ → List Resolved → ExtentWalk
  ready next generation batch = record { next = next; generation = generation; batch = batch }

  rounds_from-batch :
      (generation from rounds : ℕ) (us : List Unresolved) (next : Option ℕ)
      → IsBatch os fuel fs tree generation from us next
      → rounds_from (some from) < suc rounds
      → rounds_from next < rounds
  rounds_from-batch generation from rounds us none b f = omega arith
  rounds_from-batch generation from rounds us (some n) b f = omega (arith, b.fewer n refl)

  -- Each call hands over the next extent, and the walk is done once there is none.
  next_extent-Handed :
      (rounds : ℕ) (next : Option ℕ) (generation : ℕ) (batch : List Resolved) (bs : List Unresolved)
      → AllResolve bs batch
      → rounds_from next < rounds
      → Returns Still
          (λ p. Handed (bs ++ behind_batch (ready next generation batch)) p.0 p.1)
          (next_extent os fuel fs rounds (ready next generation batch))
  unfolding next_extent
  next_extent-Handed zero next generation batch bs all f = absurd (omega arith)
  next_extent-Handed (suc rounds) next generation (r ∷ rs) [] all f = absurd all
  next_extent-Handed (suc rounds) next generation (r ∷ rs) (b ∷ bs) all f =
      Returns-pure _ (b, bs, refl, all.0, all.1)
  next_extent-Handed (suc rounds) next generation [] (b ∷ bs) all f = absurd all
  next_extent-Handed (suc rounds) none generation [] [] all f = Returns-pure _ refl
  next_extent-Handed (suc rounds) (some from) generation [] [] all f =
      Returns-bind_ok _ (extent_batch-Returns generation from) (λ (us, next) b.
        Returns-bind (resolve_batch-Returns q fuel fs us) (λ rs resolved_all.
          subst
            (λ l.
              Returns Still (λ p. Handed l p.0 p.1)
                (next_extent os fuel fs rounds (ready next generation rs)))
            (sym b.whole)
            (next_extent-Handed rounds next generation rs us resolved_all
              (rounds_from-batch generation from rounds us next b f))))

  rounds_from-fuel : (next : Option ℕ) → rounds_from next < fuel
  rounds_from-fuel none = omega (arith, enough 0)
  rounds_from-fuel (some from) = omega (
    arith,
    enough os.abi.extent_tree_objectid,
    length-keep (in_range (extent_key os fuel fs from)) tree,
  )

  drain_from-Returns :
      (again : Io os (List Resolved)) (us : List Unresolved) (item : Item) (w : ExtentWalk)
      → Handed us item w
      → ((bs : List Unresolved)
          → AllResolve bs w.batch
          → length (bs ++ behind_batch w) < length us
          → Returns Still (AllResolve (bs ++ behind_batch w)) again)
      → Returns Still (AllResolve us) (drain_from os fuel fs again item)
  unfolding drain_from
  drain_from-Returns again us finished w e k = Returns-pure _ (rw e tt)
  drain_from-Returns again us (extent r) w (u, bs, e, one, all) k =
      Returns-bind (k bs all (omega (arith, ap length e)))
        (λ rs rest. Returns-pure _ (rw e (one, rest)))
  drain_from-Returns again us (failure e) w h k = absurd h

  drain-Returns :
      (n : ℕ) (w : ExtentWalk) (bs : List Unresolved)
      → AllResolve bs w.batch
      → length (bs ++ behind_batch w) < n
      → Returns Still (AllResolve (bs ++ behind_batch w)) (drain os fuel fs n w)
  unfolding drain
  drain-Returns zero w bs all f = absurd (omega arith)
  drain-Returns (suc n) w bs all f =
      Returns-bind
        (next_extent-Handed fuel w.next w.generation w.batch bs all (rounds_from-fuel w.next))
        (λ (item, w') h.
          drain_from-Returns (drain os fuel fs n w') (bs ++ behind_batch w) item w' h
            (λ bs' all' fewer. drain-Returns n w' bs' all' (omega arith)))

-- While nothing writes, and with more fuel than a tree has items and one more, a walk that has just
-- begun, called until it says that it is done, hands over one result for every extent of the tree that
-- is not newer than its generation, in the order of their addresses, and no other. These are the
-- addresses whose items in the tree of extents, tallied all together, finish as a data extent of a
-- generation no newer: each such extent is among them, nothing else is, and each is there once. A result
-- is the extent, with one reference at least and all of them to that extent, or its address, left alone
-- with an error. The walk ends, no call fails or panics, and the world stays as it is.
pub drain-whole :
    (os : Os) (fs : Filesystem os)
    → IsAbi os.abi
    → (s : State os) (z : Frozen os fs s.world) → Reads os (λ w. w ≡ s.world)
    → (fuel : ℕ) → ((id : ℕ) → length (z.trees id) + 1 < fuel)
    → (generation n : ℕ)
    → length (extents_from os.abi (z.trees os.abi.extent_tree_objectid) generation 0) < n
    → (us : List Unresolved) × (rs : List Resolved) × (s' : State os) × (drain os fuel fs n
          (record { next = some 0; generation = generation; batch = [] })
          s
        ≡ (ok rs, s'))
      × (s'.world ≡ s.world)
      × AreExtents os.abi generation
          (keep (is_extent_item os.abi) (z.trees os.abi.extent_tree_objectid))
          us
      × AllResolve us rs
drain-whole os fs ok_abi s z q fuel enough generation n f =
    let extents = z.trees os.abi.extent_tree_objectid in
    let (rs, s', runs, still, all) =
      (drain-Returns os fs ok_abi s.world z q fuel enough n
          (record { next = some 0; generation = generation; batch = [] }) [] tt f).at
        s refl in
    (
      extents_from os.abi extents generation 0,
      rs,
      s',
      runs,
      still,
      extents_from-AreExtents os.abi generation extents
          (z.is_tree os.abi.extent_tree_objectid).ordered,
      all,
    )
