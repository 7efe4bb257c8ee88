-- ===== src/Kernel/Keeps/Walking.antt =====
-- Resolving extents and walking over them keeps whatever the reading calls keep.
use btrealloc.Prelude.{ℕ, zero, suc, refl, Option, none, some, List, [], ◌∷◌, ◌++◌, if◌then◌else◌}
use btrealloc.Io.{IoError, stuck, pure, modify, ◌>>=◌}
use btrealloc.Extent.{Extent}
use btrealloc.Kernel.Os.{Os, State, Filesystem, Io}
use btrealloc.Kernel.Search.{Read, complete}
use btrealloc.Kernel.Resolve.{resolve_again}
use btrealloc.Kernel.Walk.{
  Unresolved, Resolved, Tallies, tally, clear_snapshots, end_of_batch, pop_address, checked_add_one,
  extent_batch, resolve_batch, ExtentWalk, walk, next_extent,
}
use btrealloc.Kernel.Keeps.{
  Keeps, OnWorld, Keeps-attempt, Keeps-bind_result, Yields-raise, Yields-bind, Keeps-pure,
  Keeps-bind, Keeps-modify, keeps_rules,
}
use btrealloc.Kernel.Keeps.Calls.{Reads}
use btrealloc.Kernel.Keeps.Files.{sync-Keeps, generation-Keeps}
use btrealloc.Kernel.Keeps.Reading.{tree_search_all-Keeps}
use btrealloc.Kernel.Keeps.Returning.{Keeps-of_Returns}
use btrealloc.Kernel.Resolve.Refs.{extent_of-Returns, resolve_by_walk-Yields}
use btrealloc.Kernel.Walk.Resolving.{resolve_batch-Returns}

module _ {os : Os} {I : os.World → Type 0} (q : Reads os I) (fuel : ℕ) (fs : Filesystem os) where
  abbrev On : State os → Type 0
  On = OnWorld {os = os} I

  pub resolve_again-Keeps : (e : Extent) → Keeps On (resolve_again os fuel fs e)
  unfolding resolve_again
  resolve_again-Keeps e =
      Yields-bind (resolve_by_walk-Yields q fuel fs e.disk_address e.disk_bytes)
        (λ refs h. Keeps-of_Returns (extent_of-Returns I _ _ refs h))

  tally-Keeps : (address : ℕ) → Keeps On (tally os fuel fs address)
  unfolding tally
  tally-Keeps address = tree_search_all-Keeps q fs _ fuel _ _

  clear_snapshots-Keeps : Keeps {E = IoError} On (modify (clear_snapshots os fuel fs))
  clear_snapshots-Keeps = Keeps-modify I _ (λ s. unfold clear_snapshots in refl)

  end_of_batch-Keeps : (r : Read Tallies) → Keeps On (end_of_batch os fuel fs r)
  unfolding end_of_batch
  end_of_batch-Keeps r =
      elim r.last
        as (λ o. Keeps On (elim o as (λ _. Io os (Tallies × Option ℕ)) [
          | none ↦ pure (r.state, none)
          | some last ↦ if complete os.abi r then pure (r.state, none) else do
            whole ← tally os fuel fs last.objectid
            pure (
              pop_address last.objectid r.state ++ (last.objectid, whole) ∷ [],
              checked_add_one last.objectid,
            )
        ])) [ none ↦ Keeps-pure _ | some last ↦ search (keeps_rules, tally-Keeps) ]

  extent_batch-Keeps : (from generation : ℕ) → Keeps On (extent_batch os fuel fs from generation)
  unfolding extent_batch
  extent_batch-Keeps from generation =
      search (keeps_rules, clear_snapshots-Keeps, q.tree_search fs.file, end_of_batch-Keeps) depth
        12

  resolve_batch-Keeps : (us : List Unresolved) → Keeps On (resolve_batch os fuel fs us)
  resolve_batch-Keeps us = Keeps-of_Returns (resolve_batch-Returns q fuel fs us)

  pub walk-Keeps : Keeps On (walk os fuel fs)
  unfolding walk
  walk-Keeps = search (keeps_rules, sync-Keeps q, generation-Keeps q)

  next_extent_of-Keeps :
      (rounds : ℕ) (next : Option ℕ) (generation : ℕ) (batch : List Resolved)
      → Keeps On (
          next_extent os fuel fs rounds
            (record { next = next; generation = generation; batch = batch }))
  unfolding next_extent
  next_extent_of-Keeps zero next generation batch = Yields-raise stuck
  next_extent_of-Keeps (suc rounds) next generation (r ∷ rs) = Keeps-pure _
  next_extent_of-Keeps (suc rounds) none generation [] = Keeps-pure _
  next_extent_of-Keeps (suc rounds) (some from) generation [] =
      Keeps-bind_result _ (Keeps-attempt (extent_batch-Keeps from generation)) (λ e. Keeps-pure _)
        (λ loaded.
          Keeps-bind (resolve_batch-Keeps loaded.0)
            (λ batch. next_extent_of-Keeps rounds loaded.1 generation batch))

  pub next_extent-Keeps : (rounds : ℕ) (w : ExtentWalk) → Keeps On (next_extent os fuel fs rounds w)
  next_extent-Keeps rounds w = next_extent_of-Keeps rounds w.next w.generation w.batch
