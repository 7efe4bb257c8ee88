-- ===== src/Kernel/Walk/Once.antt =====
-- `extent_batch` of src/kernel.rs, while nothing writes: a batch and those that follow it hold each
-- extent of the tree once, however little of the tree a search returns.
use mathlib.Core.List.{append-nil}
use mathlib.Core.Path.{subst}
use btrealloc.Prelude.{
  ℕ, ◌+◌, ◌≤◌, ◌<◌, ◌≡◌, refl, sym, ap, ◌∙◌, Option, none, some, List, [], ◌∷◌, ◌++◌, arith, ltb,
  All, All-mono, Bool-cases, inl, inr, length, u64_max,
}
use btrealloc.Io.{ok, ◌>>=◌, lift, pure}
use btrealloc.Abi.{IsAbi, Header}
use btrealloc.Kernel.Search.{SearchKey, Found, set_range, search_all_of, Read, items, complete}
use btrealloc.Kernel.Search.Items.{Item, encode, last_header, items-encode}
use btrealloc.Kernel.Search.Whole.{Answers, complete-rest, last_header-some, got-StatesLength}
use btrealloc.Kernel.Search.Resume.{
  keep, select, in_range, key_of, IsKey, keep-none, keep-All, keep-true, keep-IsOrdered,
  last_header-All, length-keep,
}
use btrealloc.Kernel.Tally.{no_tally}
use btrealloc.Kernel.Os.{Os, State, Filesystem, Io}
use btrealloc.Kernel.Frozen.{Frozen, search_all-frozen}
use btrealloc.Kernel.Walk.{
  Tallies, Unresolved, batch_of, extent_key, one_extent_key, batch_item, tally_item, tally,
  checked_add_one, clear_snapshots, end_of_batch, extent_batch,
}
use btrealloc.Kernel.Walk.Group.{address, push_all, add_items}
use btrealloc.Kernel.Walk.Batch.{
  at, behind, Rising, Rising-of_IsOrdered, last-parts, keep-append, batch_of-parts, is_data,
  from_address, extents_from, extents_after,
}
use btrealloc.Kernel.Walk.Range.{
  fold_items-batch_item, fold_items-tally_item, data_of_select, data_of_one, data_behind,
  length-select_past,
}

-- A batch from an address on: the extents that it holds, and those from where the next one starts,
-- are all there are; the next one starts further on, and its search has fewer items to find.
pub record IsBatch (os : Os) (fuel : ℕ) (fs : Filesystem os) (tree : List Item)
    (generation from : ℕ) (batch : List Unresolved) (next : Option ℕ) : Type 0 where
  pub whole :
      extents_from os.abi tree generation from ≡ batch ++ extents_after os.abi tree generation next
  pub further : (n : ℕ) → next ≡ some n → from < n
  pub fewer :
      (n : ℕ)
      → next ≡ some n
      → length (select (extent_key os fuel fs n) tree)
        < length (select (extent_key os fuel fs from) tree)

module _ (os : Os) (fs : Filesystem os) (ok_abi : IsAbi os.abi) (s : State os)
    (z : Frozen os fs s.world) (fuel : ℕ) (enough : (id : ℕ) → length (z.trees id) < fuel)
    (generation from : ℕ) where
  abbrev extent_items : List Item
  extent_items = z.trees os.abi.extent_tree_objectid

  abbrev range : SearchKey
  range = extent_key os fuel fs from

  abbrev here : List Item
  here = keep (from_address os.abi from) extent_items

  tally-frozen :
      (o : ℕ)
      → from ≤ o
      → tally os fuel fs o s ≡ (ok (add_items os.abi no_tally (keep (at o) here)), s)
  unfolding tally one_extent_key set_range search_all_of
  tally-frozen o le =
      let sk = one_extent_key os fuel fs o in
      search_all-frozen os fs ok_abi s z (tally_item os fuel fs) fuel sk no_tally z.has_extents
        (omega (arith, length-keep (in_range sk) extent_items, enough os.abi.extent_tree_objectid))
      ∙ ap (λ r. (r, s)) (fold_items-tally_item os fuel fs (select sk extent_items) no_tally)
      ∙ ap (λ is. (ok (add_items os.abi no_tally is), s))
          (data_of_one os fuel fs extent_items (z.is_tree os.abi.extent_tree_objectid).keys from o
            le)

  -- What `extent_batch` makes of the tallies of a batch.
  abbrev Ends : Read Tallies → Type 0
  Ends r =
      (ts : Tallies) × (next : Option ℕ) × (end_of_batch os fuel fs r s ≡ (ok (ts, next), s))
      × IsBatch os fuel fs extent_items generation from (batch_of generation ts) next

  checked_add_one-IsBatch :
      (o : ℕ) (batch : List Unresolved) (g : Item) (rest : List Item)
      → select range extent_items ≡ g ∷ rest
      → address g ≤ o
      → from ≤ o
      → extents_from os.abi extent_items generation from
        ≡ batch ++ batch_of generation (push_all os.abi [] (keep (behind o) here))
      → IsBatch os fuel fs extent_items generation from batch (checked_add_one o)
  unfolding checked_add_one batch_of
  checked_add_one-IsBatch o batch g rest first below le e =
      let keys = (z.is_tree os.abi.extent_tree_objectid).keys in
      elim (Bool-cases (ltb o u64_max)) [
        | inl b ↦ rw b (record {
          whole =
              e
              ∙ ap (λ is. batch ++ batch_of generation (push_all os.abi [] is))
                  (sym (data_behind os fuel fs extent_items keys from o le));
          further = λ n p. let same : o + 1 ≡ n = cc in omega arith;
          fewer = λ n p.
              let same : o + 1 ≡ n = cc in
              length-select_past os fuel fs extent_items keys from n g rest first (omega arith)
                (omega arith);
        })
        | inr b ↦
            let nothing : keep (behind o) here ≡ [] = keep-none (behind o) here (
              All-mono (λ i k. ground arith) here
                (keep-All (λ i. IsKey (key_of i.header)) (from_address os.abi from) extent_items
                  keys)) in
            rw b (record { whole = e ∙ rw nothing refl; further = λ n p. cc; fewer = λ n p. cc })
      ]

  module _ (found : Found) (a : Answers os.abi extent_items range found) where
    all_read : here ≡ keep (is_data os.abi) a.got ++ keep (is_data os.abi) a.rest
    all_read =
        sym
          (data_of_select os fuel fs extent_items (z.is_tree os.abi.extent_tree_objectid).keys from)
        ∙ ap (keep (is_data os.abi)) a.split
        ∙ keep-append (is_data os.abi) a.got a.rest

    abbrev read_so_far : Option Header → Read Tallies
    read_so_far last = record {
      last = last;
      pos = length (encode os.abi a.got);
      state = push_all os.abi [] (keep (is_data os.abi) a.got);
    }

    -- A batch that read all there is.
    ends_whole :
        a.rest ≡ []
        → IsBatch os fuel fs extent_items generation from
            (batch_of generation (push_all os.abi [] (keep (is_data os.abi) a.got)))
            none
    ends_whole e = record {
      whole =
          ap (λ is. batch_of generation (push_all os.abi [] is)) {y = keep (is_data os.abi) a.got}
            (all_read ∙ rw e (append-nil (keep (is_data os.abi) a.got)))
          ∙ sym (append-nil _);
      further = λ n p. cc;
      fewer = λ n p. cc;
    }

    module _ (g : Item) (got : List Item) (e : a.got ≡ g ∷ got) (h : Header)
        (ends : last_header (some g.header) got ≡ some h) where
      split : select range extent_items ≡ g ∷ (got ++ a.rest)
      split = a.split ∙ rw e refl

      reached : from ≤ h.objectid
      unfolding extent_key set_range search_all_of
      reached =
          let from_each : All (λ i. from ≤ address i) (g ∷ (got ++ a.rest)) =
            subst (All (λ i. from ≤ address i)) split (
              All-mono (λ i p. ground arith) (select range extent_items)
                (keep-true (in_range range) extent_items)) in
          last_header-All (λ x. from ≤ x.objectid) g got a.rest h from_each.0 from_each.1 ends

      Ends-short : Ends (read_so_far (some h))
      unfolding end_of_batch
      Ends-short = elim (Bool-cases (complete os.abi (read_so_far (some h)))) [
        | inl c ↦ (
          _,
          none,
          rw c refl,
          ends_whole (
              complete-rest os.abi extent_items (z.small os.abi.extent_tree_objectid) range found a
                (read_so_far (some h)) refl c),
        )
        | inr c ↦
            let o = h.objectid in
            let t = z.is_tree os.abi.extent_tree_objectid in
            let (le, ge) =
              last-parts g got a.rest h
                (subst Rising split
                  (Rising-of_IsOrdered _ (keep-IsOrdered (in_range range) extent_items t.ordered)))
                ends in
            let parts =
              batch_of-parts os.abi o here (keep (is_data os.abi) a.got)
                (keep (is_data os.abi) a.rest) all_read
                (Rising-of_IsOrdered here
                  (keep-IsOrdered (from_address os.abi from) extent_items t.ordered))
                (keep-All (λ i. address i ≤ o) (is_data os.abi) a.got (rw e le))
                (keep-All (λ i. o ≤ address i) (is_data os.abi) a.rest ge) generation in
            (
              _,
              checked_add_one o,
              rw (c, tally-frozen o reached) refl,
              checked_add_one-IsBatch o _ g (got ++ a.rest) split le.0 reached parts,
            )
      ]

    ends : Ends (read_so_far (last_header none a.got))
    unfolding end_of_batch
    ends = go a.got refl
      where
        go : (got : List Item) → a.got ≡ got → Ends (read_so_far (last_header none got))
        go [] e = (_, none, refl, ends_whole (a.some_got e))
        go (g ∷ got) e =
            let (h, last) = last_header-some g.header got in rw last (Ends-short g got e h last)

  abbrev finish_batch : Tallies × Option ℕ → Io os (List Unresolved × Option ℕ)
  finish_batch (tallies, next) = pure (batch_of generation tallies, next)

  -- The batch, once its search is answered.
  after_search :
      (found : Found)
      → Answers os.abi extent_items range found
      → (batch : List Unresolved) × (next : Option ℕ) × ((lift
                (items os.abi (batch_item os fuel fs) found [])
              >>= (λ r. end_of_batch os fuel fs r >>= finish_batch))
            s
          ≡ (ok (batch, next), s))
        × IsBatch os fuel fs extent_items generation from batch next
  after_search found a =
      let (ts, next, e, b) = ends found a in
      let read =
        items-encode os.abi ok_abi.header_layout (batch_item os fuel fs) found a.pad a.got []
          (got-StatesLength os.abi extent_items (z.small os.abi.extent_tree_objectid) range found a)
          a.count a.laid in
      (
        batch_of generation ts,
        next,
        rw (read, fold_items-batch_item os fuel fs a.got [], e) refl,
        b,
      )

-- While nothing writes, and with more fuel than a tree has items, `extent_batch` returns, whatever
-- part of the range its one search has room for. It leaves the world as it is; the extents that it
-- returns and those of the tree from where it says the next batch starts are together, in order,
-- exactly the extents of the tree from its own start; and the next batch starts further on, where
-- its search has fewer items to find.
pub extent_batch-IsBatch :
    (os : Os) (fs : Filesystem os)
    → IsAbi os.abi
    → (s : State os) (z : Frozen os fs s.world) (fuel : ℕ) → ((id : ℕ) → length (z.trees id) < fuel)
    → (generation from : ℕ)
    → (batch : List Unresolved) × (next : Option ℕ) × (extent_batch os fuel fs from generation s
        ≡ (ok (batch, next), clear_snapshots os fuel fs s))
      × IsBatch os fuel fs (z.trees os.abi.extent_tree_objectid) generation from batch next
unfolding extent_batch clear_snapshots extent_key set_range search_all_of
extent_batch-IsBatch os fs ok_abi s z fuel enough generation from =
    let (found, runs, a) = z.answer (extent_key os fuel fs from) z.has_extents in
    let (batch, next, e, b) =
      after_search os fs ok_abi (record s { last_snapshots = [] }) z fuel enough generation from
        found a in
    (batch, next, rw runs e, b)
