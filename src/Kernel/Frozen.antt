-- ===== src/Kernel/Frozen.antt =====
-- A stretch of time in which nothing writes: searches leave the world as it is, and answer from the
-- same trees, of those that there are. What src/kernel.rs reads in such a stretch is stated with this as a hypothesis.
use mathlib.Core.Path.{subst}
use btrealloc.Prelude.{ap, ℕ, ◌<◌, ◌≡◌, refl, sym, Bool, true, List, All, length}
use btrealloc.Io.{Result, ok, IoError}
use btrealloc.Abi.{Header, Bytes, IsAbi}
use btrealloc.Kernel.Search.{SearchKey, Found, search_all}
use btrealloc.Kernel.Search.Items.{Item, fold_items}
use btrealloc.Kernel.Search.Resume.{IsTree, select}
use btrealloc.Kernel.Search.Whole.{Answers, IsSmall, search_all-whole}
use btrealloc.Kernel.Os.{Os, State, Filesystem, on_world}

pub record Frozen (os : Os) (fs : Filesystem os) (w : os.World) : Type 0 where
  pub trees : ℕ → List Item
  pub is_tree : (id : ℕ) → IsTree (trees id)
  pub small : (id : ℕ) → All IsSmall (trees id)
  -- which trees there are: those of extents and of roots always, and that of no deleted subvolume
  pub has : ℕ → Bool
  pub has_extents : has os.abi.extent_tree_objectid ≡ true
  pub has_roots : has os.abi.root_tree_objectid ≡ true
  pub answer :
      (sk : SearchKey)
      → has sk.tree_id ≡ true
      → (found : Found) × (os.tree_search fs.file sk w ≡ (ok found, w))
        × Answers os.abi (trees sk.tree_id) sk found

module _ (os : Os) (fs : Filesystem os) (ok_abi : IsAbi os.abi) (s : State os)
    (z : Frozen os fs s.world) where
  answer_at :
      (k : SearchKey) (id : ℕ)
      → k.tree_id ≡ id
      → z.has id ≡ true
      → (found : Found) × (on_world {os = os} (os.tree_search fs.file k) s ≡ (ok found, s))
        × Answers os.abi (z.trees id) k found
  answer_at k id i there =
      let (found, e, a) = z.answer k (subst (λ id. z.has id ≡ true) (sym i) there) in
      (
        found,
        ap (λ p. (p.0, record s { world = p.1 })) e,
        subst (λ id. Answers os.abi (z.trees id) k found) i a,
      )

  -- A search over the whole of its range, with a round of fuel for each item and one more.
  pub search_all-frozen :
      {S : Type 0} (each : Header → Bytes → S → Result IoError S) (fuel : ℕ) (sk : SearchKey)
      (acc : S)
      → z.has sk.tree_id ≡ true
      → length (select sk (z.trees sk.tree_id)) < fuel
      → search_all os.abi (λ sk. on_world (os.tree_search fs.file sk)) each fuel sk acc s
        ≡ (fold_items each (select sk (z.trees sk.tree_id)) acc, s)
  search_all-frozen each fuel sk acc there f =
      search_all-whole os.abi ok_abi.header_layout (λ sk. on_world (os.tree_search fs.file sk)) each
        (z.trees sk.tree_id) (z.is_tree sk.tree_id) (z.small sk.tree_id) s sk.tree_id
        (λ k i. answer_at k sk.tree_id i there) fuel sk acc refl f
