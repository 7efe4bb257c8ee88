-- ===== src/Kernel/Subvolumes/Cached.antt =====
-- The cache of `last_snapshot` in src/kernel.rs, while nothing writes.
use mathlib.Core.Path.{subst}
use btrealloc.Prelude.{
  ℕ, ◌<◌, ◌≡◌, refl, sym, ap, ◌∙◌, Option, none, some, List, [], ◌∷◌, arith, length, ◌==◌,
  if◌then◌else◌, lookup, lookup-insert, Bool, Option-cases, Bool-cases, inl, inr, ==→≡, u64_max,
  drop,
}
use btrealloc.Io.{Result, ok, err, IoError, other_error}
use btrealloc.Abi.{Abi, IsAbi, Header, Bytes}
use btrealloc.Kernel.Search.{SearchKey, search_all_of, set_range}
use btrealloc.Kernel.Search.Items.{Item, fold_items}
use btrealloc.Kernel.Search.Resume.{select, in_range, length-keep}
use btrealloc.Kernel.Os.{Os, State, Filesystem}
use btrealloc.Kernel.Frozen.{Frozen, search_all-frozen}
use btrealloc.Kernel.Subvolumes.{read_last_snapshot, remember_snapshot, last_snapshot}

-- What `read_last_snapshot` does with an item.
abbrev read_generation : Abi → Header → Bytes → Option ℕ → Result IoError (Option ℕ)
read_generation abi header item found = ok (abi.u64.read (drop abi.root_item_last_snapshot item))

-- The generation that the root items of a subvolume give: the last of them counts.
unfoldable pub generation_in : Abi → List Item → Option ℕ → Option ℕ
generation_in abi [] found = found
generation_in abi (i ∷ is) found =
    generation_in abi is (abi.u64.read (drop abi.root_item_last_snapshot i.body))

fold_items-read_generation :
    (abi : Abi) (is : List Item) (found : Option ℕ)
    → fold_items (read_generation abi) is found ≡ ok (generation_in abi is found)
unfolding fold_items generation_in
fold_items-read_generation abi [] found = refl
fold_items-read_generation abi (i ∷ is) found = fold_items-read_generation abi is _

abbrev pub root_items : Abi → ℕ → SearchKey
root_items abi root =
    set_range (search_all_of abi.root_tree_objectid)
      (record { objectid = root; key_type = abi.root_item_key; offset = 0 })
      (record { objectid = root; key_type = abi.root_item_key; offset = u64_max })

-- The generation of a subvolume's last snapshot, by the tree of roots.
abbrev pub snapshot_of : Abi → List Item → ℕ → Option ℕ
snapshot_of abi roots root = generation_in abi (select (root_items abi root) roots) none

-- The cache holds nothing but what the tree of roots says.
abbrev pub IsCoherent : (os : Os) → List Item → State os → Type 0
IsCoherent os roots s =
    (root generation : ℕ)
    → lookup root s.last_snapshots ≡ some generation
    → snapshot_of os.abi roots root ≡ some generation

-- What the tree of roots says, as a result.
abbrev pub or_no_root_item : Option ℕ → Result IoError ℕ
or_no_root_item none = err (other_error "subvolume has no root item")
or_no_root_item (some generation) = ok generation

module _ (os : Os) (fs : Filesystem os) (ok_abi : IsAbi os.abi) (s : State os)
    (z : Frozen os fs s.world) (fuel : ℕ) (enough : (id : ℕ) → length (z.trees id) < fuel) where
  abbrev roots : List Item
  roots = z.trees os.abi.root_tree_objectid

  read_last_snapshot-frozen :
      (root : ℕ) → read_last_snapshot os fuel fs root s ≡ (ok (snapshot_of os.abi roots root), s)
  unfolding read_last_snapshot set_range search_all_of
  read_last_snapshot-frozen root =
      let sk = root_items os.abi root in
      search_all-frozen os fs ok_abi s z (read_generation os.abi) fuel sk none z.has_roots
        (omega (arith, length-keep (in_range sk) roots, enough os.abi.root_tree_objectid))
      ∙ ap (λ r. (r, s)) (fold_items-read_generation os.abi (select sk roots) none)

  remember_snapshot-IsCoherent :
      (root generation : ℕ)
      → IsCoherent os roots s
      → snapshot_of os.abi roots root ≡ some generation
      → IsCoherent os roots (remember_snapshot os fuel fs root generation s)
  unfolding remember_snapshot
  remember_snapshot-IsCoherent root generation c e j g h =
      let found : Bool → Option ℕ = λ t. if t then some generation else lookup j s.last_snapshots in
      let looked : found (root == j) ≡ some g =
        sym (lookup-insert root j generation s.last_snapshots) ∙ h in
      elim (Bool-cases (root == j)) [
        | inl b ↦ rw (sym (==→≡ root j b)) (e ∙ subst (λ t. found t ≡ some g) b looked)
        | inr b ↦ c j g (subst (λ t. found t ≡ some g) b looked)
      ]

  -- While nothing writes, and with more fuel than a tree has items, `last_snapshot` with a cache that
  -- holds nothing but what the tree of roots says returns exactly what that tree says: the generation in
  -- the last root item of the subvolume, or an error where there is none. It leaves the world as it is,
  -- and the cache with nothing but what the tree says.
  pub last_snapshot-exact :
      (root : ℕ)
      → IsCoherent os roots s
      → (s' : State os) × (last_snapshot os fuel fs root s
          ≡ (or_no_root_item (snapshot_of os.abi roots root), s'))
        × (s'.world ≡ s.world)
        × IsCoherent os roots s'
  unfolding last_snapshot
  last_snapshot-exact root c = elim (Option-cases (lookup root s.last_snapshots)) [
    | inr (g, h) ↦ (s, rw (h, c root g h) refl, refl, c)
    | inl h ↦ elim (Option-cases (snapshot_of os.abi roots root)) [
      | inl n ↦ (s, rw (h, read_last_snapshot-frozen root, n) refl, refl, c)
      | inr (g, e) ↦ (
        remember_snapshot os fuel fs root g s,
        rw (h, read_last_snapshot-frozen root, e) refl,
        (unfold remember_snapshot in refl),
        remember_snapshot-IsCoherent root g c e,
      )
    ]
  ]
