-- ===== src/Kernel/Resolve/Trusted.antt =====
-- When `resolve` of src/kernel.rs trusts the extent tree, while nothing writes.
use mathlib.Core.Path.{subst}
use btrealloc.Prelude.{
  ℕ, none, some, ◌<◌, ◌≤◌, ◌≢◌, ◌⊎◌, ◌++◌, All, arith, ◌≡◌, refl, sym, Bool, true, false, List, [],
  ◌∷◌, leb, length, Option-cases, Bool-cases, inl, inr,
}
use btrealloc.Io.{Result, ok, err, IoError, other_error, attempt}
use btrealloc.Abi.{Abi, IsAbi}
use btrealloc.Extent.{ExtentRef}
use btrealloc.Kernel.Search.Items.{Item}
use btrealloc.Kernel.Tally.{ExtentItem, DataRef, files}
use btrealloc.Kernel.Os.{Os, State, Filesystem}
use btrealloc.Kernel.Frozen.{Frozen}
use btrealloc.Kernel.Refs.Collect.{counts_hold, all_refs_of, AllThere, collect-exact}
use btrealloc.Kernel.Subvolumes.{last_snapshot}
use btrealloc.Kernel.Subvolumes.Cached.{
  snapshot_of, IsCoherent, or_no_root_item, last_snapshot-exact,
}
use btrealloc.Kernel.Resolve.{may_be_shared, resolve_by_walk, resolve}

-- No snapshot was taken of a reference's leaf: its subvolume's last one is older.
pub record IsUnshared (abi : Abi) (roots : List Item) (r : ExtentRef) : Type 0 where
  pub generation : ℕ
  pub said : snapshot_of abi roots r.root ≡ some generation
  pub older : generation < r.leaf_generation

-- What the tree of roots says of some references, in their order: that no snapshot was taken of any leaf;
-- that the first of them that this cannot be said of is in a leaf no newer than a snapshot; or that its
-- subvolume has no root item.
pub data Verdict (abi : Abi) (roots : List Item)
    : List ExtentRef → Result IoError Bool → Type 0 where
  none_shared :
      {refs : List ExtentRef} → All (IsUnshared abi roots) refs → Verdict abi roots refs (ok false)
  one_shared :
      (front back : List ExtentRef) (r : ExtentRef) (generation : ℕ)
      → All (IsUnshared abi roots) front
      → snapshot_of abi roots r.root ≡ some generation
      → r.leaf_generation ≤ generation
      → Verdict abi roots (front ++ r ∷ back) (ok true)
  no_root_item :
      (front back : List ExtentRef) (r : ExtentRef)
      → All (IsUnshared abi roots) front
      → snapshot_of abi roots r.root ≡ none
      → Verdict abi roots (front ++ r ∷ back) (err (other_error "subvolume has no root item"))

Verdict-cons :
    (abi : Abi) (roots : List Item) (r : ExtentRef) (refs : List ExtentRef)
    (v : Result IoError Bool)
    → IsUnshared abi roots r
    → Verdict abi roots refs v
    → Verdict abi roots (r ∷ refs) v
Verdict-cons abi roots r refs v h (none_shared all) = none_shared (h, all)
Verdict-cons abi roots r refs v h (one_shared front back q g all said le) =
    one_shared (r ∷ front) back q g (h, all) said le
Verdict-cons abi roots r refs v h (no_root_item front back q all said) =
    no_root_item (r ∷ front) back q (h, all) said

module _ (os : Os) (fs : Filesystem os) (ok_abi : IsAbi os.abi) (world : os.World)
    (z : Frozen os fs world) (fuel : ℕ) (enough : (id : ℕ) → length (z.trees id) < fuel) where
  abbrev roots : List Item
  roots = z.trees os.abi.root_tree_objectid

  -- The world is as it was, and the cache holds nothing but what the tree of roots says.
  abbrev Settled : State os → Type 0
  Settled s = (s.world ≡ world) × IsCoherent os roots s

  last_snapshot-Settled :
      (root : ℕ) (s : State os)
      → Settled s
      → (s' : State os) × (last_snapshot os fuel fs root s
          ≡ (or_no_root_item (snapshot_of os.abi roots root), s'))
        × Settled s'
  last_snapshot-Settled root s (e, c) =
      let (s', runs, same, c') =
        last_snapshot-exact os fs ok_abi (record s { world = world }) z fuel enough root c in
      subst
        (λ w.
          (s' : State os) × (last_snapshot os fuel fs root (record s { world = w })
            ≡ (or_no_root_item (snapshot_of os.abi roots root), s'))
          × Settled s')
        (sym e) (s', runs, (same, c'))

  -- What `may_be_shared` finds is what the tree of roots says.
  may_be_shared-Verdict :
      (refs : List ExtentRef) (s : State os)
      → Settled s
      → (v : Result IoError Bool) × (s' : State os) × (may_be_shared os fuel fs refs s ≡ (v, s'))
        × Settled s'
        × Verdict os.abi roots refs v
  unfolding may_be_shared
  may_be_shared-Verdict [] s h = (ok false, s, refl, h, none_shared tt)
  may_be_shared-Verdict (r ∷ refs) s h =
      let (s', e, h') = last_snapshot-Settled r.root s h in
      elim (Option-cases (snapshot_of os.abi roots r.root)) [
        | inl n ↦ (_, s', rw (e, n) refl, h', no_root_item [] refs r tt n)
        | inr (g, n) ↦ elim (Bool-cases (leb r.leaf_generation g)) [
          | inl b ↦ (ok true, s', rw (e, n, b) refl, h', one_shared [] refs r g tt n (ground arith))
          | inr b ↦
              let (v, s'', e', h'', verdict) = may_be_shared-Verdict refs s' h' in
              let newer : IsUnshared os.abi roots r = record {
                generation = g;
                said = n;
                older = ground arith;
              } in
              (v, s'', rw (e, n, b) e', h'', Verdict-cons os.abi roots r refs v newer verdict)
        ]
      ]

module _ (os : Os) (fs : Filesystem os) (ok_abi : IsAbi os.abi) (s : State os)
    (z : Frozen os fs s.world) (fuel : ℕ) (enough : (id : ℕ) → length (z.trees id) < fuel)
    (address : ℕ) (item : ExtentItem) (ds : List DataRef) where
  abbrev named : List ExtentRef
  named = all_refs_of os fs ok_abi s z fuel enough address item.disk_bytes ds

  abbrev counts : Bool
  counts = counts_hold os fs ok_abi s z fuel enough address item.disk_bytes ds

  abbrev Left : State os → Type 0
  Left s' = (s'.world ≡ s.world) × IsCoherent os (z.trees os.abi.root_tree_objectid) s'

  abbrev Says : Result IoError Bool → Type 0
  Says v = Verdict os.abi (z.trees os.abi.root_tree_objectid) named v

  -- When what the extent tree names is taken, and when the kernel is asked instead.
  pub data IsTrusted : Result IoError (List ExtentRef) × State os → Type 0 where
    taken :
        {s' : State os}
        → counts ≡ true
        → named ≢ []
        → Says (ok false)
        → Left s'
        → IsTrusted (ok named, s')
    not_as_stated :
        (counts ≡ false) ⊎ (named ≡ [])
        → IsTrusted (resolve_by_walk os fuel fs address item.disk_bytes s)
    maybe_shared :
        (s' : State os)
        → counts ≡ true
        → Says (ok true)
        → Left s'
        → IsTrusted (resolve_by_walk os fuel fs address item.disk_bytes s')
    unknown :
        {s' : State os} (e : IoError)
        → counts ≡ true
        → Says (err e)
        → Left s'
        → IsTrusted (err e, s')

  of_named :
      {rs : List ExtentRef} {v : Result IoError Bool}
      → named ≡ rs
      → Verdict os.abi (z.trees os.abi.root_tree_objectid) rs v
      → Says v
  of_named {v} e h = subst (λ rs. Verdict os.abi (z.trees os.abi.root_tree_objectid) rs v) (sym e) h

  -- What follows where the extent tree names references.
  resolve-named :
      (r : ExtentRef) (refs : List ExtentRef)
      → AllThere os fs ok_abi s z fuel enough ds
      → counts ≡ true
      → named ≡ r ∷ refs
      → (v : Result IoError Bool) (s' : State os) → may_be_shared os fuel fs (r ∷ refs) s ≡ (v, s')
      → Left s'
      → Verdict os.abi (z.trees os.abi.root_tree_objectid) (r ∷ refs) v
      → IsTrusted (resolve os fuel fs address item (files ds) s)
  unfolding resolve attempt
  resolve-named r refs there c e (ok false) s' m left v =
      rw (collect-exact os fs ok_abi s z fuel enough address item.disk_bytes ds there, c, e, m)
        (subst (λ rs. IsTrusted (ok rs, s')) e (taken c (λ n. absurd (cc)) (of_named e v) left))
  resolve-named r refs there c e (ok true) s' m left v =
      rw (collect-exact os fs ok_abi s z fuel enough address item.disk_bytes ds there, c, e, m)
        (maybe_shared s' c (of_named e v) left)
  resolve-named r refs there c e (err why) s' m left v =
      rw (collect-exact os fs ok_abi s z fuel enough address item.disk_bytes ds there, c, e, m)
        (unknown why c (of_named e v) left)

  -- What the extent tree names, taken apart.
  resolve-by_named :
      (rs : List ExtentRef)
      → AllThere os fs ok_abi s z fuel enough ds
      → IsCoherent os (z.trees os.abi.root_tree_objectid) s
      → counts ≡ true
      → named ≡ rs
      → IsTrusted (resolve os fuel fs address item (files ds) s)
  unfolding resolve attempt
  resolve-by_named [] there coherent c e =
      rw (collect-exact os fs ok_abi s z fuel enough address item.disk_bytes ds there, c, e)
        (not_as_stated (inr e))
  resolve-by_named (r ∷ refs) there coherent c e =
      let (v, s', m, left, verdict) =
        may_be_shared-Verdict os fs ok_abi s.world z fuel enough (r ∷ refs) s (refl, coherent) in
      resolve-named r refs there c e v s' m left verdict

  -- While nothing writes, with more fuel than a tree has items, with a cache of snapshots that holds
  -- nothing but what the tree of roots says, and if the subvolumes of all entries are there: `resolve`
  -- returns the references that the extent tree names, entry by entry in the trees' order, if they are
  -- as many as they state and at least one, and each is in a leaf newer than the last snapshot of its
  -- subvolume. If the counts do not hold or there is no reference, it comes to what the kernel's walk
  -- comes to. So it does if a reference, the first that is not in a newer leaf, is in one as old as a
  -- snapshot or older; and if the subvolume of that one has no root item, it fails with that. In these
  -- two cases, and where it returns the references named, it asked the tree of roots before: that left
  -- the world as it was, and the cache with nothing but what the tree says.
  pub resolve-IsTrusted :
      IsCoherent os (z.trees os.abi.root_tree_objectid) s
      → AllThere os fs ok_abi s z fuel enough ds
      → IsTrusted (resolve os fuel fs address item (files ds) s)
  unfolding resolve attempt
  resolve-IsTrusted coherent there = elim (Bool-cases counts) [
    | inl c ↦ resolve-by_named named there coherent c refl
    | inr c ↦
        rw (collect-exact os fs ok_abi s z fuel enough address item.disk_bytes ds there, c)
          (not_as_stated (inl c))
  ]
