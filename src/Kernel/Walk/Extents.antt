-- ===== src/Kernel/Walk/Extents.antt =====
-- Which extents `extent_batch` of src/kernel.rs is to find, said of the items of a tree one address at a
-- time: what a walk has is told from this.
use mathlib.Core.List.Memᴰ as M
use mathlib.Core.List.{Memᴰ}
use mathlib.Core.Path.{subst}
use mathlib.Core.Option.{none-ne-some, some-injective}
use btrealloc.Prelude.{
  ℕ, zero, suc, ◌<◌, ◌≤◌, ◌≡◌, refl, sym, ap, ◌∙◌, Bool, true, false, Option, none, some, List, [],
  ◌∷◌, ◌++◌, arith, length, ◌==◌, ◌&&◌, ==→≡, ==_refl, leb, ltb, All, All-mono, All-of_member,
  Bool-cases, Option-cases, inl, inr,
}
use btrealloc.Abi.{Abi}
use btrealloc.Kernel.Search.Items.{Item}
use btrealloc.Kernel.Search.Resume.{
  keep, keep-keep, keep-none, length-keep, keep-All, keep-true, IsOrdered, keep-IsOrdered,
}
use btrealloc.Kernel.Tally.{Tally, no_tally, finish, is_extent_key}
use btrealloc.Kernel.Walk.{Unresolved, push_item, pop_address, to_unresolved, cons_some, batch_of}
use btrealloc.Kernel.Walk.Group.{address, push_all, add_items}
use btrealloc.Kernel.Walk.Batch.{
  Rising, Rising-of_IsOrdered, at, behind, keep-ext, from_address, extents_from, batch_of-parts,
}

-- An item that tells of an extent: its key is from that of an extent item on up to that of a shared
-- reference to one.
abbrev pub is_extent_item : Abi → Item → Bool
is_extent_item abi i =
    leb abi.extent_item_key i.header.key_type && leb i.header.key_type abi.shared_data_ref_key

keep-Rising : (p : Item → Bool) (is : List Item) → Rising is → Rising (keep p is)
keep-Rising p [] r = tt
keep-Rising p (i ∷ is) r = elim (Bool-cases (p i)) [
  | inl e ↦ rw e (keep-All (λ j. address i ≤ address j) p is r.0, keep-Rising p is r.1)
  | inr e ↦ rw e (keep-Rising p is r.1)
]

module _ (abi : Abi) (generation : ℕ) where
  -- That the items of an address, taken together, tell of a data extent that is not newer than the
  -- generation.
  pub record IsExtent (items : List Item) (u : Unresolved) : Type 0 where
    pub told :
        finish (add_items abi no_tally (keep (at u.disk_address) items)) ≡ some (u.item, u.backrefs)
    pub old : u.item.generation ≤ generation

  abbrev pub Ascending : List Unresolved → Type 0
  Ascending [] = Unit
  Ascending (u ∷ us) = All (λ v. u.disk_address < v.disk_address) us × Ascending us

  -- That some extents are all there are that are not newer, each once, in the order of their addresses.
  pub record AreExtents (items : List Item) (us : List Unresolved) : Type 0 where
    pub ascending : Ascending us
    pub sound : All (IsExtent items) us
    pub complete : (u : Unresolved) → IsExtent items u → Memᴰ u us

  to_unresolved-some :
      (a : ℕ) (t : Tally) (u : Unresolved)
      → to_unresolved generation a t ≡ some u
      → (u.disk_address ≡ a)
        × (finish t ≡ some (u.item, u.backrefs))
        × (u.item.generation ≤ generation)
  unfolding to_unresolved
  to_unresolved-some a t u e = elim (Option-cases (finish t)) [
    | inl n ↦ absurd (none-ne-some u (rw (to_unresolved, n) at e))
    | inr ((item, backrefs), h) ↦ elim (Bool-cases (leb item.generation generation)) [
      | inr new ↦ absurd (none-ne-some u (rw (to_unresolved, h, new) at e))
      | inl old ↦
          let v : Unresolved = record { disk_address = a; item = item; backrefs = backrefs } in
          let same : v ≡ u = some-injective v u (rw (to_unresolved, h, old) at e) in
          subst
            (λ u.
              (u.disk_address ≡ a)
              × (finish t ≡ some (u.item, u.backrefs))
              × (u.item.generation ≤ generation))
            same (refl, h, ground arith)
    ]
  ]

  some-to_unresolved :
      (t : Tally) (u : Unresolved)
      → finish t ≡ some (u.item, u.backrefs)
      → u.item.generation ≤ generation
      → to_unresolved generation u.disk_address t ≡ some u
  unfolding to_unresolved
  some-to_unresolved t u h le =
      let old : leb u.item.generation generation ≡ true = ground arith in
      rw (to_unresolved, h, old) refl

  -- Where an address has no item, there is no extent.
  none_there :
      (items : List Item) (u : Unresolved)
      → keep (at u.disk_address) items ≡ []
      → IsExtent items u
      → ⊥
  unfolding finish
  none_there items u e h = let told = h.told in none-ne-some (u.item, u.backrefs) (rw e at told)

  module _ (g : Item) (rest : List Item) (rising : Rising (g ∷ rest)) where
    abbrev all : List Item
    all = g ∷ rest

    abbrev o : ℕ
    o = address g

    abbrev later : List Item
    later = keep (behind o) all

    at_or_behind : All (λ i. o ≤ address i) all
    at_or_behind = (omega arith, rising.0)

    -- Behind the first address the items are those of the rest.
    items_behind : (a : ℕ) → o < a → keep (at a) later ≡ keep (at a) all
    items_behind a lt =
        sym (
          keep-keep (at a) (at a) (behind o) all (All-mono (λ i le. ground arith) all at_or_behind))

    none_behind : (a : ℕ) → a ≤ o → keep (at a) later ≡ []
    none_behind a le =
        keep-none (at a) later (All-mono (λ i e. ground arith) later (keep-true (behind o) all))

    behind-lt : (u : Unresolved) → IsExtent later u → o < u.disk_address
    behind-lt u h = elim (Bool-cases (ltb o u.disk_address)) [
      | inl e ↦ ground arith
      | inr e ↦ absurd (none_there later u (none_behind u.disk_address (ground arith)) h)
    ]

    widen : (u : Unresolved) → IsExtent later u → IsExtent all u
    widen u h =
        let same = items_behind u.disk_address (behind-lt u h) in
        let told = h.told in record { told = rw same at told; old = h.old }

    narrow : (u : Unresolved) → o < u.disk_address → IsExtent all u → IsExtent later u
    narrow u lt h =
        let same = items_behind u.disk_address lt in record { told = rw same h.told; old = h.old }

    -- No extent stands before the first item.
    not_before :
        (u : Unresolved) → IsExtent all u → (u.disk_address == o) ≡ false → o < u.disk_address
    not_before u h other = elim (Bool-cases (ltb o u.disk_address)) [
      | inl e ↦ ground arith
      | inr e ↦ absurd (
          none_there all u
            (keep-none (at u.disk_address) all (All-mono (λ i le. ground arith) all at_or_behind))
            h)
    ]

    fewer : length later ≤ length rest
    fewer =
        let none_here : behind o g ≡ false = ground arith in
        rw none_here (length-keep (behind o) rest)

    abbrev first_tally : Tally
    first_tally = add_items abi no_tally (keep (at o) all)

    -- What a batch makes of the first address, and of those behind it.
    batch_of-first :
        batch_of generation (push_all abi [] all)
        ≡ cons_some
            (to_unresolved generation o first_tally)
            (batch_of generation (push_all abi [] later))
    unfolding batch_of push_item pop_address
    batch_of-first =
        batch_of-parts abi o all (g ∷ []) rest refl rising (omega arith, tt) rising.0 generation
        ∙ ap
            (λ ts.
              batch_of generation (ts ++ (o, first_tally) ∷ [])
              ++ batch_of generation (push_all abi [] later))
            popped
        ∙ one_more (to_unresolved generation o first_tally)
      where
        popped : pop_address o (push_all abi [] (g ∷ [])) ≡ []
        popped = rw (==_refl o) refl

        one_more :
            (u : Option Unresolved)
            → cons_some u [] ++ batch_of generation (push_all abi [] later)
              ≡ cons_some u (batch_of generation (push_all abi [] later))
        one_more none = refl
        one_more (some u) = refl

    abbrev Told : Unresolved → ℕ → Type 0
    Told u a = finish (add_items abi no_tally (keep (at a) all)) ≡ some (u.item, u.backrefs)

    -- An extent at the first address is what its tally makes of it.
    first-IsExtent :
        (u : Unresolved)
        → to_unresolved generation o first_tally ≡ some u
        → (u.disk_address ≡ o) × IsExtent all u
    first-IsExtent u e =
        let (place, told, old) = to_unresolved-some o first_tally u e in
        (place, record { told = subst (Told u) (sym place) told; old = old })

    IsExtent-first :
        (u : Unresolved)
        → u.disk_address ≡ o
        → IsExtent all u
        → to_unresolved generation o first_tally ≡ some u
    IsExtent-first u e h =
        subst (λ a. to_unresolved generation a first_tally ≡ some u) e
          (some-to_unresolved first_tally u (subst (Told u) e h.told) h.old)

    -- With those behind it, the first address has all extents there are.
    with_first :
        (x : Option Unresolved) (us : List Unresolved)
        → to_unresolved generation o first_tally ≡ x
        → AreExtents later us
        → AreExtents all (cons_some x us)
    with_first none us e h = record {
      ascending = h.ascending;
      sound = All-mono widen us h.sound;
      complete = λ u i. elim (Bool-cases (u.disk_address == o)) [
        | inl same ↦
            absurd (none-ne-some u (sym e ∙ IsExtent-first u (==→≡ u.disk_address o same) i))
        | inr other ↦ h.complete u (narrow u (not_before u i other) i)
      ];
    }
    with_first (some v) us e h =
        let (place, is) = first-IsExtent v e in
        record {
          ascending =
              (All-mono (λ u i. omega (arith, place, behind-lt u i)) us h.sound, h.ascending);
          sound = (is, All-mono widen us h.sound);
          complete = λ u i. elim (Bool-cases (u.disk_address == o)) [
            | inl same ↦
                M.head
                  (some-injective u v (sym (IsExtent-first u (==→≡ u.disk_address o same) i) ∙ e))
            | inr other ↦ M.tail (h.complete u (narrow u (not_before u i other) i))
          ];
        }

  -- The extents that a batch of some items makes up, with a round for each item.
  batch_of-AreExtents :
      (n : ℕ) (items : List Item)
      → length items < n
      → Rising items
      → AreExtents items (batch_of generation (push_all abi [] items))
  unfolding batch_of
  batch_of-AreExtents zero items f r = absurd (omega arith)
  batch_of-AreExtents (suc n) [] f r = record {
    ascending = tt;
    sound = tt;
    complete = λ u h. absurd (none_there [] u refl h);
  }
  batch_of-AreExtents (suc n) (g ∷ rest) f r =
      let less : length (later g rest r) ≤ length rest = fewer g rest r in
      let behind_it =
        batch_of-AreExtents n (later g rest r) (omega arith)
          (keep-Rising (behind (address g)) (g ∷ rest) r) in
      subst (AreExtents (g ∷ rest)) (sym (batch_of-first g rest r)) (
        with_first g rest r (to_unresolved generation (address g) (first_tally g rest r))
          (batch_of generation (push_all abi [] (later g rest r))) refl behind_it)

  -- The extents of a tree from its start are all that its items tell of.
  pub extents_from-AreExtents :
      (tree : List Item)
      → IsOrdered tree
      → AreExtents (keep (is_extent_item abi) tree) (extents_from abi tree generation 0)
  unfolding is_extent_key
  extents_from-AreExtents tree ordered =
      let items = keep (is_extent_item abi) tree in
      let same : keep (from_address abi 0) tree ≡ items =
        keep-ext (from_address abi 0) (is_extent_item abi) tree (
          All-of_member (λ i. from_address abi 0 i ≡ is_extent_item abi i) tree
            (λ i m. ground arith)) in
      rw same (
        batch_of-AreExtents (suc (length items)) items (omega arith)
          (Rising-of_IsOrdered items (keep-IsOrdered (is_extent_item abi) tree ordered)))
