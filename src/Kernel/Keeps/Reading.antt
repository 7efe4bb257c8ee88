-- ===== src/Kernel/Keeps/Reading.antt =====
-- The searches and the look-ups of src/kernel.rs keep whatever the reading calls keep.
use btrealloc.Prelude.{
  ℕ, zero, suc, Bool, true, false, Option, none, some, Option-cases, Bool-cases, inl, inr, ltb,
  length, drop, ◌+◌,
}
use btrealloc.Io.{
  Result, ok, err, Action, IoError, not_found, kind, changed, stuck, pure, raise, attempt,
}
use btrealloc.Abi.{Abi, Header, Bytes}
use btrealloc.Extent.{ExtentRef}
use btrealloc.Kernel.Os.{Os, Filesystem, Io, on_world}
use btrealloc.Kernel.Search.{
  Key, SearchKey, Found, items, items_loop, and_also, complete, next_min, resume, search_all,
}
use btrealloc.Kernel.Refs.{search_extent_refs, inode_holds_extent}
use btrealloc.Kernel.Backrefs.{lookup_failed, logical_ino_loop, logical_ino}
use btrealloc.Kernel.Keeps.{
  Yields, Keeps, OnWorld, Yields-pure, Yields-raise, Keeps-bind, Keeps-on_world, keeps_rules, Post,
  Post-any, Yields-lift, Yields-bind, Yields-option,
}
use btrealloc.Kernel.Keeps.Calls.{Reads}

module _ (abi : Abi) {S : Type 0} (each : Header → Bytes → S → Result IoError S) (Q : S → Type 0)
    (ke : (h : Header) (item : Bytes) (s : S) → Q s → Post Q (each h item s)) where
  and_also-Post :
      {R : Type 0} (P : R → Type 0) (r : Result IoError S) (f : S → Result IoError R)
      → Post Q r
      → ((s : S) → Q s → Post P (f s))
      → Post P (and_also r f)
  and_also-Post P (ok s) f h k = k s h
  and_also-Post P (err e) f h k = tt

  -- What each item keeps true of the accumulated value, a buffer of them does.
  items_loop-Post :
      (buf : Bytes) (n pos : ℕ) (last : Option Header) (s : S)
      → Q s
      → Post (λ r. Q r.state) (items_loop abi each buf n pos last s)
  unfolding items_loop
  items_loop-Post buf zero pos last s h = h
  items_loop-Post buf (suc n) pos last s h = elim (Option-cases (abi.header.read (drop pos buf))) [
    | inl e ↦ rw (Post, e) tt
    | inr (header, e) ↦ elim (Bool-cases (ltb (length buf) (pos + abi.header.size + header.len))) [
      | inl b ↦ rw (Post, e, b) tt
      | inr b ↦
          rw (Post, e, b)
            (and_also-Post (λ r. Q r.state) _ _ (ke header _ s h)
              (λ s' h'. items_loop-Post buf n _ (some header) s' h'))
    ]
  ]

  items-Post : (found : Found) (s : S) → Q s → Post (λ r. Q r.state) (items abi each found s)
  unfolding items
  items-Post found s h = items_loop-Post found.buf found.nr_items 0 none s h

  module _ {W : Type 0} {I : W → Type 0} (search_once : SearchKey → Action W IoError Found)
      (ks : (sk : SearchKey) → Keeps I (search_once sk)) where
    resume-Yields :
        (b : Bool) (o : Option Key) (again : Key → S → Action W IoError S) (s : S)
        → Q s
        → ((k : Key) → Yields I Q (again k s))
        → Yields I Q (resume b o again s)
    unfolding resume
    resume-Yields true o again s h ka = Yields-pure s h
    resume-Yields false none again s h ka = Yields-pure s h
    resume-Yields false (some k) again s h ka = ka k

    pub search_all-Yields :
        (fuel : ℕ) (sk : SearchKey) (s : S)
        → Q s
        → Yields I Q (search_all abi search_once each fuel sk s)
    unfolding search_all
    search_all-Yields zero sk s h = Yields-raise stuck
    search_all-Yields (suc fuel) sk s h = Keeps-bind (ks sk) (λ found.
        Yields-bind (Yields-lift (items abi each found s) (items-Post found s h)) (λ r h'.
          Yields-option
            (λ o. elim o as (λ _. Action W IoError S) [
              | none ↦ pure r.state
              | some last ↦
                  resume (complete abi r) (next_min last)
                    (λ key. search_all abi search_once each fuel (record sk { min_key = key }))
                    r.state
            ])
            (Yields-pure r.state h')
            (λ last.
              resume-Yields (complete abi r) (next_min last)
                (λ key. search_all abi search_once each fuel (record sk { min_key = key })) r.state
                h' (λ key. search_all-Yields fuel (record sk { min_key = key }) r.state h'))
            r.last))

module _ {os : Os} {I : os.World → Type 0} (q : Reads os I) (fs : Filesystem os) where
  pub tree_search_all-Yields :
      {S : Type 0} (each : Header → Bytes → S → Result IoError S) (Q : S → Type 0)
      → ((h : Header) (item : Bytes) (s : S) → Q s → Post Q (each h item s))
      → (fuel : ℕ) (sk : SearchKey) (s : S) → Q s
      → Yields
          (OnWorld {os = os} I)
          Q
          (search_all os.abi (λ sk. on_world {os = os} (os.tree_search fs.file sk)) each fuel sk s)
  tree_search_all-Yields each Q ke fuel sk s h =
      search_all-Yields os.abi each Q ke _
        (λ sk. Keeps-on_world {os = os} I (os.tree_search fs.file sk) (q.tree_search fs.file sk))
        fuel sk s h

  pub tree_search_all-Keeps :
      {S : Type 0} (each : Header → Bytes → S → Result IoError S) (fuel : ℕ) (sk : SearchKey)
      (s : S)
      → Keeps
          (OnWorld {os = os} I)
          (search_all os.abi (λ sk. on_world {os = os} (os.tree_search fs.file sk)) each fuel sk s)
  tree_search_all-Keeps each fuel sk s =
      tree_search_all-Yields each _ (λ h item t _. Post-any (each h item t)) fuel sk s tt

  lookup_failed-Keeps :
      {A : Type 0} (e : IoError) → Keeps (OnWorld {os = os} I) (lookup_failed os fs {A = A} e)
  unfolding lookup_failed
  lookup_failed-Keeps {A} e =
      elim (kind e)
        as (λ k. Keeps (OnWorld {os = os} I) (elim k as (λ _. Io os A) [
          | not_found ↦ raise (changed "no longer referenced")
          | _ ↦ raise e
        ])) [ not_found ↦ Yields-raise _ | _ ↦ Yields-raise e ]

  logical_ino_loop-Keeps :
      (fuel address size : ℕ)
      → Keeps (OnWorld {os = os} I) (logical_ino_loop os fs fuel address size)
  unfolding logical_ino_loop attempt
  logical_ino_loop-Keeps zero address size = Yields-raise stuck
  logical_ino_loop-Keeps (suc fuel) address size =
      search
        (
          keeps_rules,
          q.logical_ino fs.file address size,
          lookup_failed-Keeps,
          logical_ino_loop-Keeps fuel address,
        )
        depth 12

  module _ (fuel : ℕ) where
    search_extent_refs-Keeps :
        {S : Type 0} (sk : SearchKey) (root inode : ℕ) (each : ExtentRef → S → S) (s : S)
        → Keeps (OnWorld {os = os} I) (search_extent_refs os fuel fs sk root inode each s)
    unfolding search_extent_refs
    search_extent_refs-Keeps sk root inode each s = tree_search_all-Keeps _ fuel sk s

    pub inode_holds_extent-Keeps :
        (root inode from to address : ℕ)
        → Keeps (OnWorld {os = os} I) (inode_holds_extent os fuel fs root inode from to address)
    unfolding inode_holds_extent
    inode_holds_extent-Keeps root inode from to address =
        search_extent_refs-Keeps _ root inode _ false

    pub logical_ino-Keeps :
        (address : ℕ) → Keeps (OnWorld {os = os} I) (logical_ino os fs fuel address)
    unfolding logical_ino
    logical_ino-Keeps address = logical_ino_loop-Keeps fuel address _
