-- ===== src/Kernel/Walk/Resolving.antt =====
-- What a batch makes of its extents: one result for each, in order.
use btrealloc.Prelude.{ℕ, ◌≡◌, refl, List, [], ◌∷◌}
use btrealloc.Io.{ok}
use btrealloc.Kernel.Os.{Os, State, Filesystem}
use btrealloc.Kernel.Keeps.{OnWorld}
use btrealloc.Kernel.Keeps.Calls.{Reads, any_answer}
use btrealloc.Kernel.Keeps.Returning.{Returns, Returns-pure, Returns-bind, Returns-bind_attempt}
use btrealloc.Kernel.Resolve.Refs.{IsExtentAt, extent_of-Returns, resolve-Yields}
use btrealloc.Kernel.Walk.{Unresolved, Resolved, resolved, left_alone, resolve_one, resolve_batch}

-- What an extent of a batch may come to.
abbrev pub Resolves : Unresolved → Resolved → Type 0
Resolves u (resolved e) = IsExtentAt u.disk_address u.item.disk_bytes e
Resolves u (left_alone address error) = address ≡ u.disk_address

abbrev pub AllResolve : List Unresolved → List Resolved → Type 0
AllResolve [] [] = Unit
AllResolve (u ∷ us) (r ∷ rs) = Resolves u r × AllResolve us rs
AllResolve _ _ = ⊥

module _ {os : Os} {I : os.World → Type 0} (q : Reads os I) (fuel : ℕ) (fs : Filesystem os) where
  abbrev On : State os → Type 0
  On = OnWorld {os = os} I

  resolve_one-Returns : (u : Unresolved) → Returns On (Resolves u) (resolve_one os fuel fs u)
  unfolding resolve_one
  resolve_one-Returns u =
      Returns-bind_attempt _ (resolve-Yields q fuel fs u.disk_address u.item u.backrefs)
        (λ error. Returns-pure _ refl)
        (λ refs h.
          Returns-bind (extent_of-Returns I u.disk_address u.item.disk_bytes refs h)
            (λ e found. Returns-pure _ found))

  pub resolve_batch-Returns :
      (us : List Unresolved) → Returns On (AllResolve us) (resolve_batch os fuel fs us)
  unfolding resolve_batch
  resolve_batch-Returns [] = Returns-pure _ tt
  resolve_batch-Returns (u ∷ us) =
      Returns-bind (resolve_one-Returns u)
        (λ r one. Returns-bind (resolve_batch-Returns us) (λ rs all. Returns-pure _ (one, all)))

-- Whatever the kernel answers, and on any fuel, resolving the extents of a batch neither fails nor
-- panics: it returns one result for each, in order. That is the extent at its address, of its size on
-- disk, with one reference at least, all of them to that extent; or its address, left alone with an
-- error.
pub resolve_batch-AllResolve :
    (os : Os) (fuel : ℕ) (fs : Filesystem os) (us : List Unresolved) (s : State os)
    → (rs : List Resolved) × (s' : State os) × (resolve_batch os fuel fs us s ≡ (ok rs, s'))
      × AllResolve us rs
resolve_batch-AllResolve os fuel fs us s =
    let (rs, s', e, h, all) = (resolve_batch-Returns (any_answer os) fuel fs us).at s tt in
    (rs, s', e, all)
