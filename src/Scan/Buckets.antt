-- ===== src/Scan/Buckets.antt =====
-- The scanner of src/scan.rs keeps an account that adds up.
use btrealloc.Prelude.{
  ℕ, zero, suc, ◌≡◌, refl, sym, ap, ◌∙◌, add64, Option, none, some, Option-cases, inl, inr, length,
  if◌then◌else◌,
}
use btrealloc.Io.{IoError, stuck, custom, kind, is_changed, attempt}
use btrealloc.Abi.{Abi}
use btrealloc.Extent.{Extent, LeftAlone, changed, unresolved}
use btrealloc.Kernel.Os.{Os, State, Filesystem}
use btrealloc.Kernel.Files.{fatal}
use btrealloc.Kernel.Resolve.{resolve_again}
use btrealloc.Kernel.Walk.{
  resolved, left_alone, ExtentWalk, Item, finished, extent, failure, walk, next_extent,
}
use btrealloc.Kernel.Keeps.{
  Yields, Keeps-anything, Yields-pure, Yields-raise, Yields-bind, Yields-bind_found, Keeps-bind,
  Keeps-bind_result,
}
use btrealloc.Scan.{
  Totals, zero_stats, Scanner, ScanStats, LeftAloneStats, or_panic, add_totals, count_reason,
  count_found, leave_unresolved, new_scanner, resolve_extent_again, take_item, scan_next,
}
use btrealloc.Scan.Account.{IsBalanced, zero_totals-IsBalanced, count_of, add_totals-some}
use btrealloc.Scan.Reasons.{add_left_alone-Counts}

abbrev pub Complete : LeftAloneStats → Type 0
Complete s = length s.reasons ≡ 8

-- An account of a scan: a bucket for each reason, totals that are the sums of the size classes, and as
-- many extents as these count.
pub record IsAccount (stats : ScanStats) : Type 0 where
  pub complete : Complete stats.left_alone_stats
  pub balanced : IsBalanced stats.totals
  pub counted : stats.extents ≡ count_of stats.totals

abbrev pub HasBuckets : Scanner → Type 0
HasBuckets sc = IsAccount sc.stats

zero_stats-IsAccount : IsAccount zero_stats
unfolding add64
zero_stats-IsAccount = record { complete = refl; balanced = zero_totals-IsBalanced; counted = refl }

pub count_reason-HasBuckets :
    (sc : Scanner) (r : LeftAlone) (e : Option Extent)
    → HasBuckets sc
    → (sc' : Scanner) × (count_reason sc r e ≡ some sc') × HasBuckets sc'
unfolding count_reason
count_reason-HasBuckets sc r e h =
    let c = add_left_alone-Counts sc.stats.left_alone_stats r e h.complete in
    (
      record sc { stats = record sc.stats { left_alone_stats = c.after } },
      rw (count_reason, c.returns) refl,
      record { complete = c.complete; balanced = h.balanced; counted = h.counted },
    )

leave_unresolved-HasBuckets :
    (abi : Abi) (sc : Scanner) (error : IoError) (e : Option Extent)
    → HasBuckets sc
    → (sc' : Scanner) × (leave_unresolved abi sc error e ≡ some sc') × HasBuckets sc'
unfolding leave_unresolved
leave_unresolved-HasBuckets abi sc error e h = elim (Option-cases (fatal abi error)) [
  | inr (hint, f) ↦ (
    record sc { error = some (custom (kind error) "stopped at extent") },
    rw (leave_unresolved, f) refl,
    h,
  )
  | inl f ↦
      let (sc', runs, h') =
        count_reason-HasBuckets sc (if is_changed error then changed else unresolved) e h in
      (sc', rw (leave_unresolved, f) runs, h')
]

module _ {os : Os} where
  abbrev pub Anywhere : State os → Type 0
  Anywhere s = Unit

  pub some-Yields :
      {A : Type 0} (Q : A → Type 0) (o : Option A)
      → ((a : A) × (o ≡ some a) × Q a)
      → Yields Anywhere Q (or_panic o)
  some-Yields Q none (a, e, q) = absurd cc
  some-Yields Q (some b) (a, e, q) = let same : a ≡ b = cc in Yields-pure b (rw (sym same) q)

  count_found-Yields :
      (sc : Scanner) (e : Extent)
      → HasBuckets sc
      → Yields Anywhere HasBuckets (or_panic (count_found sc e))
  unfolding count_found
  count_found-Yields sc e h = go (add_totals sc.stats.totals e) refl
    where
      go :
          (o : Option Totals)
          → add_totals sc.stats.totals e ≡ o
          → Yields Anywhere HasBuckets (
              or_panic (elim o as (λ _. Option Scanner) [
                | none ↦ none
                | some totals ↦ some (record sc {
                  stats = record sc.stats { extents = add64 sc.stats.extents 1; totals = totals };
                })
              ]))
      go none runs = Yields-raise _
      go (some totals) runs =
          let (balanced, counted) = add_totals-some sc.stats.totals totals e runs h.balanced in
          Yields-pure _ (record {
            complete = h.complete;
            balanced = balanced;
            counted = ap (λ n. add64 n 1) h.counted ∙ sym counted;
          })

  module _ (fuel : ℕ) (fs : Filesystem os) where
    pub new_scanner-HasBuckets : Yields Anywhere HasBuckets (new_scanner os fuel fs)
    unfolding new_scanner
    new_scanner-HasBuckets =
        Keeps-bind (Keeps-anything (walk os fuel fs)) (λ w. Yields-pure _ zero_stats-IsAccount)

    pub resolve_extent_again-HasBuckets :
        (sc : Scanner) (e : Extent)
        → HasBuckets sc
        → Yields Anywhere (λ p. HasBuckets p.1) (resolve_extent_again os fuel fs sc e)
    unfolding resolve_extent_again
    resolve_extent_again-HasBuckets sc e h =
        Keeps-bind_result _ (Keeps-anything (attempt (resolve_again os fuel fs e)))
          (λ error.
            Yields-bind
              (some-Yields HasBuckets _ (leave_unresolved-HasBuckets os.abi sc error (some e) h))
              (λ sc' h'. Yields-pure _ h'))
          (λ again. Yields-pure _ h)

    take_item-HasBuckets :
        (sc : Scanner) (item : Item)
        → HasBuckets sc
        → Yields Anywhere (λ p. HasBuckets p.1) (take_item os fuel fs sc item)
    unfolding take_item
    take_item-HasBuckets sc finished h = Yields-pure _ h
    take_item-HasBuckets sc (failure e) h = Yields-pure _ h
    take_item-HasBuckets sc (extent (resolved e)) h =
        Yields-bind (count_found-Yields sc e h) (λ sc' h'. Yields-pure _ h')
    take_item-HasBuckets sc (extent (left_alone address error)) h =
        Yields-bind (some-Yields HasBuckets _ (leave_unresolved-HasBuckets os.abi sc error none h))
          (λ sc' h'. Yields-pure _ h')

    scan_next_of-HasBuckets :
        (rounds : ℕ) (w : ExtentWalk) (stats : ScanStats) (error : Option IoError)
        → IsAccount stats
        → Yields Anywhere
            (λ p. HasBuckets p.1)
            (scan_next os fuel fs rounds (record { extent_walk = w; stats = stats; error = error }))
    unfolding scan_next
    scan_next_of-HasBuckets zero w stats error h = Yields-raise stuck
    scan_next_of-HasBuckets (suc rounds) w stats (some e) h = Yields-pure _ h
    scan_next_of-HasBuckets (suc rounds) w stats none h =
        Keeps-bind (Keeps-anything (next_extent os fuel fs fuel w)) (λ found.
          Yields-bind_found _ (take_item-HasBuckets _ found.0 h)
            (λ sc' h'. scan_next_of-HasBuckets rounds sc'.extent_walk sc'.stats sc'.error h')
            (λ result sc' h'. Yields-pure _ h'))

    pub scan_next-HasBuckets :
        (rounds : ℕ) (sc : Scanner)
        → HasBuckets sc
        → Yields Anywhere (λ p. HasBuckets p.1) (scan_next os fuel fs rounds sc)
    scan_next-HasBuckets rounds sc h =
        scan_next_of-HasBuckets rounds sc.extent_walk sc.stats sc.error h
