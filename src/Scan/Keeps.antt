-- ===== src/Scan/Keeps.antt =====
-- The scanner of src/scan.rs keeps whatever the reading calls keep.
use btrealloc.Prelude.{ℕ, zero, suc, Option, none, some}
use btrealloc.Io.{IoError, stuck}
use btrealloc.Extent.{Extent}
use btrealloc.Kernel.Os.{Os, State, Filesystem}
use btrealloc.Kernel.Walk.{resolved, left_alone, ExtentWalk, Item, finished, extent, failure}
use btrealloc.Kernel.Keeps.{
  Keeps, OnWorld, Yields-raise, Keeps-pure, Keeps-bind, Keeps-bind_result, Keeps-bind_found,
  Keeps-attempt,
}
use btrealloc.Kernel.Keeps.Calls.{Reads}
use btrealloc.Kernel.Keeps.Walking.{resolve_again-Keeps, walk-Keeps, next_extent-Keeps}
use btrealloc.Scan.{
  ScanStats, Scanner, or_panic, new_scanner, resolve_extent_again, take_item, scan_next,
}

module _ {S A : Type 0} {I : S → Type 0} where
  pub or_panic-Keeps : (o : Option A) → Keeps I (or_panic o)
  or_panic-Keeps none = Yields-raise _
  or_panic-Keeps (some a) = Keeps-pure a

module _ {os : Os} {I : os.World → Type 0} (q : Reads os I) (fuel : ℕ) (fs : Filesystem os) where
  abbrev On : State os → Type 0
  On = OnWorld {os = os} I

  pub new_scanner-Keeps : Keeps On (new_scanner os fuel fs)
  unfolding new_scanner
  new_scanner-Keeps = Keeps-bind (walk-Keeps q fuel fs) (λ w. Keeps-pure _)

  pub resolve_extent_again-Keeps :
      (sc : Scanner) (e : Extent) → Keeps On (resolve_extent_again os fuel fs sc e)
  unfolding resolve_extent_again
  resolve_extent_again-Keeps sc e =
      Keeps-bind_result _ (Keeps-attempt (resolve_again-Keeps q fuel fs e))
        (λ error. Keeps-bind (or_panic-Keeps _) (λ sc'. Keeps-pure _)) (λ again. Keeps-pure _)

  take_item-Keeps : (sc : Scanner) (item : Item) → Keeps On (take_item os fuel fs sc item)
  unfolding take_item
  take_item-Keeps sc finished = Keeps-pure _
  take_item-Keeps sc (failure e) = Keeps-pure _
  take_item-Keeps sc (extent (resolved e)) = Keeps-bind (or_panic-Keeps _) (λ sc'. Keeps-pure _)
  take_item-Keeps sc (extent (left_alone address error)) =
      Keeps-bind (or_panic-Keeps _) (λ sc'. Keeps-pure _)

  scan_next_of-Keeps :
      (rounds : ℕ) (w : ExtentWalk) (stats : ScanStats) (error : Option IoError)
      → Keeps On
          (scan_next os fuel fs rounds (record { extent_walk = w; stats = stats; error = error }))
  unfolding scan_next
  scan_next_of-Keeps zero w stats error = Yields-raise stuck
  scan_next_of-Keeps (suc rounds) w stats (some e) = Keeps-pure _
  scan_next_of-Keeps (suc rounds) w stats none =
      Keeps-bind (next_extent-Keeps q fuel fs fuel w) (λ found.
        Keeps-bind_found _ (take_item-Keeps _ found.0)
          (λ sc'. scan_next_of-Keeps rounds sc'.extent_walk sc'.stats sc'.error)
          (λ result sc'. Keeps-pure _))

  pub scan_next-Keeps : (rounds : ℕ) (sc : Scanner) → Keeps On (scan_next os fuel fs rounds sc)
  scan_next-Keeps rounds sc = scan_next_of-Keeps rounds sc.extent_walk sc.stats sc.error
