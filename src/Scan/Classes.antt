-- ===== src/Scan/Classes.antt =====
-- The size class of `Totals::add` of src/scan.rs: which bucket an extent is counted in.
use btrealloc.Prelude.{ℕ, suc, ◌^◌, ◌≤◌, ◌<◌, ◌≡◌, ◌≢◌, max, Option, some, get_elem?}
use btrealloc.Extent.{Extent}
use btrealloc.Scan.{Bucket, Totals}
use btrealloc.Scan.Reasons.{IsCounted}

-- That an extent is counted in the bucket of the power of two that its size rounds down to (where an
-- empty one has the size of one byte), and in no other.
pub record IsClassed (t : Totals) (e : Extent) (result : Option Totals) : Type 0 where
  pub after : Totals
  pub returns : result ≡ some after
  pub class : ℕ
  pub low : 2 ^ class ≤ max e.disk_bytes 1
  pub high : max e.disk_bytes 1 < 2 ^ suc class
  pub before : Bucket
  pub was : get_elem? t.buckets class ≡ some before
  pub bucket_after : Bucket
  pub is : get_elem? after.buckets class ≡ some bucket_after
  pub counted : IsCounted (some e) before bucket_after
  pub others : (j : ℕ) → j ≢ class → get_elem? after.buckets j ≡ get_elem? t.buckets j
